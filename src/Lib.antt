-- ===== src/Lib.antt =====
-- Verification of BOTMEV, a bot that watches the Ethereum mempool and the HyperLiquid exchange for
-- opportunities and submits bundles of transactions (crates/ of the repository).
--
-- The parts and how they are meant to interact. Transactions of the mempool are parsed and go
-- through a lock-free ring buffer (or a buffer with drop policies) to the filter engine; a pipeline
-- of three stages brings them to the strategies. The state manager follows the chain's head and the
-- pending transactions. The client of HyperLiquid keeps a connection with its subscriptions and
-- passes messages on. Bundles are built and signed from opportunities, and submitted; the execution
-- tracker looks for them in new blocks, and the failure handler decides what to do when one fails.
--
-- Types: crates/mev-core/src/types.rs, the records that are exchanged.
-- RingBuffer: crates/mev-mempool/src/ring_buffer.rs. `Defs` has `TransactionRingBuffer` and
--   `TransactionConsumer` method by method, `Shared` any number of clones of one buffer and calls
--   through them. `Interface` is crossbeam's `ArrayQueue`, which is not in the repository.
-- Filters: crates/mev-mempool/src/filters.rs. `Conditions` has the rules and `evaluate_rule`,
--   `Limiter` the rate limiter, `Engine` `FilterEngine` and its statistics, `Templates` the rules
--   that come with it.
-- Backpressure: crates/mev-mempool/src/backpressure.rs. `Defs` has `BackpressureBuffer`;
--   `Interface` is tokio's bounded channel and the floating-point operations.
-- StateManager: crates/mev-core/src/state_manager.rs. `Data` has the types, `Defs` the operations
--   of `StateManager`. chrono's subtraction of a duration, which may panic, is an argument.
-- FailureHandler: crates/mev-core/src/bundle/failure_handler.rs. `Data` has the types, `Defs` the
--   operations of `FailureHandler`, `Checklist` the `SecurityChecklist`.
-- Tracker: crates/mev-core/src/bundle/execution_tracker.rs with bundle/types.rs. `Defs` has the
--   operations of `ExecutionTracker`, `Ordering` its test of the order within a block, `Gas` the sums
--   of a bundle; the node that it queries is a function argument. A check says whether the metrics of
--   an included bundle have panicked.
-- WebSocket: crates/mev-hyperliquid/src/websocket.rs and `ReconnectConfig` of types.rs.
--   `Reconnection` has `ReconnectionState`, `Failures` the loop of `start`, `Queue` the message
--   queue and its delivery, `Subscription` `SubscriptionState` and what a connection does with it.
--   `Handler` is `handle_message`, which puts the parser in front of them.
-- Parser: crates/mev-hyperliquid/src/parser.rs with the messages of types.rs. `Defs` and `Message`
--   have `TradeMessageParser`; `Json` is serde_json and `f64`, which are not in the repository;
--   `RoundTrip` writes messages as the exchange does.
-- Rpc: crates/mev-hyperliquid/src/rpc_service.rs. `Breaker` has `CircuitBreaker`, `Retry`
--   `execute_with_retry`, `Poll` the polling of the chain and its events, `Confirm`
--   `wait_for_confirmation`; the node and the clock are arguments. A query that never returns, where
--   the code sets no timeout, is one of its answers.
-- Detector: crates/mev-hyperliquid/src/opportunity_detector.rs with the market data and opportunities
--   of types.rs. `Defs` and `Loop` have `OpportunityDetector`; `Floats` is `f64`. It verifies by the
--   polls of Rpc.
-- Adapter: crates/mev-hyperliquid/src/adapter.rs, `TradeDataAdapter`, which makes swaps of trades.
-- Manager: crates/mev-hyperliquid/src/service_manager.rs. `Feed` passes the messages of WebSocket on to
--   the detector, `Polling` has `run_rpc_polling`, `Stopping` `start` and `stop` with the two tasks, as
--   turns in any order.
-- Submission: crates/mev-core/src/bundle/submission.rs, `BundleSubmitter`. The answers of the JSON-RPC
--   clients are arguments, functions of the raw transaction; of the two paths at once it matters only
--   which records its attempt first. The file is not declared in bundle/mod.rs.
-- Submitter: crates/mev-core/src/bundle/submitter.rs, the other `BundleSubmitter`, and `FastResubmitter`,
--   whose task makes ten rounds at most. The endpoint is a function of the raw transactions.
-- Simulation: crates/mev-core/src/simulation_optimizer.rs with the results of simulation.rs. `Defs` has
--   the pool of accounts, the simulation of a bundle, the safety checks and `process_single_batch`.
-- Ingest: crates/mev-mempool/src/parser.rs and abi_decoder.rs. `Abi` has `AbiDecoder`, `Defs`
--   `TransactionParser`; a `&str` slice at a byte inside a character is a panic.
-- Opportunities: crates/mev-core/src/strategy_types.rs, the opportunities, the mock engine and its two
--   strategies.
-- Strategies: the tests of crates/mev-strategies/src/arbitrage.rs, backrun.rs and sandwich.rs that decide
--   whether a strategy looks at a transaction.
-- DecisionPath: crates/mev-core/src/decision_path.rs. `Defs` has `DecisionPath` with its channels and
--   stages, `Workers` the loop that the workers of all stages share; they take turns in any order.
-- Builder: crates/mev-core/src/bundle/key_manager.rs (`Keys`), signer.rs (`Signer`), builder.rs (`Target`
--   and `Defs`) and the records of types.rs (`Types`). The builder passes the signer's state along; where
--   a call fails, what was signed before stays tracked. A sum of `U256` that overflows is a panic.
-- Prelude: what the modules share, with Rust's words (`Machine`), strings (`Text`), hash maps
--   (`Dict`), signed numbers (`Int`), `f64` as an interface (`Floats`) and `Result` (`Results`).
--
-- Conventions. State is passed explicitly; an operation that takes a lock for its whole length is a
-- function from state to state. Numbers are natural numbers; words are those of a release build,
-- which wrap round (`% 2 ^ w`). `Err` and panics are `none` or a constructor of their own. Clock
-- readings, fresh identifiers and random choices are arguments. The loops are structural recursions
-- over lists or counts. Only `wait_for_confirmation`, which loops on the clock, has fuel, the number
-- of its rounds, and `timeout + 2` rounds are enough where every query returns. A poll of `start_polling`, which never returns,
-- is one element of a list of clock readings.
--
-- Not modelled: sockets, HTTP, the reading of JSON, files, the database, metrics and log lines,
-- which are calls of other libraries; floating-point timings, which nothing reads; the pinning of
-- threads; the queue of simulation batches, the profit estimates of the strategies, the simulation on a
-- fork, the ciphers and the signatures, the configuration and the start-up.
pub mod Prelude
pub mod Types
pub mod RingBuffer
pub mod Filters
pub mod Ingest
pub mod Opportunities
pub mod DecisionPath
pub mod Strategies
pub mod Builder
pub mod StateManager
pub mod FailureHandler
pub mod WebSocket
pub mod Adapter
pub mod Backpressure
pub mod Tracker
pub mod Rpc
pub mod Parser
pub mod Detector
pub mod Manager
pub mod Submission
pub mod Submitter
pub mod Simulation
