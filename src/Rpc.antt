-- ===== src/Rpc.antt =====
-- crates/mev-hyperliquid/src/rpc_service.rs, the client of the blockchain's node: `Breaker` has the
-- circuit breaker, `Retry` the operations under it, `Poll` the polling of the chain, `Confirm` the
-- wait for a transaction.
pub mod Breaker
pub mod Retry
pub mod Poll
pub mod History
pub mod Attempts
pub mod Polling
pub mod Events
pub mod Confirm
pub mod Waiting
mod Tests
