-- ===== src/Rpc/Poll.antt =====
-- `poll_blockchain_state` and the loop of `start_polling`. The node is not in the repository: its
-- two queries are functions on a state of the world, and each is answered, fails, or does not come
-- back before the timeout. An event that is sent to a receiver that is gone is lost, with a warning.
use botmev.Prelude.{ℕ, Bool, Option, none, some, List, [], ◌∷◌, ◌++◌, if◌then◌else◌}
use botmev.Prelude.{String}
use botmev.Prelude.Dict.{Dict}
use botmev.Rpc.Breaker.{CircuitBreaker, CircuitBreakerState, opened, get_state}
use botmev.Rpc.Retry.{Attempt, succeeds, fails, times_out, Outcome, execute_with_retry}

-- `Result` of a query within the timeout.
pub data Reply (A E : Type 0) : Type 0 where
  answered : A → Reply A E
  refused : E → Reply A E
  silent : Reply A E

-- The node as seen from the world `W`. A block that does not exist is `none`; of one that exists
-- the timestamp is read. `not_found` is the error "Block not found".
pub record Node (W E : Type 0) : Type 0 where
  pub get_block_number : W → Reply ℕ E × W
  pub get_block : ℕ → W → Reply (Option ℕ) E × W
  pub not_found : E

-- Addresses are texts; `Bytes` is a list of bytes.
pub record BlockchainState : Type 0 where
  pub block_number : ℕ
  pub timestamp : ℕ
  pub token_prices : Dict ℕ
  pub contract_states : Dict (List ℕ)

abbrev pub new_state : ℕ → ℕ → BlockchainState
new_state block_number timestamp = record {
  block_number = block_number;
  timestamp = timestamp;
  token_prices = [];
  contract_states = [];
}

pub data StateUpdateEvent : Type 0 where
  block_number_update : ℕ → StateUpdateEvent
  token_price balance_update : String → ℕ → StateUpdateEvent
  contract_state : String → List ℕ → StateUpdateEvent
  state_snapshot : BlockchainState → StateUpdateEvent
  transaction_confirmed : String → ℕ → ℕ → Bool → StateUpdateEvent
  transaction_failed : String → String → StateUpdateEvent

-- What the polling changes: the world, and the events that the receiver has got.
pub record World (W : Type 0) : Type 0 where
  pub world : W
  pub events : List StateUpdateEvent

-- `state_tx`: whether there is a channel whose receiver is alive.
abbrev pub emit : {W : Type 0} → Bool → BlockchainState → World W → World W
emit listening s w =
    if listening
    then record w {
      events = w.events ++ block_number_update s.block_number ∷ state_snapshot s ∷ [];
    }
    else w

abbrev pub finish_poll :
    {W E : Type 0}
    → Bool
    → Node W E
    → ℕ
    → World W
    → Reply (Option ℕ) E × W
    → Attempt BlockchainState E × World W
finish_poll listening node number w (answered (some timestamp), x) =
    let s = new_state number timestamp in (succeeds s, emit listening s (record w { world = x }))
finish_poll listening node number w (answered none, x) =
    (fails node.not_found, record w { world = x })
finish_poll listening node number w (refused e, x) = (fails e, record w { world = x })
finish_poll listening node number w (silent, x) = (times_out, record w { world = x })

abbrev pub after_number :
    {W E : Type 0} → Bool → Node W E → World W → Reply ℕ E × W → Attempt BlockchainState E × World W
after_number listening node w (answered number, x) =
    finish_poll listening node number w (node.get_block number x)
after_number listening node w (refused e, x) = (fails e, record w { world = x })
after_number listening node w (silent, x) = (times_out, record w { world = x })

-- One attempt: the closure that `poll_blockchain_state` hands to `execute_with_retry`.
unfoldable pub poll_once :
    {W E : Type 0} → Bool → Node W E → World W → Attempt BlockchainState E × World W
poll_once listening node w = after_number listening node w (node.get_block_number w.world)

-- The service without its constant fields.
pub record Service (W : Type 0) : Type 0 where
  pub circuit_breaker : CircuitBreaker
  pub world : World W

-- The clock's readings around one poll.
pub record Times : Type 0 where
  pub asked : ℕ
  pub failed : ℕ

unfoldable pub poll_blockchain_state :
    {W E : Type 0} → Bool → ℕ → Node W E → Times → Service W → Outcome BlockchainState E × Service W
poll_blockchain_state listening timeout_secs node t s =
    let (o, _, b, w) =
      execute_with_retry (poll_once listening node) timeout_secs t.asked t.failed s.circuit_breaker
        s.world in
    (o, record { circuit_breaker = b; world = w })

abbrev pub tick_in :
    {W E : Type 0}
    → Bool
    → ℕ
    → Node W E
    → Times
    → Service W
    → CircuitBreakerState
    → Option (Outcome BlockchainState E) × Service W
tick_in listening timeout_secs node t s opened = (none, s)
tick_in listening timeout_secs node t s _ =
    let (o, s') = poll_blockchain_state listening timeout_secs node t s in (some o, s')

-- One turn of the loop of `start_polling`, which the service enters once it is connected: a poll, or none while the circuit breaker is open.
unfoldable pub polling_tick :
    {W E : Type 0}
    → Bool
    → ℕ
    → Node W E
    → Times
    → Service W
    → Option (Outcome BlockchainState E) × Service W
polling_tick listening timeout_secs node t s =
    tick_in listening timeout_secs node t s (get_state s.circuit_breaker)

-- The service after the turns at these times.
unfoldable pub start_polling :
    {W E : Type 0} → Bool → ℕ → Node W E → List Times → Service W → Service W
start_polling listening timeout_secs node [] s = s
start_polling listening timeout_secs node (t ∷ ts) s =
    start_polling listening timeout_secs node ts (polling_tick listening timeout_secs node t s).1
