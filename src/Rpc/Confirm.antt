-- ===== src/Rpc/Confirm.antt =====
-- `wait_for_confirmation`. The clock and the node are functions of the number of the round: the
-- time since the start when the round begins, in nanoseconds, and the answer to its query. A round
-- that finds the time up ends the loop, so that `n` rounds are followed with fuel.
use botmev.Prelude.{
  ℕ, zero, suc, ◌*◌, Bool, true, false, Option, none, some, List, [], ◌∷◌, leb, ◌==◌, if◌then◌else◌,
}

pub record Receipt : Type 0 where
  pub block_number : Option ℕ
  pub gas_used : Option ℕ
  pub status : Option ℕ

-- `Ok(Some(receipt))`, `Ok(None)`, `Err(e)`, or a query that never returns, which nothing bounds.
pub data ReceiptReply : Type 0 where
  mined : Receipt → ReceiptReply
  not_mined query_failed never_returns : ReceiptReply

-- The events; the texts of the failures are those of the source.
pub data ConfirmationEvent : Type 0 where
  transaction_confirmed : ℕ → ℕ → Bool → ConfirmationEvent
  failed_by_timeout failed_by_revert : ConfirmationEvent

-- What is returned: `Err` for a time-out, a revert with the gas it used, or a receipt that has no
-- block number or no gas. Or nothing ever is, since the call waits for a query.
pub data Confirmation : Type 0 where
  confirmed : Receipt → Confirmation
  timed_out hangs : Confirmation
  reverted : ℕ → Confirmation
  incomplete : Receipt → Confirmation

abbrev pub status_ok : Option ℕ → Bool
status_ok none = false
status_ok (some s) = s == 1

abbrev pub settle : Receipt → Option ℕ → Option ℕ → Confirmation × List ConfirmationEvent
settle r none gas = (incomplete r, [])
settle r (some number) none = (incomplete r, [])
settle r (some number) (some gas) =
    if status_ok r.status
    then (confirmed r, transaction_confirmed number gas true ∷ [])
    else (reverted gas, failed_by_revert ∷ [])

abbrev pub nanos : ℕ → ℕ
nanos s = s * 1_000_000_000

-- `later` is what the next rounds come to.
abbrev pub after_reply :
    ReceiptReply
    → Option (Confirmation × List ConfirmationEvent)
    → Option (Confirmation × List ConfirmationEvent)
after_reply (mined r) later = some (settle r r.block_number r.gas_used)
after_reply not_mined later = later
after_reply query_failed later = later
after_reply never_returns later = some (hangs, [])

-- The rounds from `i` on. The events are those that are sent where somebody listens.
unfoldable pub wait_rounds :
    (ℕ → ℕ) → (ℕ → ReceiptReply) → ℕ → ℕ → ℕ → Option (Confirmation × List ConfirmationEvent)
wait_rounds elapsed reply timeout_secs zero i = none
wait_rounds elapsed reply timeout_secs (suc n) i =
    let later = wait_rounds elapsed reply timeout_secs n (suc i) in
    if leb (nanos timeout_secs) (elapsed i)
    then some (timed_out, failed_by_timeout ∷ [])
    else after_reply (reply i) later

abbrev pub timeout_or_default : Option ℕ → ℕ
timeout_or_default none = 60
timeout_or_default (some n) = n

unfoldable pub wait_for_confirmation :
    (ℕ → ℕ) → (ℕ → ReceiptReply) → Option ℕ → ℕ → Option (Confirmation × List ConfirmationEvent)
wait_for_confirmation elapsed reply timeout n =
    wait_rounds elapsed reply (timeout_or_default timeout) n 0
