-- ===== src/StateManager/Tests.antt =====
-- A short chain, a small pool, and the theorems at concrete inputs.
use botmev.Prelude.{
  ℕ, ◌≤◌, ◌≡◌, ◌+◌, ◌-◌, ◌*◌, ◌^◌, refl, Option, none, some, [], ◌∷◌, arith, length, ltb, leb,
  if◌then◌else◌,
}
use botmev.Prelude.Int.{ℤ, pos, negsuc}
use botmev.Prelude.Dict.{lookup, insert, retain}
use botmev.StateManager.Defs.{
  StateManager, StateManagerConfig, BlockHeader, PendingTransactionState, TransactionStatus,
  new_header, default_config, new, initialize, update_block_header, update_pending_transaction,
  store_pending, finish_pending, finish_stored, cleanup_old_transactions, remove_expired, as_i64,
  trim, reorg_event,
}
use botmev.StateManager.Chain.{
  Reported, IsLinked, update_all, update_block_header-Reported, no_reorg-IsLinked,
}
use botmev.StateManager.Pending.{Updated, update_pending_transaction-Updated}

abbrev genesis : BlockHeader
genesis = new_header 0 100 "0xa" "0x9"

abbrev child : BlockHeader
child = new_header 12 101 "0xb" "0xa"

abbrev grandchild : BlockHeader
grandchild = new_header 24 102 "0xc" "0xb"

-- A sibling of `grandchild` on another branch.
abbrev fork : BlockHeader
fork = new_header 25 103 "0xf" "0xe"

-- Two headers at most, and one pending transaction that lives 300 seconds.
abbrev small : StateManagerConfig
small = record default_config { max_pending_transactions = 1; max_block_history = 2 }

abbrev started : StateManager
started = initialize (new 0 small) genesis

history :
    (update_all started ((1, child) ∷ (2, grandchild) ∷ [])).block_headers ≡ child ∷ grandchild ∷ []
unfolding update_all update_block_header initialize new trim
history = refl

fork_is_reported :
    (update_block_header 9 (update_block_header 1 started child).1 fork).0
    ≡ some (reorg_event 9 child fork)
unfolding update_block_header initialize new
fork_is_reported = refl

-- Also a header that arrives a second time is taken for a reorg.
repeat_is_reported :
    (update_block_header 9 started genesis).0 ≡ some (reorg_event 9 genesis genesis)
unfolding update_block_header initialize new
repeat_is_reported = refl

abbrev payment : PendingTransactionState
payment = record {
  hash = "0x1";
  sender = "0xs";
  to = none;
  nonce = 7;
  gas_price = 1;
  gas_limit = 21_000;
  value = "0";
  payload = "0x";
  first_seen = 0;
  last_seen = 0;
  seen_count = 1;
  block_number = none;
  block_hash = none;
  status = TransactionStatus.pending;
}

abbrev pool_of_one : StateManager
pool_of_one = record started { pending_transactions = ("0x1", payment) ∷ [] }

abbrev late : ℕ
late = 300_000_000_001

-- Durations that are in range, and one that is not: 2^53 seconds are more milliseconds than an
-- `i64` holds.
abbrev minus_seconds : ℕ → ℤ → Option ℤ
minus_seconds now (pos n) =
    let ns = n * 1_000_000_000 in
    if ltb n (2 ^ 53)
    then some (if leb ns now then pos (now - ns) else negsuc (ns - now - 1))
    else none
minus_seconds now (negsuc n) =
    if ltb n (2 ^ 53) then some (pos (now + (n + 1) * 1_000_000_000)) else none

-- With the largest time-to-live the cutoff is a second from now; with 2^60 there is none.
as_i64_largest : as_i64 18_446_744_073_709_551_615 ≡ negsuc 0
unfolding as_i64
as_i64_largest = refl

panics_on_large_ttl :
    update_pending_transaction minus_seconds 5
      (record pool_of_one {
        config = record small { transaction_ttl_seconds = 1_152_921_504_606_846_976 };
      })
      "0x2"
      payment
    ≡ none
unfolding update_pending_transaction store_pending finish_stored cleanup_old_transactions as_i64
    remove_expired initialize new lookup insert
panics_on_large_ttl = refl

-- A second transaction that was first seen more than 300 seconds ago.
panics : update_pending_transaction minus_seconds late pool_of_one "0x2" payment ≡ none
unfolding update_pending_transaction store_pending finish_stored finish_pending
    cleanup_old_transactions as_i64 remove_expired initialize new lookup insert retain
panics = refl

update_block_header-Reported_example :
    let (event, s') = update_block_header 9 started fork in
    Reported 9 started fork started.current_head (event, s')
    × (s'.current_head ≡ some fork)
    × (length s'.block_headers ≤ 2)
    × (s'.pending_transactions ≡ started.pending_transactions)
    × (s'.nonce_tracker ≡ started.nonce_tracker)
unfolding initialize new
update_block_header-Reported_example = update_block_header-Reported 9 started fork

no_reorg-IsLinked_example : IsLinked (update_all started ((1, child) ∷ (2, grandchild) ∷ []))
unfolding update_all update_block_header initialize new
no_reorg-IsLinked_example =
    no_reorg-IsLinked 0 small genesis ((1, child) ∷ (2, grandchild) ∷ []) (omega arith) refl

update_pending_transaction-Updated_example :
    Updated minus_seconds late pool_of_one "0x2" payment "0xs"
      (update_pending_transaction minus_seconds late pool_of_one "0x2" payment)
update_pending_transaction-Updated_example =
    update_pending_transaction-Updated minus_seconds late pool_of_one "0x2" payment "0xs"
