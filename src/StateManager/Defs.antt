-- ===== src/StateManager/Defs.antt =====
-- `StateManager`, operation by operation. Each `RwLock` is taken for the length of one statement,
-- so an operation is a function from state to state. Times are nanoseconds: a `DateTime<Utc>`
-- since the epoch, an `Instant` since the start. The persistence functions, which only log,
-- and the log lines are left out.
use botmev.Prelude.{
  ℕ, ◌-◌, ◌*◌, String, Bool, false, not, ◌&&◌, ◌||◌, Option, none, some, List, [], ◌∷◌, ◌++◌, ltb,
  leb, if◌then◌else◌, add32, length, take, keep_if, ◌^◌,
}
use mathlib.Core.List.{reverse}
use botmev.Prelude.Int.{ℤ, pos, negsuc, leb_ℤ}
use botmev.Prelude.Dict.{Dict, str_eq, lookup, insert, modify, retain, values}
pub use botmev.StateManager.Data.{
  BlockHeader, new_header, TransactionStatus, pending, included, dropped, replaced,
  PendingTransactionState, ReorgEvent, StateManagerConfig, default_config, StateManager,
}

unfoldable pub new : ℕ → StateManagerConfig → StateManager
new now config = record {
  config = config;
  block_headers = [];
  current_head = none;
  pending_transactions = [];
  nonce_tracker = [];
  reorg_events = [];
  last_checkpoint = now;
}

unfoldable pub initialize : StateManager → BlockHeader → StateManager
initialize s b = record s { current_head = some b; block_headers = s.block_headers ++ b ∷ [] }

-- In the source this is a stub that returns no transaction.
abbrev pub get_affected_transactions : BlockHeader → BlockHeader → List String
get_affected_transactions old_block new_block = []

abbrev pub drop_status : PendingTransactionState → PendingTransactionState
drop_status t = record t { status = dropped }

unfoldable pub mark_transactions_as_dropped :
    List String → Dict PendingTransactionState → Dict PendingTransactionState
mark_transactions_as_dropped [] m = m
mark_transactions_as_dropped (h ∷ hs) m = mark_transactions_as_dropped hs (modify h drop_status m)

abbrev pub reorg_event : ℕ → BlockHeader → BlockHeader → ReorgEvent
reorg_event now current header = record {
  old_chain = current ∷ [];
  new_chain = header ∷ [];
  common_ancestor = current;
  depth = 1;
  detected_at = now;
  affected_transactions = get_affected_transactions current header;
}

-- A header that is not above the head.
unfoldable pub detect_reorg :
    ℕ → StateManager → BlockHeader → BlockHeader → Option ReorgEvent × StateManager
detect_reorg now s current header =
    let e = reorg_event now current header in
    (some e, record s { reorg_events = s.reorg_events ++ e ∷ [] })

-- A header above the head with another parent.
unfoldable pub handle_reorg :
    ℕ → StateManager → BlockHeader → BlockHeader → Option ReorgEvent × StateManager
unfolding mark_transactions_as_dropped
handle_reorg now s current header =
    let e = reorg_event now current header in
    (
      some e,
      record s {
        pending_transactions =
            mark_transactions_as_dropped (get_affected_transactions current header)
              s.pending_transactions;
        reorg_events = s.reorg_events ++ e ∷ [];
      },
    )

unfoldable pub check_reorg :
    ℕ → StateManager → BlockHeader → Option BlockHeader → Option ReorgEvent × StateManager
unfolding detect_reorg handle_reorg
check_reorg now s header none = (none, s)
check_reorg now s header (some current) =
    if leb header.number current.number
    then detect_reorg now s current header
    else if not (str_eq header.parent_hash current.hash)
    then handle_reorg now s current header
    else (none, s)

-- `while headers.len() > max { headers.pop_front() }`
unfoldable pub trim : ℕ → List BlockHeader → List BlockHeader
trim max_history [] = []
trim max_history (h ∷ l) =
    let rest = trim max_history l in if ltb max_history (length (h ∷ l)) then rest else h ∷ l

-- `update_transaction_states`, called last, is a stub that does nothing.
unfoldable pub update_block_header :
    ℕ → StateManager → BlockHeader → Option ReorgEvent × StateManager
unfolding check_reorg
update_block_header now s header =
    let (event, s') = check_reorg now s header s.current_head in
    (
      event,
      record s' {
        current_head = some header;
        block_headers = trim s.config.max_block_history (s'.block_headers ++ header ∷ []);
      },
    )

-- `n as i64` of a `u64`.
unfoldable pub as_i64 : ℕ → ℤ
as_i64 n = if ltb n (2 ^ 63) then pos n else negsuc (2 ^ 64 - 1 - n)

-- `first_seen < cutoff`.
abbrev pub is_expired : ℤ → PendingTransactionState → Bool
is_expired cutoff t = not (leb_ℤ cutoff (pos t.first_seen))

-- The source collects the keys of the expired entries and removes each; keys being distinct, it
-- keeps the other entries. Without a cutoff it has panicked.
unfoldable pub remove_expired :
    Option ℤ → Dict PendingTransactionState → Option (Dict PendingTransactionState)
remove_expired none m = none
remove_expired (some cutoff) m = some (retain (λ t. not (is_expired cutoff t)) m)

abbrev pub seen_again : ℕ → PendingTransactionState → PendingTransactionState
seen_again now t = record t { last_seen = now; seen_count = add32 t.seen_count 1 }

abbrev pub nonce_of : Option ℕ → ℕ
nonce_of none = 0
nonce_of (some n) = n

unfoldable pub track_nonce : PendingTransactionState → Dict ℕ → Dict ℕ
track_nonce t m =
    if ltb (nonce_of (lookup t.sender m)) t.nonce then insert t.sender t.nonce m else m

-- `None` at `pending.get(&tx_hash).unwrap()` is a panic.
unfoldable pub finish_pending :
    StateManager
    → Dict PendingTransactionState
    → Option PendingTransactionState
    → Option StateManager
finish_pending s m none = none
finish_pending s m (some t) =
    some (record s { pending_transactions = m; nonce_tracker = track_nonce t s.nonce_tracker })

-- `none` is a panic.
unfoldable pub finish_stored :
    StateManager → String → Option (Dict PendingTransactionState) → Option StateManager
unfolding finish_pending
finish_stored s h none = none
finish_stored s h (some m) = finish_pending s m (lookup h m)

abbrev swept : StateManager → Option (Dict PendingTransactionState) → Option StateManager
swept s none = none
swept s (some m) = some (record s { pending_transactions = m })

-- `minus_seconds now s` is chrono's `now - Duration::seconds(s)`; `none` is its panic, when the
-- duration or the time is out of range.
module _ (minus_seconds : ℕ → ℤ → Option ℤ) where
  unfoldable pub cleanup_old_transactions :
      ℕ → StateManagerConfig → Dict PendingTransactionState → Option (Dict PendingTransactionState)
  unfolding remove_expired as_i64
  cleanup_old_transactions now c m =
      remove_expired (minus_seconds now (as_i64 c.transaction_ttl_seconds)) m

  -- The first half of `update_pending_transaction`.
  unfoldable pub store_pending :
      ℕ
      → StateManagerConfig
      → String
      → PendingTransactionState
      → Option PendingTransactionState
      → Dict PendingTransactionState
      → Option (Dict PendingTransactionState)
  unfolding cleanup_old_transactions
  store_pending now c h t (some existing) m = some (modify h (seen_again now) m)
  store_pending now c h t none m =
      let m' = insert h t m in
      if ltb c.max_pending_transactions (length m')
      then cleanup_old_transactions now c m'
      else some m'

  unfoldable pub update_pending_transaction :
      ℕ → StateManager → String → PendingTransactionState → Option StateManager
  unfolding store_pending finish_stored
  update_pending_transaction now s h t =
      finish_stored s h
        (store_pending now s.config h t (lookup h s.pending_transactions) s.pending_transactions)

  unfoldable pub cleanup_expired_transactions : ℕ → StateManager → Option StateManager
  unfolding cleanup_old_transactions
  cleanup_expired_transactions now s =
      swept s (cleanup_old_transactions now s.config s.pending_transactions)

abbrev pub sent_to : String → Option String → Bool
sent_to a none = false
sent_to a (some b) = str_eq b a

unfoldable pub get_pending_transactions : StateManager → String → List PendingTransactionState
get_pending_transactions s a =
    keep_if (λ t. str_eq t.sender a || sent_to a t.to) (values s.pending_transactions)

unfoldable pub get_current_nonce : StateManager → String → ℕ
get_current_nonce s a = nonce_of (lookup a s.nonce_tracker)

-- The latest first.
unfoldable pub get_reorg_events : StateManager → ℕ → List ReorgEvent
get_reorg_events s limit = take limit (reverse s.reorg_events)

-- `elapsed() > interval` at the instant `now`; the new checkpoint has the instant `later`.
unfoldable pub checkpoint_if_needed : ℕ → ℕ → StateManager → StateManager
checkpoint_if_needed now later s =
    if ltb (s.config.checkpoint_interval_seconds * 1_000_000_000) (now - s.last_checkpoint)
      && s.config.enable_persistence
    then record s { last_checkpoint = later }
    else s
