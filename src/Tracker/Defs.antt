-- ===== src/Tracker/Defs.antt =====
-- `ExecutionTracker`, method by method. Blocks and receipts come from a node over HTTP, which is
-- not in the repository: what the queries return is an argument, `none` for every error. Times are
-- nanoseconds; `log` lines, the receipts (which are only logged) and the client are left out; the panic
-- of the metrics is not.
use botmev.Prelude.{
  ℕ, zero, suc, ◌+◌, ◌-◌, ◌^◌, String, List, [], ◌∷◌, ◌++◌, map, Bool, true, false, ◌||◌, Option,
  none, some, max, length, ltb, leb, ◌==◌, if◌then◌else◌, add32,
}
use botmev.Prelude.Dict.{Dict, lookup, insert, modify, retain, values, str_eq}

-- The fields that the methods below read; the hash as the text of `hash_hex`.
pub record SignedTransaction : Type 0 where
  pub hash_hex : String
  pub gas_limit : ℕ
  pub value : ℕ
  pub max_fee_per_gas : ℕ
  pub raw_transaction : List ℕ

pub record Bundle : Type 0 where
  pub id : String
  pub pre_transactions : List SignedTransaction
  pub target_transaction : SignedTransaction
  pub post_transactions : List SignedTransaction
  pub target_block : ℕ
  pub max_gas_price : ℕ

unfoldable pub all_transactions : Bundle → List SignedTransaction
all_transactions b = b.pre_transactions ++ b.target_transaction ∷ b.post_transactions

-- `ethers::types::U256` panics when a sum does not fit: `none`.
unfoldable pub add_u256 : Option ℕ → ℕ → Option ℕ
add_u256 none n = none
add_u256 (some m) n = if ltb (m + n) (2 ^ 256) then some (m + n) else none

unfoldable pub sum_u256 : (SignedTransaction → ℕ) → Option ℕ → List SignedTransaction → Option ℕ
sum_u256 f acc [] = acc
sum_u256 f acc (tx ∷ txs) = sum_u256 f (add_u256 acc (f tx)) txs

unfoldable pub total_gas_limit : Bundle → Option ℕ
total_gas_limit b = sum_u256 (λ tx. tx.gas_limit) (some 0) (all_transactions b)

unfoldable pub total_value : Bundle → Option ℕ
total_value b = sum_u256 (λ tx. tx.value) (some 0) (all_transactions b)

pub data ExecutionStatus : Type 0 where
  pending : ExecutionStatus
  included : ℕ → List String → ExecutionStatus
  failed : String → ExecutionStatus
  expired : ExecutionStatus

pub record TrackedBundle : Type 0 where
  pub bundle : Bundle
  pub tracking_start : ℕ
  pub status : ExecutionStatus
  pub inclusion_attempts : ℕ
  pub last_check_block : ℕ

-- A block as `get_block_by_number` returns it: the hashes of its transactions, in order.
abbrev pub BlockInfo : Type 0
BlockInfo = List String

abbrev pub Node : Type 0
Node = ℕ → Option BlockInfo

pub record ExecutionTracker : Type 0 where
  pub max_tracking_duration : ℕ
  pub tracked_bundles : Dict TrackedBundle
  pub latest_block : ℕ

unfoldable pub new : ℕ → ExecutionTracker
new max_tracking_duration = record {
  max_tracking_duration = max_tracking_duration;
  tracked_bundles = [];
  latest_block = 0;
}

abbrev pub tracked_from : ℕ → Bundle → TrackedBundle
tracked_from now bundle = record {
  bundle = bundle;
  tracking_start = now;
  status = pending;
  inclusion_attempts = 0;
  last_check_block = 0;
}

unfoldable pub track_bundle : ℕ → Bundle → ExecutionTracker → ExecutionTracker
track_bundle now bundle t = record t {
  tracked_bundles = insert bundle.id (tracked_from now bundle) t.tracked_bundles;
}

unfoldable pub get_execution_status : String → ExecutionTracker → Option ExecutionStatus
get_execution_status id t = elim (lookup id t.tracked_bundles) [
  | none ↦ none
  | some tracked ↦ some tracked.status
]

-- `block.transactions.iter().any(|tx| tx.hash == *tx_hash)`.
unfoldable pub has : BlockInfo → String → Bool
has [] h = false
has (g ∷ block) h = str_eq g h || has block h

unfoldable pub found_in : BlockInfo → List String → List String
found_in block [] = []
found_in block (h ∷ hs) = if has block h then h ∷ found_in block hs else found_in block hs

unfoldable pub find_in : ℕ → List String → Option BlockInfo → Option (Option (ℕ × List String))
find_in number hashes none = none
find_in number hashes (some block) =
    let found = found_in block hashes in
    if length found == length hashes then some (some (number, found)) else some none

-- The ordering is verified for the log only, and a verification does not fail.
unfoldable pub check_block_for_bundle : Node → ℕ → TrackedBundle → Option (Option (ℕ × List String))
check_block_for_bundle node number tracked =
    find_in number (map (λ tx. tx.hash_hex) (all_transactions tracked.bundle)) (node number)

-- `if let Ok(result) = ... { if result.is_some() { ... return } }`, and the later blocks.
unfoldable pub or_later :
    Option (Option (ℕ × List String)) → Option (ℕ × List String) → Option (ℕ × List String)
or_later none rest = rest
or_later (some none) rest = rest
or_later (some (some r)) rest = some r

-- The loop over `k` blocks from `first`: an error of a query is passed over.
unfoldable pub check_blocks : Node → ℕ → ℕ → TrackedBundle → Option (ℕ × List String)
check_blocks node first zero tracked = none
check_blocks node first (suc k) tracked =
    or_later (check_block_for_bundle node first tracked) (check_blocks node (first + 1) k tracked)

abbrev pub start_block : TrackedBundle → ℕ
start_block tracked = max tracked.last_check_block tracked.bundle.target_block

-- What the loop over the blocks leaves.
abbrev pub after_search : ℕ → TrackedBundle → Option (ℕ × List String) → TrackedBundle
after_search latest tracked none = record tracked {
  last_check_block = latest;
  inclusion_attempts = add32 tracked.inclusion_attempts 1;
}
after_search latest tracked (some (number, hashes)) = record tracked {
  status = included number hashes;
}

-- The number of blocks in `start_block..=latest`.
unfoldable pub check_pending : Node → ℕ → TrackedBundle → TrackedBundle
check_pending node latest tracked =
    after_search latest tracked
      (check_blocks node (start_block tracked) (latest + 1 - start_block tracked) tracked)

abbrev pub check_by_status : ExecutionStatus → Node → ℕ → ℕ → ℕ → TrackedBundle → TrackedBundle
check_by_status pending node limit latest now tracked =
    if ltb limit (now - tracked.tracking_start)
    then record tracked { status = expired }
    else check_pending node latest tracked
check_by_status (included _ _) node limit latest now tracked = tracked
check_by_status (failed _) node limit latest now tracked = tracked
check_by_status expired node limit latest now tracked = tracked

-- `now` is the reading of `elapsed()`; the checks of one round share it.
unfoldable pub check_tracked : Node → ℕ → ℕ → ℕ → TrackedBundle → TrackedBundle
check_tracked node limit latest now tracked =
    check_by_status tracked.status node limit latest now tracked

-- `as_u64` panics in `generate_inclusion_metrics`, which follows at once where the check has found the
-- bundle; the new status stays.
abbrev pub metrics_panic : Option TrackedBundle → Option TrackedBundle → Bool
metrics_panic (some before) (some after) = elim before.status [
  | pending ↦ elim after.status [
    | pending ↦ false
    | included _ _ ↦ leb (2 ^ 64) after.bundle.max_gas_price
    | failed _ ↦ false
    | expired ↦ false
  ]
  | included _ _ ↦ false
  | failed _ ↦ false
  | expired ↦ false
]
metrics_panic _ _ = false

-- The tracker after the call, and whether the call panics.
unfoldable pub check_bundle_inclusion :
    Node → ℕ → String → ExecutionTracker → ExecutionTracker × Bool
check_bundle_inclusion node now id t =
    let after =
      modify id (check_tracked node t.max_tracking_duration t.latest_block now) t.tracked_bundles in
    (
      record t { tracked_bundles = after },
      metrics_panic (lookup id t.tracked_bundles) (lookup id after),
    )

-- A panic ends the loop, and with it the task of `start_monitoring`.
unfoldable pub check_ids : Node → ℕ → List String → ExecutionTracker → ExecutionTracker × Bool
check_ids node now [] t = (t, false)
check_ids node now (id ∷ ids) t =
    let (t', panics) = check_bundle_inclusion node now id t in
    let rest = check_ids node now ids t' in if panics then (t', true) else rest

unfoldable pub check_all_bundles : Node → ℕ → ExecutionTracker → ExecutionTracker × Bool
check_all_bundles node now t = check_ids node now (map (λ e. e.0) t.tracked_bundles) t

unfoldable pub keeps : ℕ → ℕ → TrackedBundle → Bool
keeps limit now tracked = elim tracked.status [
  | pending ↦ ltb (now - tracked.tracking_start) limit
  | included _ _ ↦ false
  | failed _ ↦ false
  | expired ↦ false
]

unfoldable pub cleanup_expired_bundles : ℕ → ExecutionTracker → ExecutionTracker
cleanup_expired_bundles now t = record t {
  tracked_bundles = retain (keeps t.max_tracking_duration now) t.tracked_bundles;
}

unfoldable pub update_latest : Option ℕ → ExecutionTracker → ExecutionTracker
update_latest none t = t
update_latest (some n) t = record t { latest_block = n }

-- One turn of the loop of `start_monitoring`; `latest` is what the node says, if it answers. A turn that
-- panics is the last one.
unfoldable pub monitor : Node → Option ℕ → ℕ → ℕ → ExecutionTracker → ExecutionTracker × Bool
monitor node latest now later t =
    let (t', panics) = check_all_bundles node now (update_latest latest t) in
    (if panics then t' else cleanup_expired_bundles later t', panics)

pub record TrackingStats : Type 0 where
  pub total_tracked : ℕ
  pub pendings : ℕ
  pub includeds : ℕ
  pub faileds : ℕ
  pub expireds : ℕ

unfoldable pub count_status : TrackingStats → ExecutionStatus → TrackingStats
count_status s pending = record s { pendings = s.pendings + 1 }
count_status s (included _ _) = record s { includeds = s.includeds + 1 }
count_status s (failed _) = record s { faileds = s.faileds + 1 }
count_status s expired = record s { expireds = s.expireds + 1 }

unfoldable pub count_all : TrackingStats → List TrackedBundle → TrackingStats
count_all s [] = s
count_all s (tracked ∷ l) = count_all (count_status s tracked.status) l

unfoldable pub get_tracking_stats : ExecutionTracker → TrackingStats
get_tracking_stats t =
    count_all
      (record {
        total_tracked = length t.tracked_bundles;
        pendings = 0;
        includeds = 0;
        faileds = 0;
        expireds = 0;
      })
      (values t.tracked_bundles)
