-- ===== src/Tracker/Tests.antt =====
-- A bundle of two transactions, a chain of three blocks, and the theorems at concrete inputs.
use botmev.Prelude.{◌≡◌, refl, List, true, false, [], ◌∷◌, none, some, String, ◌==◌, if◌then◌else◌}
use botmev.Prelude.Dict.{insert, lookup, modify, retain}
use botmev.Tracker.Defs
use botmev.Tracker.Defs.{
  SignedTransaction, Bundle, TrackedBundle, ExecutionTracker, ExecutionStatus, Node, pending,
  included, tracked_from, track_bundle, monitor, get_execution_status, check_pending, check_blocks,
  start_block, get_tracking_stats, total_gas_limit,
}
use botmev.Tracker.Inclusion.{hashes, Round}
use botmev.Tracker.Ordering.{position, actual_positions, ascending, is_correct_order}

abbrev signed : String → SignedTransaction
signed h = record {
  hash_hex = h;
  gas_limit = 21_000;
  value = 5;
  max_fee_per_gas = 50;
  raw_transaction = [];
}

abbrev bundle : Bundle
bundle = record {
  id = "bundle";
  pre_transactions = signed "0xa" ∷ [];
  target_transaction = signed "0xb";
  post_transactions = [];
  target_block = 10;
  max_gas_price = 100;
}

abbrev tracked : TrackedBundle
tracked = tracked_from 0 bundle

-- Block 11 has the bundle.
abbrev chain : Node
chain n = if n == 11 then some ("0xc" ∷ "0xb" ∷ "0xa" ∷ []) else some ("0xd" ∷ [])

-- The same chain, of which block 11 cannot be fetched.
abbrev unreachable : Node
unreachable n = if n == 11 then none else some ("0xd" ∷ [])

-- Included in block 11, and unknown once the round is over.
found_and_forgotten :
    let t = track_bundle 0 bundle (Defs.new 300) in
    ((check_pending chain 12 tracked).status ≡ included 11 (hashes tracked))
    × (get_execution_status "bundle" (monitor chain (some 12) 1 2 t).0 ≡ none)
unfolding check_pending check_blocks Defs.check_block_for_bundle Defs.find_in Defs.found_in Defs.has
    Defs.or_later Defs.all_transactions get_execution_status monitor track_bundle Defs.new lookup
    insert modify retain Defs.update_latest Defs.check_all_bundles Defs.check_ids
    Defs.check_bundle_inclusion Defs.check_tracked Defs.cleanup_expired_bundles Defs.keeps
found_and_forgotten = (refl, refl)

gas_of_two : total_gas_limit bundle ≡ some 42_000
unfolding total_gas_limit Defs.sum_u256 Defs.add_u256 Defs.all_transactions
gas_of_two = refl

-- Two later checks; the chain goes on in between.
abbrev later : List Round
later =
    record { now = 1; latest = 12; early = chain; late = unreachable }
    ∷ record { now = 2; latest = 13; early = chain; late = unreachable }
    ∷ []

-- The block with the two transactions in the order of the bundle, and in the other.
in_order :
    (is_correct_order ("0xa" ∷ "0xc" ∷ "0xb" ∷ []) ("0xa" ∷ "0xb" ∷ []) ≡ true)
    × (is_correct_order ("0xb" ∷ "0xc" ∷ "0xa" ∷ []) ("0xa" ∷ "0xb" ∷ []) ≡ false)
unfolding is_correct_order actual_positions position ascending
in_order = (refl, refl)
