-- ===== src/Submitter/Tests.antt =====
-- Resubmissions of a bundle, and the theorems at concrete inputs.
use botmev.Prelude.{ℕ, ◌+◌, ◌≡◌, refl, none, false, [], ◌∷◌, arith}
use botmev.Prelude.Dict.{lookup, insert, modify}
use botmev.Prelude.Results.{ok, err}
use botmev.Tracker.Defs.{Bundle, all_transactions}
use botmev.Submitter.Defs.{
  Endpoint, BundleSubmitter, SubmissionTracker, new, tracker_of, submit_direct, submit_race,
  submit_bundle_rpc, not_configured, send_all, bumped, resubmit_with_gas_bump, get_stats, Round,
  start_resubmission,
}
use botmev.Submitter.Bumps.{Resent, resubmit_with_gas_bump-Resent, start_resubmission-ten}

abbrev bundle : Bundle
bundle = record {
  id = "b1";
  pre_transactions = [];
  target_transaction = record {
    hash_hex = "0x2";
    gas_limit = 21_000;
    value = 5;
    max_fee_per_gas = 100;
    raw_transaction = 2 ∷ 3 ∷ [];
  };
  post_transactions = [];
  target_block = 10;
  max_gas_price = 100;
}

abbrev takes : Endpoint
takes i raw = ok "0x2"

abbrev refuses : Endpoint
refuses i raw = err "already known"

abbrev bump : ℕ → ℕ
bump n = n + 10

abbrev tracker : SubmissionTracker
tracker = tracker_of bundle 1 ("0x2" ∷ [])

abbrev tracked : BundleSubmitter
tracked = record { max_resubmissions = 3; active_submissions = ("sub_1", tracker) ∷ [] }

-- The bundle is tracked once it is submitted.
submits_once : (submit_direct takes bundle "sub_1" 1 (new 3)).1 ≡ tracked
unfolding submit_direct send_all all_transactions new insert
submits_once = refl

-- The path that ends first decides, also where it fails.
race_lost : (submit_race false takes none bundle "d" "b" 1 (new 3)).0 ≡ err not_configured
unfolding submit_race submit_bundle_rpc
race_lost = refl

-- A refused resubmission is counted as a bump.
counts_refusal : get_stats (resubmit_with_gas_bump bump refuses "sub_1" 2 3 tracked).1 ≡ (1, 1)
unfolding resubmit_with_gas_bump submit_direct send_all all_transactions bumped lookup insert modify
    get_stats
counts_refusal = refl

-- One that is taken is not.
forgets_success : get_stats (resubmit_with_gas_bump bump takes "sub_1" 2 3 tracked).1 ≡ (1, 0)
unfolding resubmit_with_gas_bump submit_direct send_all all_transactions bumped lookup insert modify
    get_stats
forgets_success = refl

resubmit_with_gas_bump-Resent_example :
    Resent "sub_1" 110 tracker
      (send_all takes 0 (all_transactions bundle))
      (resubmit_with_gas_bump bump takes "sub_1" 2 3 tracked)
unfolding lookup
resubmit_with_gas_bump-Resent_example =
    resubmit_with_gas_bump-Resent bump takes "sub_1" 2 3 tracker tracked refl (omega arith)
      (omega arith)

abbrev rounds : ℕ → Round
rounds n = record { endpoint = takes; bumped_at = n; tracked_at = n }

start_resubmission-ten_example : (start_resubmission bump 500 "sub_1" rounds tracked).0 ≡ 10
unfolding lookup
start_resubmission-ten_example =
    start_resubmission-ten bump 500 "sub_1" rounds (λ n i raw. "0x2") tracked tracker
      (λ n i raw. refl) (ground arith) (omega arith) (omega arith) refl (omega arith) (omega arith)
