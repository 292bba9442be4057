-- ===== src/Submitter/Defs.antt =====
-- `BundleSubmitter` and `FastResubmitter`. The JSON-RPC endpoint is a function: `send i raw` is its
-- answer to the raw transaction at place `i` of a submission. Clock readings are in nanoseconds.
use botmev.Prelude.{
  ℕ, zero, suc, ◌+◌, ◌-◌, ◌^◌, Bool, Option, none, some, List, [], ◌∷◌, map, String, length, ltb,
  leb, ◌==◌, add32, if◌then◌else◌,
}
use botmev.Prelude.Dict.{Dict, lookup, insert, modify, retain}
use botmev.Prelude.Results.{Result, ok, err, ◌>>=◌}
use botmev.Tracker.Defs.{Bundle, SignedTransaction, all_transactions}

abbrev pub Endpoint : Type 0
Endpoint = ℕ → List ℕ → Result String String

pub record SubmissionTracker : Type 0 where
  pub submission_attempts : ℕ
  pub last_submission_time : ℕ
  pub current_gas_price : ℕ
  pub original_bundle : Bundle
  pub submission_hashes : List String

pub record BundleSubmitter : Type 0 where
  pub max_resubmissions : ℕ
  pub active_submissions : Dict SubmissionTracker

unfoldable pub new : ℕ → BundleSubmitter
new max_resubmissions = record { max_resubmissions = max_resubmissions; active_submissions = [] }

-- `SubmissionResult` without its time; the hashes are joined by commas in `submission_hash`.
pub record Submission : Type 0 where
  pub bundle_id : String
  pub hashes : List String
  pub gas_price : ℕ
  pub estimated_inclusion_block : ℕ

pub data SubmitterError : Type 0 where
  rpc_error : String → SubmitterError
  not_configured submission_not_found maximum_reached panics : SubmitterError

abbrev pub tracker_of : Bundle → ℕ → List String → SubmissionTracker
tracker_of b now hashes = record {
  submission_attempts = 1;
  last_submission_time = now;
  current_gas_price = b.max_gas_price;
  original_bundle = b;
  submission_hashes = hashes;
}

abbrev pub submission_of : Bundle → List String → Submission
submission_of b hashes = record {
  bundle_id = b.id;
  hashes = hashes;
  gas_price = b.max_gas_price;
  estimated_inclusion_block = b.target_block;
}

-- The first error ends the loop, and the hashes before it are forgotten.
unfoldable pub send_all : Endpoint → ℕ → List SignedTransaction → Result String (List String)
send_all send i [] = ok []
send_all send i (tx ∷ txs) = do
  hash ← send i tx.raw_transaction
  hashes ← send_all send (suc i) txs
  ok (hash ∷ hashes)

abbrev pub track :
    Bundle
    → String
    → ℕ
    → Result String (List String)
    → BundleSubmitter
    → Result SubmitterError Submission × BundleSubmitter
track b id now (ok hashes) s = (
  ok (submission_of b hashes),
  record s { active_submissions = insert id (tracker_of b now hashes) s.active_submissions },
)
track b id now (err e) s = (err (rpc_error e), s)

unfoldable pub submit_direct :
    Endpoint
    → Bundle
    → String
    → ℕ
    → BundleSubmitter
    → Result SubmitterError Submission × BundleSubmitter
submit_direct send b id now s = track b id now (send_all send 0 (all_transactions b)) s

-- The answer is the hash of the bundle; it is `none` where no endpoint for bundles is configured.
unfoldable pub submit_bundle_rpc :
    Option (Result String String)
    → Bundle
    → String
    → ℕ
    → BundleSubmitter
    → Result SubmitterError Submission × BundleSubmitter
submit_bundle_rpc none b id now s = (err not_configured, s)
submit_bundle_rpc (some (ok hash)) b id now s = track b id now (ok (hash ∷ [])) s
submit_bundle_rpc (some (err e)) b id now s = (err (rpc_error e), s)

-- `select` returns the path that ends first, whatever it ends with, and cancels the other; only the
-- last step of a path changes the map. The identifiers of the two paths are arguments.
unfoldable pub submit_race :
    Bool
    → Endpoint
    → Option (Result String String)
    → Bundle
    → String
    → String
    → ℕ
    → BundleSubmitter
    → Result SubmitterError Submission × BundleSubmitter
submit_race direct_first send answer b direct_id bundle_id now s =
    if direct_first
    then submit_direct send b direct_id now s
    else submit_bundle_rpc answer b bundle_id now s

abbrev pub with_fee : ℕ → SignedTransaction → SignedTransaction
with_fee price tx = record tx { max_fee_per_gas = price }

unfoldable pub bumped : ℕ → Bundle → Bundle
bumped price b = record b {
  max_gas_price = price;
  pre_transactions = map (with_fee price) b.pre_transactions;
  target_transaction = with_fee price b.target_transaction;
  post_transactions = map (with_fee price) b.post_transactions;
}

abbrev pub count_attempt : ℕ → ℕ → SubmissionTracker → SubmissionTracker
count_attempt price now t = record t {
  submission_attempts = add32 t.submission_attempts 1;
  last_submission_time = now;
  current_gas_price = price;
}

abbrev pub resubmit_found :
    (ℕ → ℕ)
    → Endpoint
    → String
    → ℕ
    → ℕ
    → Option SubmissionTracker
    → BundleSubmitter
    → Result SubmitterError Submission × BundleSubmitter
resubmit_found bump send id now later none s = (err submission_not_found, s)
resubmit_found bump send id now later (some t) s =
    if leb s.max_resubmissions t.submission_attempts
    then (err maximum_reached, s)
    else if leb (2 ^ 128) t.current_gas_price
    then (err panics, s)
    else submit_direct send (bumped (bump t.current_gas_price) t.original_bundle) id later
        (record s {
          active_submissions =
              modify id (count_attempt (bump t.current_gas_price) now) s.active_submissions;
        })

-- `bump` is the product with `gas_bump_multiplier` in `f64`. `as_u128` panics from 2^128 on.
unfoldable pub resubmit_with_gas_bump :
    (ℕ → ℕ)
    → Endpoint
    → String
    → ℕ
    → ℕ
    → BundleSubmitter
    → Result SubmitterError Submission × BundleSubmitter
resubmit_with_gas_bump bump send id now later s =
    resubmit_found bump send id now later (lookup id s.active_submissions) s

abbrev pub bumps_of : SubmissionTracker → ℕ
bumps_of t = t.submission_attempts - 1

abbrev pub sum_bumps : Dict SubmissionTracker → ℕ
sum_bumps [] = 0
sum_bumps ((id, t) ∷ m) = bumps_of t + sum_bumps m

-- `get_stats`, of whose numbers two are counted: the submissions and the gas bumps.
unfoldable pub get_stats : BundleSubmitter → ℕ × ℕ
get_stats s = (length s.active_submissions, sum_bumps s.active_submissions)

unfoldable pub cleanup_old_submissions : ℕ → ℕ → BundleSubmitter → BundleSubmitter
cleanup_old_submissions now max_age s = record s {
  active_submissions =
      retain (λ (t : SubmissionTracker). ltb (now - t.last_submission_time) max_age)
        s.active_submissions;
}

-- What a round of `start_resubmission` meets: the clock and the endpoint.
pub record Round : Type 0 where
  pub endpoint : Endpoint
  pub bumped_at : ℕ
  pub tracked_at : ℕ

-- A resubmission goes on with the rounds that are left unless it failed or its price is too high.
abbrev pub unless_done :
    ℕ
    → Result SubmitterError Submission × BundleSubmitter
    → ℕ × BundleSubmitter
    → ℕ × BundleSubmitter
unless_done max_gas (err e, s) later = (0, s)
unless_done max_gas (ok r, s) (n, s') = if ltb max_gas r.gas_price then (1, s) else (suc n, s')

-- The task of `start_resubmission` with `k` rounds left: how many resubmissions succeed, and the state.
-- The map is changed by nobody else meanwhile.
unfoldable pub resubmission_rounds :
    (ℕ → ℕ) → ℕ → String → (ℕ → Round) → ℕ → BundleSubmitter → ℕ × BundleSubmitter
resubmission_rounds bump max_gas id rounds zero s = (0, s)
resubmission_rounds bump max_gas id rounds (suc k) s =
    let r = rounds k in
    let resubmitted = resubmit_with_gas_bump bump r.endpoint id r.bumped_at r.tracked_at s in
    let later = resubmission_rounds bump max_gas id rounds k resubmitted.1 in
    if length s.active_submissions == 0 then (0, s) else unless_done max_gas resubmitted later

-- The task ends after ten rounds.
unfoldable pub start_resubmission :
    (ℕ → ℕ) → ℕ → String → (ℕ → Round) → BundleSubmitter → ℕ × BundleSubmitter
start_resubmission bump max_gas id rounds s = resubmission_rounds bump max_gas id rounds 10 s
