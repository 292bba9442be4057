-- ===== src/Submission/Defs.antt =====
-- `BundleSubmitter`. The two clients are JSON-RPC: their answers are arguments, `answers i raw` to the
-- raw transaction `raw` when it is sent as the one at `i`, and `bundle_answer` to the whole bundle, which is `none` where no such client
-- is configured. Identifiers and clock readings are arguments, in nanoseconds.
use botmev.Prelude.{
  ℕ, suc, ◌+◌, ◌*◌, ◌^◌, Bool, Option, none, some, List, [], ◌∷◌, ◌++◌, String, length, ltb, leb,
  if◌then◌else◌,
}
use botmev.Prelude.Dict.{Dict, lookup, insert, modify, retain}
use botmev.Prelude.Results.{Result, ok, err}
use botmev.Tracker.Defs.{Bundle, SignedTransaction, all_transactions, ExecutionStatus, pending}

pub record SubmissionConfig : Type 0 where
  pub max_gas_price : ℕ
  pub max_resubmissions : ℕ

abbrev pub default_config : SubmissionConfig
default_config = record { max_gas_price = 500_000_000_000; max_resubmissions = 5 }

pub data SubmissionPath : Type 0 where
  direct bundle_rpc both : SubmissionPath

pub data SubmissionAttemptResult : Type 0 where
  awaiting timeout : SubmissionAttemptResult
  success : ℕ → ℕ → SubmissionAttemptResult
  failure : String → SubmissionAttemptResult

pub record SubmissionAttempt : Type 0 where
  pub attempt_id : String
  pub path : SubmissionPath
  pub gas_price : ℕ
  pub submitted_at : ℕ
  pub transaction_hashes : List String
  pub result : SubmissionAttemptResult

pub record BundleSubmissionStatus : Type 0 where
  pub bundle_id : String
  pub submission_attempts : List SubmissionAttempt
  pub current_status : ExecutionStatus
  pub created_at : ℕ
  pub last_updated : ℕ

pub record SubmissionResult : Type 0 where
  pub result_bundle : String
  pub submission_hash : String
  pub result_at : ℕ
  pub result_gas_price : ℕ
  pub estimated_inclusion_block : ℕ

pub data SubmissionError : Type 0 where
  client_error : String → SubmissionError
  not_configured : SubmissionError
  both_failed : SubmissionError → SubmissionError → SubmissionError

pub record BundleSubmitter : Type 0 where
  pub config : SubmissionConfig
  pub submissions : Dict BundleSubmissionStatus

unfoldable pub new : SubmissionConfig → BundleSubmitter
new c = record { config = c; submissions = [] }

-- The fresh identifier of an attempt, and the readings of the clock by the attempt, by
-- `record_attempt` and by the result.
pub record Call : Type 0 where
  pub id : String
  pub attempted : ℕ
  pub recorded : ℕ
  pub answered : ℕ

unfoldable pub record_attempt : String → ℕ → SubmissionAttempt → BundleSubmitter → BundleSubmitter
record_attempt id now a s = record s {
  submissions =
      modify id
        (λ (t : BundleSubmissionStatus). record t {
          submission_attempts = t.submission_attempts ++ a ∷ [];
          last_updated = now;
        })
        s.submissions;
}

-- The loop of `submit_direct`: the hashes up to the first error, and that error.
unfoldable pub send_transactions :
    (ℕ → List ℕ → Result String String) → ℕ → List SignedTransaction → List String × Option String
send_transactions answers i [] = ([], none)
send_transactions answers i (tx ∷ txs) = elim (answers i tx.raw_transaction) [
  | ok hash ↦ let (hashes, e) = send_transactions answers (suc i) txs in (hash ∷ hashes, e)
  | err e ↦ ([], some e)
]

abbrev pub result_of : Bundle → String → Call → SubmissionResult
result_of b hash c = record {
  result_bundle = b.id;
  submission_hash = hash;
  result_at = c.answered;
  result_gas_price = b.max_gas_price;
  estimated_inclusion_block = b.target_block;
}

abbrev pub direct_attempt :
    Bundle → Call → List String → SubmissionAttemptResult → SubmissionAttempt
direct_attempt b c hashes r = record {
  attempt_id = c.id;
  path = direct;
  gas_price = b.max_gas_price;
  submitted_at = c.attempted;
  transaction_hashes = hashes;
  result = r;
}

abbrev pub bundle_attempt :
    Bundle → Call → List String → SubmissionAttemptResult → SubmissionAttempt
bundle_attempt b c hashes r = record (direct_attempt b c hashes r) { path = bundle_rpc }

abbrev pub finish_direct :
    Bundle
    → Call
    → List String × Option String
    → BundleSubmitter
    → Result SubmissionError SubmissionResult × BundleSubmitter
finish_direct b c (hashes, none) s =
    (ok (result_of b c.id c), record_attempt b.id c.recorded (direct_attempt b c hashes awaiting) s)
finish_direct b c (hashes, some e) s =
    (err (client_error e), record_attempt b.id c.recorded (direct_attempt b c hashes (failure e)) s)

unfoldable pub submit_direct :
    (ℕ → List ℕ → Result String String)
    → Bundle
    → Call
    → BundleSubmitter
    → Result SubmissionError SubmissionResult × BundleSubmitter
submit_direct answers b c s = finish_direct b c (send_transactions answers 0 (all_transactions b)) s

unfoldable pub submit_bundle_rpc :
    Option (Result String String)
    → Bundle
    → Call
    → BundleSubmitter
    → Result SubmissionError SubmissionResult × BundleSubmitter
submit_bundle_rpc none b c s = (err not_configured, s)
submit_bundle_rpc (some (ok hash)) b c s = (
  ok (result_of b hash c),
  record_attempt b.id c.recorded (bundle_attempt b c (hash ∷ []) awaiting) s,
)
submit_bundle_rpc (some (err e)) b c s =
    (err (client_error e), record_attempt b.id c.recorded (bundle_attempt b c [] (failure e)) s)

-- The result of the direct path is preferred.
abbrev pub first_success :
    Result SubmissionError SubmissionResult
    → Result SubmissionError SubmissionResult
    → Result SubmissionError SubmissionResult
first_success (ok r) other = ok r
first_success (err e) (ok r) = ok r
first_success (err e) (err e') = err (both_failed e e')

-- The two paths run at the same time; all that they share is the map of the submissions, so that it
-- matters only which of the two records its attempt first.
unfoldable pub submit_both_paths :
    Bool
    → (ℕ → List ℕ → Result String String)
    → Option (Result String String)
    → Bundle
    → Call
    → Call
    → BundleSubmitter
    → Result SubmissionError SubmissionResult × BundleSubmitter
submit_both_paths direct_first answers bundle_answer b c d s =
    let (r, s') = submit_direct answers b c s in
    let (q, s'') = submit_bundle_rpc bundle_answer b d s' in
    let (q', t) = submit_bundle_rpc bundle_answer b d s in
    let (r', t') = submit_direct answers b c t in
    if direct_first then (first_success r q, s'') else (first_success r' q', t')

-- What the clients answer to one submission, and who is first.
pub record Answers : Type 0 where
  pub answers : ℕ → List ℕ → Result String String
  pub bundle_answer : Option (Result String String)
  pub direct_first : Bool

abbrev pub fresh_status : Bundle → ℕ → BundleSubmissionStatus
fresh_status b now = record {
  bundle_id = b.id;
  submission_attempts = [];
  current_status = pending;
  created_at = now;
  last_updated = now;
}

abbrev pub submit_on :
    SubmissionPath
    → Answers
    → Bundle
    → Call
    → Call
    → BundleSubmitter
    → Result SubmissionError SubmissionResult × BundleSubmitter
submit_on direct a b c d s = submit_direct a.answers b c s
submit_on bundle_rpc a b c d s = submit_bundle_rpc a.bundle_answer b d s
submit_on both a b c d s = submit_both_paths a.direct_first a.answers a.bundle_answer b c d s

-- `c` and `d` are the calls of the two paths.
unfoldable pub submit_bundle :
    SubmissionPath
    → Answers
    → Bundle
    → ℕ
    → Call
    → Call
    → BundleSubmitter
    → Result SubmissionError SubmissionResult × BundleSubmitter
submit_bundle path a b now c d s =
    submit_on path a b c d
      (record s { submissions = insert b.id (fresh_status b now) s.submissions })

-- What `resubmit_with_gas_bump` comes to, which changes nothing: an error, or the panic of `as_u128`.
pub data Resubmission : Type 0 where
  bundle_not_found maximum_reached not_implemented panics : Resubmission
  gas_price_too_high : ℕ → Resubmission

abbrev pub last_gas_price : List SubmissionAttempt → ℕ
last_gas_price [] = 50_000_000_000
last_gas_price (a ∷ []) = a.gas_price
last_gas_price (a ∷ b ∷ as') = last_gas_price (b ∷ as')

-- `bump` is the product in `f64`, which is not exact.
abbrev pub resubmit_found :
    (ℕ → ℕ) → SubmissionConfig → Option BundleSubmissionStatus → Resubmission
resubmit_found bump c none = bundle_not_found
resubmit_found bump c (some t) =
    if leb c.max_resubmissions (length t.submission_attempts)
    then maximum_reached
    else if leb (2 ^ 128) (last_gas_price t.submission_attempts)
    then panics
    else if ltb c.max_gas_price (bump (last_gas_price t.submission_attempts))
    then gas_price_too_high (bump (last_gas_price t.submission_attempts))
    else not_implemented

unfoldable pub resubmit_with_gas_bump : (ℕ → ℕ) → String → BundleSubmitter → Resubmission
resubmit_with_gas_bump bump id s = resubmit_found bump s.config (lookup id s.submissions)

unfoldable pub get_submission_status : String → BundleSubmitter → Option BundleSubmissionStatus
get_submission_status id s = lookup id s.submissions

-- The hours are not negative.
unfoldable pub cleanup_old_submissions : ℕ → ℕ → BundleSubmitter → BundleSubmitter
cleanup_old_submissions now max_age_hours s = record s {
  submissions =
      retain
        (λ (t : BundleSubmissionStatus). ltb now (t.created_at + max_age_hours * 3_600_000_000_000))
        s.submissions;
}
