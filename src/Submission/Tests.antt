-- ===== src/Submission/Tests.antt =====
-- Submissions of a bundle of two transactions, and the theorems at concrete inputs.
use botmev.Prelude.{
  ℕ, length, ◌≡◌, refl, true, some, Option, List, [], ◌∷◌, String, ◌==◌, if◌then◌else◌,
}
use botmev.Prelude.Dict.{str_eq, lookup, insert, modify, retain}
use botmev.Prelude.Results.{ok, err}
use botmev.Tracker.Defs.{Bundle, SignedTransaction, all_transactions}
use botmev.Submission.Defs.{
  direct, both, client_error, Answers, Call, new, default_config, submit_bundle, submit_direct,
  submit_bundle_rpc, submit_both_paths, cleanup_old_submissions, SubmissionAttempt,
  send_transactions, record_attempt, resubmit_with_gas_bump, not_implemented,
}
use botmev.Submission.Direct.{Sent, Submitted, with_attempt, submit_bundle-Submitted}
use botmev.Submission.Attempts.{Request, submits, cleans, handle_all}

abbrev signed : String → List ℕ → SignedTransaction
signed h raw = record {
  hash_hex = h;
  gas_limit = 21_000;
  value = 5;
  max_fee_per_gas = 50;
  raw_transaction = raw;
}

abbrev bundle : Bundle
bundle = record {
  id = "b1";
  pre_transactions = signed "0x1" (1 ∷ []) ∷ [];
  target_transaction = signed "0x2" (2 ∷ 2 ∷ []);
  post_transactions = [];
  target_block = 10;
  max_gas_price = 100;
}

-- The second transaction is refused.
abbrev one_only : Answers
one_only = record {
  answers = λ i raw. if length raw == 1 then ok "0x1" else err "nonce too low";
  bundle_answer = some (ok "0xb");
  direct_first = true;
}

abbrev call : Call
call = record { id = "direct_1"; attempted = 5; recorded = 6; answered = 7 }

-- The transaction that was sent is not taken back, and the error is returned.
half_sent :
    (submit_bundle direct one_only bundle 1 call call (new default_config)).0
    ≡ err (client_error "nonce too low")
unfolding submit_bundle submit_direct send_transactions all_transactions
half_sent = refl

-- On both paths the other one succeeds.
bundle_saves :
    (submit_bundle both one_only bundle 1 call call (new default_config)).0
    ≡ ok (record {
      result_bundle = "b1";
      submission_hash = "0xb";
      result_at = 7;
      result_gas_price = 100;
      estimated_inclusion_block = 10;
    })
unfolding submit_bundle submit_both_paths submit_direct submit_bundle_rpc send_transactions
    all_transactions
bundle_saves = refl

submit_bundle-Submitted_example :
    let (r, s') = submit_bundle direct one_only bundle 1 call call (new default_config) in
    (hs : List String) × (e : Option String) × Sent one_only.answers 0
      (signed "0x1" (1 ∷ []) ∷ signed "0x2" (2 ∷ 2 ∷ []) ∷ [])
      hs
      e
    × (attempt : SubmissionAttempt) × Submitted bundle 1 call hs e r attempt
    × ((k : String)
        → lookup k s'.submissions ≡ (
            if str_eq "b1" k
            then some (with_attempt bundle 1 6 attempt)
            else lookup k (new default_config).submissions))
submit_bundle-Submitted_example =
    submit_bundle-Submitted one_only bundle 1 call call (new default_config)

abbrev requests : List Request
requests =
    submits both one_only bundle 1 call call
    ∷ cleans 50 1
    ∷ submits direct one_only bundle 60 call call
    ∷ []

-- A price of 100 goes up to 110, and then there is no resubmission.
resubmits :
    resubmit_with_gas_bump (λ n. 110) "b1" (handle_all (new default_config) requests)
    ≡ not_implemented
unfolding resubmit_with_gas_bump submit_bundle submit_both_paths submit_direct submit_bundle_rpc
    send_transactions all_transactions record_attempt lookup insert modify new
    cleanup_old_submissions retain
resubmits = refl
