-- ===== src/Submission/Direct.antt =====
-- The direct path: which transactions are sent, and what is recorded.
use botmev.Prelude.{
  ℕ, suc, ◌≡◌, ◌⊎◌, inl, inr, refl, sym, ap, Option, none, some, List, [], ◌∷◌, ◌++◌, String, arith,
  if◌then◌else◌,
}
use mathlib.Core.Path.{subst}
use botmev.Prelude.Dict.{str_eq, lookup, insert, lookup-insert, lookup-modify}
use botmev.Prelude.Results.{Result, ok, err}
use botmev.Tracker.Defs.{Bundle, SignedTransaction, all_transactions}
use botmev.Submission.Defs.{
  awaiting, failure, SubmissionAttempt, BundleSubmissionStatus, SubmissionResult, SubmissionError,
  client_error, BundleSubmitter, Call, record_attempt, send_transactions, result_of, direct_attempt,
  finish_direct, submit_direct, Answers, fresh_status, submit_bundle, direct,
}

-- What comes of sending these transactions from `i` on: each is sent as it was signed, after the one
-- before it has been taken, and gives its hash; the first that is refused, if any, ends the sending
-- with its error.
abbrev pub Sent :
    (ℕ → List ℕ → Result String String)
    → ℕ
    → List SignedTransaction
    → List String
    → Option String
    → Type 0
Sent answers i [] hashes e = (hashes ≡ []) × (e ≡ none)
Sent answers i (tx ∷ txs) hashes e =
    ((h : String) × (rest : List String) × (answers i tx.raw_transaction ≡ ok h)
      × (hashes ≡ h ∷ rest)
      × Sent answers (suc i) txs rest e)
    ⊎ ((x : String) × (answers i tx.raw_transaction ≡ err x) × (hashes ≡ []) × (e ≡ some x))

result-cases :
    (r : Result String String) → ((h : String) × (r ≡ ok h)) ⊎ ((e : String) × (r ≡ err e))
result-cases (ok h) = inl (h, refl)
result-cases (err e) = inr (e, refl)

module _ (answers : ℕ → List ℕ → Result String String) where
  sent_step :
      (i : ℕ) (tx : SignedTransaction) (txs : List SignedTransaction) (h : String)
      → answers i tx.raw_transaction ≡ ok h
      → send_transactions answers i (tx ∷ txs)
        ≡ (h ∷ (send_transactions answers (suc i) txs).0, (send_transactions answers (suc i) txs).1)
  unfolding send_transactions
  sent_step i tx txs h e = rw (send_transactions, e) refl

  failed_step :
      (i : ℕ) (tx : SignedTransaction) (txs : List SignedTransaction) (x : String)
      → answers i tx.raw_transaction ≡ err x
      → send_transactions answers i (tx ∷ txs) ≡ ([], some x)
  unfolding send_transactions
  failed_step i tx txs x e = rw (send_transactions, e) refl

  send_transactions-Sent :
      (i : ℕ) (txs : List SignedTransaction)
      → let r = send_transactions answers i txs in Sent answers i txs r.0 r.1
  unfolding send_transactions
  send_transactions-Sent i [] = (refl, refl)
  send_transactions-Sent i (tx ∷ txs) = elim (result-cases (answers i tx.raw_transaction)) [
    | inl (h, e) ↦
        let step = sent_step i tx txs h e in
        inl (
          h,
          (send_transactions answers (suc i) txs).0,
          e,
          ap (λ x. x.0) step,
          subst (λ x. Sent answers (suc i) txs (send_transactions answers (suc i) txs).0 x)
              (sym (ap (λ x. x.1) step)) (send_transactions-Sent (suc i) txs),
        )
    | inr (x, e) ↦
        let step = failed_step i tx txs x e in inr (x, e, ap (λ x. x.0) step, ap (λ x. x.1) step)
  ]

-- The entry of the bundle with one attempt.
abbrev pub with_attempt : Bundle → ℕ → ℕ → SubmissionAttempt → BundleSubmissionStatus
with_attempt b now recorded a = record (fresh_status b now) {
  submission_attempts = a ∷ [];
  last_updated = recorded;
}

record_attempt-lookup :
    (b : Bundle) (now recorded : ℕ) (a : SubmissionAttempt) (s : BundleSubmitter) (k : String)
    → lookup k
        (record_attempt b.id recorded a
          (record s { submissions = insert b.id (fresh_status b now) s.submissions })).submissions
      ≡ (if str_eq b.id k then some (with_attempt b now recorded a) else lookup k s.submissions)
unfolding record_attempt
record_attempt-lookup b now recorded a s k = ground (
  arith,
  lookup-insert b.id k (fresh_status b now) s.submissions,
  lookup-modify b.id k
      (λ (t : BundleSubmissionStatus). record t {
        submission_attempts = t.submission_attempts ++ a ∷ [];
        last_updated = recorded;
      })
      (insert b.id (fresh_status b now) s.submissions),
)

module _ (b : Bundle) (now : ℕ) (c : Call) where
  -- What is returned, and the attempt that is recorded.
  abbrev pub Submitted :
      List String
      → Option String
      → Result SubmissionError SubmissionResult
      → SubmissionAttempt
      → Type 0
  Submitted hs none r a = (r ≡ ok (result_of b c.id c)) × (a ≡ direct_attempt b c hs awaiting)
  Submitted hs (some e) r a = (r ≡ err (client_error e)) × (a ≡ direct_attempt b c hs (failure e))

  finish_direct-Submitted :
      (s : BundleSubmitter) (hs : List String) (e : Option String)
      → let (o, s') =
          finish_direct b c
            (hs, e)
            (record s { submissions = insert b.id (fresh_status b now) s.submissions }) in
        (a : SubmissionAttempt) × Submitted hs e o a
        × ((k : String)
            → lookup k s'.submissions ≡ (
                if str_eq b.id k
                then some (with_attempt b now c.recorded a)
                else lookup k s.submissions))
  finish_direct-Submitted s hs none = (
    direct_attempt b c hs awaiting,
    (refl, refl),
    record_attempt-lookup b now c.recorded (direct_attempt b c hs awaiting) s,
  )
  finish_direct-Submitted s hs (some e) = (
    direct_attempt b c hs (failure e),
    (refl, refl),
    record_attempt-lookup b now c.recorded (direct_attempt b c hs (failure e)) s,
  )

-- The direct path sends the raw transactions of the bundle: those before the target, the target and
-- those after it, in this order, up to the first that the client refuses. It succeeds exactly if all
-- are taken, and otherwise returns that client's error. Either way the entry of the bundle is made anew
-- (an older one is lost) with this one attempt, which has the hashes of what was sent and is awaiting
-- or failed accordingly; all other entries stay.
pub submit_bundle-Submitted :
    (a : Answers) (b : Bundle) (now : ℕ) (c d : Call) (s : BundleSubmitter)
    → let (r, s') = submit_bundle direct a b now c d s in
      (hs : List String) × (e : Option String) × Sent a.answers 0
        (b.pre_transactions ++ b.target_transaction ∷ b.post_transactions)
        hs
        e
      × (attempt : SubmissionAttempt) × Submitted b now c hs e r attempt
      × ((k : String)
          → lookup k s'.submissions ≡ (
              if str_eq b.id k
              then some (with_attempt b now c.recorded attempt)
              else lookup k s.submissions))
unfolding submit_bundle submit_direct all_transactions
submit_bundle-Submitted a b now c d s =
    let r = send_transactions a.answers 0 (all_transactions b) in
    let (attempt, submitted, found) = finish_direct-Submitted b now c s r.0 r.1 in
    (r.0, r.1, send_transactions-Sent a.answers 0 (all_transactions b), attempt, submitted, found)
