-- ===== src/Submission/Attempts.antt =====
-- The attempts that are kept over any calls, and what that means for resubmission.
use botmev.Prelude.{
  ℕ, ◌+◌, ◌≤◌, ◌≡◌, ◌≢◌, inl, inr, refl, sym, ◌∙◌, Bool, true, false, Option, none, some, List, [],
  ◌∷◌, String, arith, length, length-append, All, All-append, Bool-cases, if◌then◌else◌, if-holds,
}
use mathlib.Core.Path.{subst}
use text.Mathlib.TextEquality.{eq_iff}
use botmev.Prelude.Dict.{Dict, str_eq, lookup, insert, modify, AllValues, AllValues-retain}
use botmev.Prelude.Results.{Result, ok, err}
use botmev.Tracker.Defs.{Bundle, all_transactions, pending}
use botmev.Submission.Defs.{
  SubmissionConfig, SubmissionError, SubmissionResult, SubmissionPath, direct, bundle_rpc, both,
  awaiting, failure, SubmissionAttempt, BundleSubmissionStatus, BundleSubmitter, new, Call,
  record_attempt, send_transactions, direct_attempt, bundle_attempt, finish_direct, submit_direct,
  submit_bundle_rpc, submit_both_paths, Answers, fresh_status, submit_bundle, maximum_reached,
  resubmit_found, resubmit_with_gas_bump, cleanup_old_submissions,
}

abbrev IsOpen : SubmissionAttempt → Type 0
IsOpen a = elim (a.result) [ awaiting ↦ Unit | failure e ↦ Unit | _ ↦ ⊥ ]

-- An entry with at most `n` attempts.
abbrev pub Good : ℕ → BundleSubmissionStatus → Type 0
Good n t =
    (t.current_status ≡ pending)
    × (length t.submission_attempts ≤ n)
    × All IsOpen t.submission_attempts

abbrev pub AllKept : BundleSubmitter → Type 0
AllKept s = AllValues (Good 2) s.submissions

-- While the bundle `id` is submitted: its entry has at most `n` attempts, the others at most two.
abbrev LevelIn : ℕ → String → Dict BundleSubmissionStatus → Type 0
LevelIn n id [] = Unit
LevelIn n id ((k, t) ∷ m) =
    if str_eq k id then (Good n t × AllValues (Good 2) m) else (Good 2 t × LevelIn n id m)

abbrev Level : ℕ → String → BundleSubmitter → Type 0
Level n id s = LevelIn n id s.submissions

when_true : (A B : Type 0) (c : Bool) → c ≡ true → (if c then A else B) → A
when_true A B true e v = v
when_true A B false e v = absurd cc

when_false : (A B : Type 0) (c : Bool) → c ≡ false → (if c then A else B) → B
when_false A B true e v = absurd cc
when_false A B false e v = v

Good-mono : (n m : ℕ) (t : BundleSubmissionStatus) → n ≤ m → Good n t → Good m t
Good-mono n m t le (same, few, all) = (same, omega arith, all)

module _ (id : String) where
  insert-LevelIn :
      (t : BundleSubmissionStatus) (m : Dict BundleSubmissionStatus)
      → Good 0 t
      → AllValues (Good 2) m
      → LevelIn 0 id (insert id t m)
  unfolding insert
  insert-LevelIn t [] good v = rw ((eq_iff id id).1 refl) (good, tt)
  insert-LevelIn t ((k, u) ∷ m) good (here, v) = elim (Bool-cases (str_eq k id)) [
    | inl same ↦ rw (same, (eq_iff id id).1 refl) (good, v)
    | inr other ↦ rw (other, other) (here, insert-LevelIn t m good v)
  ]

  modify-LevelIn :
      (n : ℕ) (f : BundleSubmissionStatus → BundleSubmissionStatus)
      (m : Dict BundleSubmissionStatus)
      → ((t : BundleSubmissionStatus) → Good n t → Good (n + 1) (f t))
      → LevelIn n id m
      → LevelIn (n + 1) id (modify id f m)
  unfolding modify
  modify-LevelIn n f [] add v = tt
  modify-LevelIn n f ((k, t) ∷ m) add v = elim (Bool-cases (str_eq k id)) [
    | inl same ↦
        let (here, rest) = when_true _ _ (str_eq k id) same v in rw (same, same) (add t here, rest)
    | inr other ↦
        let (here, rest) = when_false _ _ (str_eq k id) other v in
        rw (other, other) (here, modify-LevelIn n f m add rest)
  ]

  LevelIn-mono :
      (n m : ℕ) (d : Dict BundleSubmissionStatus) → n ≤ m → LevelIn n id d → LevelIn m id d
  LevelIn-mono n m [] le v = tt
  LevelIn-mono n m ((k, t) ∷ d) le v = elim (Bool-cases (str_eq k id)) [
    | inl same ↦
        let (here, rest) = when_true _ _ (str_eq k id) same v in
        rw same (Good-mono n m t le here, rest)
    | inr other ↦
        let (here, rest) = when_false _ _ (str_eq k id) other v in
        rw other (here, LevelIn-mono n m d le rest)
  ]

  LevelIn-kept :
      (n : ℕ) (d : Dict BundleSubmissionStatus) → n ≤ 2 → LevelIn n id d → AllValues (Good 2) d
  LevelIn-kept n [] few v = tt
  LevelIn-kept n ((k, t) ∷ d) few v = elim (Bool-cases (str_eq k id)) [
    | inl same ↦
        let (here, rest) = when_true _ _ (str_eq k id) same v in (Good-mono n 2 t few here, rest)
    | inr other ↦
        let (here, rest) = when_false _ _ (str_eq k id) other v in (here, LevelIn-kept n d few rest)
  ]

fresh-Level :
    (b : Bundle) (now : ℕ) (s : BundleSubmitter)
    → AllKept s
    → Level 0 b.id (record s { submissions = insert b.id (fresh_status b now) s.submissions })
fresh-Level b now s v =
    insert-LevelIn b.id (fresh_status b now) s.submissions (refl, omega arith, tt) v

record_attempt-Level :
    (id : String) (now : ℕ) (a : SubmissionAttempt) (n : ℕ) (s : BundleSubmitter)
    → IsOpen a
    → Level n id s
    → Level (n + 1) id (record_attempt id now a s)
unfolding record_attempt
record_attempt-Level id now a n s fits = modify-LevelIn id n _ s.submissions λ t v. (
  v.0,
  omega (arith, length-append t.submission_attempts (a ∷ []), v.1),
  All-append IsOpen t.submission_attempts (a ∷ []) v.2 (fits, tt),
)

finish_direct-Level :
    (n : ℕ) (b : Bundle) (c : Call) (r : List String × Option String) (s : BundleSubmitter)
    → Level n b.id s
    → Level (n + 1) b.id (finish_direct b c r s).1
finish_direct-Level n b c (hs, none) s v =
    record_attempt-Level b.id c.recorded (direct_attempt b c hs awaiting) n s tt v
finish_direct-Level n b c (hs, some e) s v =
    record_attempt-Level b.id c.recorded (direct_attempt b c hs (failure e)) n s tt v

submit_direct-Level :
    (n : ℕ) (answers : ℕ → List ℕ → Result String String) (b : Bundle) (c : Call)
    (s : BundleSubmitter)
    → Level n b.id s
    → Level (n + 1) b.id (submit_direct answers b c s).1
unfolding submit_direct
submit_direct-Level n answers b c s v =
    finish_direct-Level n b c (send_transactions answers 0 (all_transactions b)) s v

submit_bundle_rpc-Level :
    (n : ℕ) (answer : Option (Result String String)) (b : Bundle) (c : Call) (s : BundleSubmitter)
    → Level n b.id s
    → Level (n + 1) b.id (submit_bundle_rpc answer b c s).1
unfolding submit_bundle_rpc
submit_bundle_rpc-Level n none b c s v = LevelIn-mono b.id n (n + 1) s.submissions (omega arith) v
submit_bundle_rpc-Level n (some (ok h)) b c s v =
    record_attempt-Level b.id c.recorded (bundle_attempt b c (h ∷ []) awaiting) n s tt v
submit_bundle_rpc-Level n (some (err e)) b c s v =
    record_attempt-Level b.id c.recorded (bundle_attempt b c [] (failure e)) n s tt v

submit_bundle-AllKept :
    (path : SubmissionPath) (a : Answers) (b : Bundle) (now : ℕ) (c d : Call) (s : BundleSubmitter)
    → AllKept s
    → AllKept (submit_bundle path a b now c d s).1
unfolding submit_bundle submit_both_paths
submit_bundle-AllKept direct a b now c d s v = LevelIn-kept b.id 1 _ (omega arith) (
    submit_direct-Level 0 a.answers b c
      (record s { submissions = insert b.id (fresh_status b now) s.submissions })
      (fresh-Level b now s v))
submit_bundle-AllKept bundle_rpc a b now c d s v = LevelIn-kept b.id 1 _ (omega arith) (
    submit_bundle_rpc-Level 0 a.bundle_answer b d
      (record s { submissions = insert b.id (fresh_status b now) s.submissions })
      (fresh-Level b now s v))
submit_bundle-AllKept both a b now c d s v =
    let start : BundleSubmitter = record s {
      submissions = insert b.id (fresh_status b now) s.submissions;
    } in
    let fresh = fresh-Level b now s v in
    if-holds (λ (r : Result SubmissionError SubmissionResult × BundleSubmitter). AllKept r.1)
      a.direct_first
      (LevelIn-kept b.id 2 _ (omega arith) (
        submit_bundle_rpc-Level 1 a.bundle_answer b d (submit_direct a.answers b c start).1
          (submit_direct-Level 0 a.answers b c start fresh)))
      (LevelIn-kept b.id 2 _ (omega arith) (
        submit_direct-Level 1 a.answers b c (submit_bundle_rpc a.bundle_answer b d start).1
          (submit_bundle_rpc-Level 0 a.bundle_answer b d start fresh)))

-- What is called: a submission with its path, the answers to it and the clock, or a clean-up.
pub data Request : Type 0 where
  submits : SubmissionPath → Answers → Bundle → ℕ → Call → Call → Request
  cleans : ℕ → ℕ → Request

abbrev pub handle : BundleSubmitter → Request → BundleSubmitter
handle s (submits path a b now c d) = (submit_bundle path a b now c d s).1
handle s (cleans now hours) = cleanup_old_submissions now hours s

abbrev pub handle_all : BundleSubmitter → List Request → BundleSubmitter
handle_all s [] = s
handle_all s (q ∷ qs) = handle_all (handle s q) qs

handle-AllKept : (s : BundleSubmitter) (q : Request) → AllKept s → AllKept (handle s q)
unfolding cleanup_old_submissions
handle-AllKept s (submits path a b now c d) v = submit_bundle-AllKept path a b now c d s v
handle-AllKept s (cleans now hours) v = AllValues-retain (Good 2) _ s.submissions v

handle_all-AllKept :
    (s : BundleSubmitter) (qs : List Request) → AllKept s → AllKept (handle_all s qs)
handle_all-AllKept s [] v = v
handle_all-AllKept s (q ∷ qs) v = handle_all-AllKept (handle s q) qs (handle-AllKept s q v)

-- Whatever bundles are submitted on whatever paths to a new submitter, with whatever answers, and
-- cleaned up: every entry is still pending, has two attempts at most, and each of these is awaiting
-- or failed; no attempt is ever a success or timed out.
new-AllKept : (c : SubmissionConfig) (qs : List Request) → AllKept (handle_all (new c) qs)
unfolding new
new-AllKept c qs = handle_all-AllKept (new c) qs tt

finish_direct-config :
    (b : Bundle) (c : Call) (r : List String × Option String) (s : BundleSubmitter)
    → (finish_direct b c r s).1.config ≡ s.config
unfolding record_attempt
finish_direct-config b c (hs, none) s = refl
finish_direct-config b c (hs, some e) s = refl

submit_bundle_rpc-config :
    (answer : Option (Result String String)) (b : Bundle) (c : Call) (s : BundleSubmitter)
    → (submit_bundle_rpc answer b c s).1.config ≡ s.config
unfolding submit_bundle_rpc record_attempt
submit_bundle_rpc-config none b c s = refl
submit_bundle_rpc-config (some (ok h)) b c s = refl
submit_bundle_rpc-config (some (err e)) b c s = refl

submit_bundle-config :
    (path : SubmissionPath) (a : Answers) (b : Bundle) (now : ℕ) (c d : Call) (s : BundleSubmitter)
    → (submit_bundle path a b now c d s).1.config ≡ s.config
unfolding submit_bundle submit_both_paths submit_direct
submit_bundle-config direct a b now c d s =
    finish_direct-config b c (send_transactions a.answers 0 (all_transactions b)) _
submit_bundle-config bundle_rpc a b now c d s = submit_bundle_rpc-config a.bundle_answer b d _
submit_bundle-config both a b now c d s =
    let sent = send_transactions a.answers 0 (all_transactions b) in
    if-holds
      (λ (r : Result SubmissionError SubmissionResult × BundleSubmitter). r.1.config ≡ s.config)
      a.direct_first
      (submit_bundle_rpc-config a.bundle_answer b d _ ∙ finish_direct-config b c sent _)
      (finish_direct-config b c sent _ ∙ submit_bundle_rpc-config a.bundle_answer b d _)

handle_all-config : (s : BundleSubmitter) (qs : List Request) → (handle_all s qs).config ≡ s.config
unfolding cleanup_old_submissions
handle_all-config s [] = refl
handle_all-config s (submits path a b now c d ∷ qs) =
    handle_all-config (submit_bundle path a b now c d s).1 qs
    ∙ submit_bundle-config path a b now c d s
handle_all-config s (cleans now hours ∷ qs) =
    handle_all-config (cleanup_old_submissions now hours s) qs

abbrev GoodFound : Option BundleSubmissionStatus → Type 0
GoodFound none = Unit
GoodFound (some t) = Good 2 t

lookup-GoodFound :
    (id : String) (m : Dict BundleSubmissionStatus) → AllValues (Good 2) m → GoodFound (lookup id m)
unfolding lookup
lookup-GoodFound id [] v = tt
lookup-GoodFound id ((k, t) ∷ m) (here, v) =
    if-holds GoodFound (str_eq k id) here (lookup-GoodFound id m v)

resubmit_found-lem :
    (bump : ℕ → ℕ) (c : SubmissionConfig) (o : Option BundleSubmissionStatus)
    → 3 ≤ c.max_resubmissions
    → GoodFound o
    → resubmit_found bump c o ≢ maximum_reached
resubmit_found-lem bump c none most v = λ e. cc
resubmit_found-lem bump c (some t) most v = λ e. ground (arith, v)

-- The limit of resubmissions limits nothing: where it is three or more (it is five), no history of
-- a new submitter makes a resubmission fail because of it.
resubmit-unlimited :
    (bump : ℕ → ℕ) (id : String) (c : SubmissionConfig) (qs : List Request)
    → 3 ≤ c.max_resubmissions
    → resubmit_with_gas_bump bump id (handle_all (new c) qs) ≢ maximum_reached
unfolding resubmit_with_gas_bump new
resubmit-unlimited bump id c qs most =
    let s = handle_all (new c) qs in
    let same = handle_all-config (new c) qs in
    let many : 3 ≤ s.config.max_resubmissions =
      subst (λ k. 3 ≤ k.max_resubmissions) (sym same) most in
    resubmit_found-lem bump s.config (lookup id s.submissions) many
      (lookup-GoodFound id s.submissions (new-AllKept c qs))
