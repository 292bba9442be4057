-- ===== src/Submitter/Bumps.antt =====
-- What a resubmission sends and counts.
use botmev.Prelude.{
  ℕ, zero, suc, ◌≤◌, ◌<◌, ◌^◌, ◌≡◌, refl, sym, ap, ◌∙◌, false, some, List, [], ◌∷◌, ◌++◌, map,
  String, arith, length, ltb, leb, ◌==◌, add32,
}
use mathlib.Core.Path.{subst}
use botmev.Prelude.Dict.{Dict, lookup, modify, modified, lookup-insert_self, lookup-modify}
use text.Mathlib.TextEquality.{eq_iff}
use botmev.Prelude.Results.{Result, ok, err, ◌>>=◌}
use botmev.Tracker.Defs.{Bundle, SignedTransaction, all_transactions}
use botmev.Submitter.Defs.{
  Endpoint, SubmissionTracker, BundleSubmitter, Submission, SubmitterError, rpc_error, tracker_of,
  submission_of, send_all, track, submit_direct, with_fee, bumped, count_attempt,
  resubmit_with_gas_bump, Round, resubmission_rounds, start_resubmission,
}

map-append : {A B : Type 0} (f : A → B) (xs ys : List A) → map f (xs ++ ys) ≡ map f xs ++ map f ys
map-append f [] ys = refl
map-append f (x ∷ xs) ys = ap (◌∷◌ (f x)) (map-append f xs ys)

all_transactions-bumped :
    (price : ℕ) (b : Bundle)
    → all_transactions (bumped price b) ≡ map (with_fee price) (all_transactions b)
unfolding all_transactions bumped
all_transactions-bumped price b =
    sym
      (map-append (with_fee price) b.pre_transactions (b.target_transaction ∷ b.post_transactions))

send_all-with_fee :
    (send : Endpoint) (price i : ℕ) (txs : List SignedTransaction)
    → send_all send i (map (with_fee price) txs) ≡ send_all send i txs
unfolding send_all
send_all-with_fee send price i [] = refl
send_all-with_fee send price i (tx ∷ txs) =
    ap
      (λ (r : Result String (List String)).
        send i tx.raw_transaction >>= λ hash. r >>= λ hashes. ok (hash ∷ hashes))
      (send_all-with_fee send price (suc i) txs)

send_all-bumped :
    (send : Endpoint) (price : ℕ) (b : Bundle)
    → send_all send 0 (all_transactions (bumped price b)) ≡ send_all send 0 (all_transactions b)
send_all-bumped send price b =
    ap (send_all send 0) (all_transactions-bumped price b)
    ∙ send_all-with_fee send price 0 (all_transactions b)

-- The tracker of `id` afterwards.
abbrev pub Tracks : String → BundleSubmitter → ℕ → ℕ → Type 0
Tracks id s attempts price =
    (t : SubmissionTracker) × (lookup id s.active_submissions ≡ some t)
    × (t.submission_attempts ≡ attempts)
    × (t.current_gas_price ≡ price)

-- What a resubmission comes to, by what the endpoint answers to the transactions as they were.
abbrev pub Resent :
    String
    → ℕ
    → SubmissionTracker
    → Result String (List String)
    → Result SubmitterError Submission × BundleSubmitter
    → Type 0
Resent id price t (ok hashes) (r, s) =
    (r ≡ ok (submission_of (bumped price t.original_bundle) hashes)) × Tracks id s 1 price
Resent id price t (err e) (r, s) =
    (r ≡ err (rpc_error e)) × Tracks id s (add32 t.submission_attempts 1) price

lookup-modify_self :
    (id : String) (f : SubmissionTracker → SubmissionTracker) (m : Dict SubmissionTracker)
    → lookup id (modify id f m) ≡ modified f (lookup id m)
lookup-modify_self id f m = ground (arith, lookup-modify id id f m, eq_iff id id)

track-Resent :
    (id : String) (price now later : ℕ) (t : SubmissionTracker) (r : Result String (List String))
    (s : BundleSubmitter)
    → lookup id s.active_submissions ≡ some t
    → Resent id price t r (
        track (bumped price t.original_bundle) id later r (record s {
          active_submissions = modify id (count_attempt price now) s.active_submissions;
        }))
unfolding bumped
track-Resent id price now later t (ok hashes) s found = (
  refl,
  (
    tracker_of (bumped price t.original_bundle) later hashes,
    lookup-insert_self id _ (modify id (count_attempt price now) s.active_submissions),
    refl,
    refl,
  ),
)
track-Resent id price now later t (err e) s found = (
  refl,
  (
    count_attempt price now t,
    lookup-modify_self id (count_attempt price now) s.active_submissions
        ∙ ap (modified (count_attempt price now)) found,
    refl,
    refl,
  ),
)

lt-leb : (a b : ℕ) → a < b → leb b a ≡ false
lt-leb a b h = ground arith

resubmit_with_gas_bump-track :
    (bump : ℕ → ℕ) (send : Endpoint) (id : String) (now later : ℕ) (t : SubmissionTracker)
    (s : BundleSubmitter)
    → lookup id s.active_submissions ≡ some t
    → t.submission_attempts < s.max_resubmissions
    → t.current_gas_price < 2 ^ 128
    → resubmit_with_gas_bump bump send id now later s
      ≡ track
          (bumped (bump t.current_gas_price) t.original_bundle)
          id
          later
          (send_all send 0 (all_transactions t.original_bundle))
          (record s {
            active_submissions =
                modify id (count_attempt (bump t.current_gas_price) now) s.active_submissions;
          })
unfolding resubmit_with_gas_bump submit_direct
resubmit_with_gas_bump-track bump send id now later t s found few low =
    rw
      (
        found,
        lt-leb t.submission_attempts s.max_resubmissions few,
        lt-leb t.current_gas_price (2 ^ 128) low,
        send_all-bumped send (bump t.current_gas_price) t.original_bundle,
      )
      refl

-- A resubmission of a bundle that is tracked, below the limit of attempts and with a price below
-- 2^128, sends the raw transactions of the bundle as they were, for all that its price is higher:
-- the endpoint's answers to those decide. If it takes them all, the result has their hashes and the
-- higher price, and the count of attempts is one again; if it refuses one, the attempt is counted.
pub resubmit_with_gas_bump-Resent :
    (bump : ℕ → ℕ) (send : Endpoint) (id : String) (now later : ℕ) (t : SubmissionTracker)
    (s : BundleSubmitter)
    → lookup id s.active_submissions ≡ some t
    → t.submission_attempts < s.max_resubmissions
    → t.current_gas_price < 2 ^ 128
    → Resent id
        (bump t.current_gas_price)
        t
        (send_all send 0 (all_transactions t.original_bundle))
        (resubmit_with_gas_bump bump send id now later s)
resubmit_with_gas_bump-Resent bump send id now later t s found few low =
    let price = bump t.current_gas_price in
    let answer = send_all send 0 (all_transactions t.original_bundle) in
    subst (Resent id price t answer)
      (sym (resubmit_with_gas_bump-track bump send id now later t s found few low))
      (track-Resent id price now later t answer s found)

send_all-taken :
    (send : Endpoint) (hash : ℕ → List ℕ → String)
    → ((i : ℕ) (raw : List ℕ) → send i raw ≡ ok (hash i raw))
    → (i : ℕ) (txs : List SignedTransaction)
    → (hashes : List String) × (send_all send i txs ≡ ok hashes)
unfolding send_all
send_all-taken send hash taken i [] = ([], refl)
send_all-taken send hash taken i (tx ∷ txs) =
    let (hashes, e) = send_all-taken send hash taken (suc i) txs in
    (hash i tx.raw_transaction ∷ hashes, rw (taken i tx.raw_transaction, e) refl)

found_not_empty :
    (id : String) (m : Dict SubmissionTracker) (t : SubmissionTracker)
    → lookup id m ≡ some t
    → (length m == 0) ≡ false
unfolding lookup
found_not_empty id [] t e = cc
found_not_empty id ((k, u) ∷ m) t e = ground arith

ltb-false : (a b : ℕ) → b ≤ a → ltb a b ≡ false
ltb-false a b h = ground arith

-- The next `k` prices stay within the maximum.
abbrev pub Within : (ℕ → ℕ) → ℕ → ℕ → ℕ → Type 0
Within bump max_gas zero price = Unit
Within bump max_gas (suc k) price = (bump price ≤ max_gas) × Within bump max_gas k (bump price)

module _ (bump : ℕ → ℕ) (max_gas : ℕ) (id : String) (rounds : ℕ → Round)
    (hash : ℕ → ℕ → List ℕ → String) where
  -- A round whose endpoint takes everything leaves a fresh tracker.
  taken_round :
      (k : ℕ) (s : BundleSubmitter) (t : SubmissionTracker)
      → ((i : ℕ) (raw : List ℕ) → (rounds k).endpoint i raw ≡ ok (hash k i raw))
      → lookup id s.active_submissions ≡ some t
      → t.submission_attempts < s.max_resubmissions
      → t.current_gas_price < 2 ^ 128
      → let price = bump t.current_gas_price in
        (q : Submission) × (s' : BundleSubmitter) × (t' : SubmissionTracker)
        × (resubmit_with_gas_bump bump
              (rounds k).endpoint
              id
              (rounds k).bumped_at
              (rounds k).tracked_at
              s
            ≡ (ok q, s'))
        × (q.gas_price ≡ price)
        × (s'.max_resubmissions ≡ s.max_resubmissions)
        × (lookup id s'.active_submissions ≡ some t')
        × (t'.submission_attempts ≡ 1)
        × (t'.current_gas_price ≡ price)
  unfolding bumped
  taken_round k s t taken found few low =
      let price = bump t.current_gas_price in
      let (hashes, e) =
        send_all-taken (rounds k).endpoint (hash k) taken 0 (all_transactions t.original_bundle) in
      let b = bumped price t.original_bundle in
      (
        _,
        _,
        _,
        resubmit_with_gas_bump-track bump (rounds k).endpoint id (rounds k).bumped_at
              (rounds k).tracked_at t s found few low
            ∙ ap
                (λ (r : Result String (List String)). track b id (rounds k).tracked_at r (record s {
                  active_submissions =
                      modify id (count_attempt price (rounds k).bumped_at) s.active_submissions;
                }))
                e,
        refl,
        refl,
        lookup-insert_self id (tracker_of b (rounds k).tracked_at hashes)
            (modify id (count_attempt price (rounds k).bumped_at) s.active_submissions),
        refl,
        refl,
      )

  resubmission_rounds-all :
      (k : ℕ) (s : BundleSubmitter) (t : SubmissionTracker)
      → ((n i : ℕ) (raw : List ℕ) → (rounds n).endpoint i raw ≡ ok (hash n i raw))
      → Within bump max_gas k t.current_gas_price
      → max_gas < 2 ^ 128
      → 2 ≤ s.max_resubmissions
      → lookup id s.active_submissions ≡ some t
      → t.submission_attempts < s.max_resubmissions
      → t.current_gas_price < 2 ^ 128
      → (resubmission_rounds bump max_gas id rounds k s).0 ≡ k
  unfolding resubmission_rounds
  resubmission_rounds-all zero s t taken cheap gas two found few low = refl
  resubmission_rounds-all (suc k) s t taken (le, cheap) gas two found few low =
      let (q, s', t', e, price, limit, found', one, price') =
        taken_round k s t (taken k) found few low in
      let fits : q.gas_price ≤ max_gas = omega arith in
      let rest =
        resubmission_rounds-all k s' t' taken (subst (Within bump max_gas k) (sym price') cheap) gas
          (omega arith) found' (omega arith) (omega arith) in
      rw (found_not_empty id s.active_submissions t found, e, ltb-false max_gas q.gas_price fits)
        (ap suc rest)

-- While the endpoint takes everything and the next ten prices stay within the maximum (itself below
-- 2^128), the task of `start_resubmission` resubmits in all of its ten rounds, whatever limit of
-- resubmissions of two or more (the default is three) the submitter has.
pub start_resubmission-ten :
    (bump : ℕ → ℕ) (max_gas : ℕ) (id : String) (rounds : ℕ → Round) (hash : ℕ → ℕ → List ℕ → String)
    (s : BundleSubmitter) (t : SubmissionTracker)
    → ((n i : ℕ) (raw : List ℕ) → (rounds n).endpoint i raw ≡ ok (hash n i raw))
    → Within bump max_gas 10 t.current_gas_price
    → max_gas < 2 ^ 128
    → 2 ≤ s.max_resubmissions
    → lookup id s.active_submissions ≡ some t
    → t.submission_attempts < s.max_resubmissions
    → t.current_gas_price < 2 ^ 128
    → (start_resubmission bump max_gas id rounds s).0 ≡ 10
unfolding start_resubmission
start_resubmission-ten bump max_gas id rounds hash s t taken cheap gas two found few low =
    resubmission_rounds-all bump max_gas id rounds hash 10 s t taken cheap gas two found few low
