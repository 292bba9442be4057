-- ===== src/Tracker/Gas.antt =====
-- `Bundle::total_gas_limit` and `total_value`: sums of 256-bit words.
use botmev.Prelude.{
  ℕ, ◌+◌, ◌^◌, ◌<◌, ◌≡◌, refl, sym, ap, ◌∙◌, Bool-cases, inl, inr, Option, none, some, List, [],
  ◌∷◌, ◌++◌, arith, tests, ltb, if◌then◌else◌,
}
use botmev.Tracker.Defs.{
  SignedTransaction, Bundle, all_transactions, add_u256, sum_u256, total_gas_limit, total_value,
}

-- The sum without a bound.
abbrev pub sum_by : (SignedTransaction → ℕ) → List SignedTransaction → ℕ
sum_by f [] = 0
sum_by f (tx ∷ txs) = f tx + sum_by f txs

-- A number as a 256-bit word, where it fits.
abbrev pub fitting : ℕ → Option ℕ
fitting n = if ltb n (2 ^ 256) then some n else none

sum_u256-none : (f : SignedTransaction → ℕ) (l : List SignedTransaction) → sum_u256 f none l ≡ none
unfolding sum_u256 add_u256
sum_u256-none f [] = refl
sum_u256-none f (tx ∷ txs) = sum_u256-none f txs

sum_u256-fitting :
    (f : SignedTransaction → ℕ) (m : ℕ) (l : List SignedTransaction)
    → m < 2 ^ 256
    → sum_u256 f (some m) l ≡ fitting (m + sum_by f l)
unfolding sum_u256 add_u256
sum_u256-fitting f m [] h = ground arith
sum_u256-fitting f m (tx ∷ txs) h =
    let n = m + f tx in
    elim (Bool-cases (ltb n (2 ^ 256))) [
      | inl ok ↦
          let total : n + sum_by f txs ≡ m + (f tx + sum_by f txs) = omega arith in
          rw ok (sum_u256-fitting f n txs (omega tests) ∙ ap fitting total)
      | inr over ↦
          let too_much : fitting (m + (f tx + sum_by f txs)) ≡ none = ground arith in
          rw over (sum_u256-none f txs ∙ sym too_much)
    ]

sum_by-append :
    (f : SignedTransaction → ℕ) (l k : List SignedTransaction)
    → sum_by f (l ++ k) ≡ sum_by f l + sum_by f k
sum_by-append f [] k = omega arith
sum_by-append f (tx ∷ l) k = omega (arith, sum_by-append f l k)

add_from_zero : {s t u : ℕ} → s ≡ t → t ≡ u → 0 + s ≡ u
add_from_zero e f = omega arith

sum_all :
    (f : SignedTransaction → ℕ) (b : Bundle)
    → sum_u256 f (some 0) (all_transactions b)
      ≡ fitting
          (sum_by f b.pre_transactions + f b.target_transaction + sum_by f b.post_transactions)
unfolding all_transactions
sum_all f b =
    let pre = b.pre_transactions in
    let target = b.target_transaction in
    let post = b.post_transactions in
    let split : sum_by f (all_transactions b) ≡ sum_by f pre + (f target + sum_by f post) =
      sum_by-append f pre (target ∷ post) in
    let total : 0 + sum_by f (all_transactions b) ≡ sum_by f pre + f target + sum_by f post =
      add_from_zero split (omega arith) in
    sum_u256-fitting f 0 (all_transactions b) (omega arith) ∙ ap fitting total

-- The gas limit of a bundle is the sum over the transactions before the target, the target and those
-- after it, where that fits into 256 bits; otherwise, and only then, the addition panics. The same
-- holds of its value.
total_gas_limit_lem :
    (b : Bundle)
    → let gas = λ (tx : SignedTransaction). tx.gas_limit in
      let value = λ (tx : SignedTransaction). tx.value in
      (total_gas_limit b
        ≡ fitting (
            sum_by gas b.pre_transactions
            + b.target_transaction.gas_limit
            + sum_by gas b.post_transactions))
      × (total_value b
          ≡ fitting (
              sum_by value b.pre_transactions
              + b.target_transaction.value
              + sum_by value b.post_transactions))
unfolding total_gas_limit total_value all_transactions
total_gas_limit_lem b = (sum_all (λ tx. tx.gas_limit) b, sum_all (λ tx. tx.value) b)
