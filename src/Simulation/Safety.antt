-- ===== src/Simulation/Safety.antt =====
-- What the safety checks accept.
use botmev.Prelude.{
  ℕ, ◌≤◌, ◌≡◌, ◌↔◌, refl, Bool, true, false, ◌&&◌, Option, none, some, List, [], ◌∷◌, arith, ltb,
  ◌==◌, if-holds, if-cases, Bool-cases, inl, inr, sym, ap, ◌∙◌, suc, ◌+◌, ◌*◌, ◌^◌, if◌then◌else◌,
}
use mathlib.Core.Path.{subst}
use botmev.Tracker.Defs.{add_u256}
use botmev.Simulation.Defs.{
  SimulationOptimizerConfig, default_config, SimulationBundle, SimulationResult, NodeAnswers,
  run_calls, add_product, SimulationTransaction, estimate, result_of, simulate_bundle_optimized,
  SafetyViolation, profit_below_threshold, excessive_gas_cost, negative_pnl, push_if,
  apply_safety_checks,
}

push_if-empty :
    (c : Bool) (v : SafetyViolation) (l : List SafetyViolation)
    → (push_if c v l ≡ []) ↔ ((c ≡ false) × (l ≡ []))
push_if-empty true v [] = ((λ h. absurd cc), λ h. absurd cc)
push_if-empty true v (x ∷ l) = ((λ h. absurd cc), λ h. absurd cc)
push_if-empty false v l = ((λ h. (refl, h)), λ h. h.1)

-- The checks report nothing exactly if the net profit reaches the threshold, the gas costs no more
-- than the gross profit, and there is no cost without a net profit.
apply_safety_checks-empty :
    (r : SimulationResult) (c : SimulationOptimizerConfig)
    → let e = r.profit_estimate in
      (apply_safety_checks r c [] ≡ []) ↔ (
        (c.min_profit_threshold_wei ≤ e.net_profit_wei)
        × (e.gas_cost_wei ≤ e.gross_profit_wei)
        × (e.net_profit_wei ≡ 0 → e.gas_cost_wei ≡ 0))
unfolding apply_safety_checks
apply_safety_checks-empty r c =
    let e = r.profit_estimate in
    let below = profit_below_threshold r.bundle_id e.net_profit_wei c.min_profit_threshold_wei in
    let first = push_if (ltb e.net_profit_wei c.min_profit_threshold_wei) below [] in
    let cost = excessive_gas_cost r.bundle_id e.gas_cost_wei e.gross_profit_wei in
    let second = push_if (ltb e.gross_profit_wei e.gas_cost_wei) cost first in
    ground (
      arith,
      push_if-empty (ltb e.net_profit_wei c.min_profit_threshold_wei) below [],
      push_if-empty (ltb e.gross_profit_wei e.gas_cost_wei) cost first,
      push_if-empty (e.net_profit_wei == 0 && ltb 0 e.gas_cost_wei)
          (negative_pnl r.bundle_id e.gas_cost_wei) second,
    )

abbrev Accepts : SimulationResult → Type 0
Accepts r =
    (apply_safety_checks r default_config [] ≡ [])
    ↔ ((r.success ≡ true) × (r.profit_estimate.gas_cost_wei ≡ 0))

abbrev AcceptsAny : Option SimulationResult → Type 0
AcceptsAny none = Unit
AcceptsAny (some r) = Accepts r

estimate-Accepts :
    (b : SimulationBundle) (success : Bool) (used cost : Option ℕ)
    → AcceptsAny (result_of b (success, used, cost))
unfolding estimate
estimate-Accepts b success none cost = tt
estimate-Accepts b success (some u) none = tt
estimate-Accepts b true (some u) (some cost) = ground (
  arith,
  apply_safety_checks-empty
      (record {
        bundle_id = b.id;
        success = true;
        gas_used = u;
        profit_estimate = estimate true cost;
      })
      default_config,
)
estimate-Accepts b false (some u) (some cost) = ground (
  arith,
  apply_safety_checks-empty
      (record {
        bundle_id = b.id;
        success = false;
        gas_used = u;
        profit_estimate = estimate false cost;
      })
      default_config,
)

-- No call from `i` on fails, one for each transaction.
abbrev pub AllSucceed : (ℕ → SimulationTransaction → Bool) → ℕ → List SimulationTransaction → Type 0
AllSucceed answers i [] = Unit
AllSucceed answers i (tx ∷ txs) = (answers i tx ≡ true) × AllSucceed answers (suc i) txs

-- What the gas of all transactions costs.
abbrev pub total_cost : List SimulationTransaction → ℕ
total_cost [] = 0
total_cost (tx ∷ txs) = tx.gas_price * tx.gas_limit + total_cost txs

add_product-some :
    (cost : Option ℕ) (a b : ℕ) {m : ℕ}
    → add_product cost a b ≡ some m
    → (n : ℕ) × (cost ≡ some n) × (m ≡ n + a * b)
unfolding add_u256
add_product-some none a b {m} h = if-cases (ltb (a * b) (2 ^ 256)) (λ _ e. cc) (λ _ e. cc) h
add_product-some (some n) a b {m} h =
    if-cases (ltb (a * b) (2 ^ 256))
      (λ _ e. if-cases (ltb (n + a * b) (2 ^ 256)) (λ _ x. (n, refl, cc)) (λ _ x. cc) e) (λ _ e. cc)
      h

module _ (answers : ℕ → SimulationTransaction → Bool) where
  run_calls-AllSucceed :
      (i : ℕ) (txs : List SimulationTransaction) (used cost : Option ℕ)
      → ((run_calls answers i txs used cost).0 ≡ true) ↔ AllSucceed answers i txs
  unfolding run_calls
  run_calls-AllSucceed i [] used cost = ((λ _. tt), (λ _. refl))
  run_calls-AllSucceed i (tx ∷ txs) used cost =
      let rest =
        run_calls-AllSucceed (suc i) txs (add_u256 used tx.gas_limit)
          (add_product cost tx.gas_price tx.gas_limit) in
      elim (Bool-cases (answers i tx)) [
        | inl good ↦ rw good ((λ h. (refl, rest.0 h)), (λ h. rest.1 h.1))
        | inr bad ↦ rw bad ((λ h. absurd cc), (λ h. absurd cc))
      ]

  run_calls-total :
      (i : ℕ) (txs : List SimulationTransaction) (used cost : Option ℕ) {m : ℕ}
      → AllSucceed answers i txs
      → (run_calls answers i txs used cost).2 ≡ some m
      → (n : ℕ) × (cost ≡ some n) × (m ≡ n + total_cost txs)
  unfolding run_calls
  run_calls-total i [] used cost {m} all h = (m, h, omega arith)
  run_calls-total i (tx ∷ txs) used cost {m} (good, all) h =
      let later =
        run_calls answers (suc i) txs (add_u256 used tx.gas_limit)
          (add_product cost tx.gas_price tx.gas_limit) in
      let same : (if answers i tx then later else (false, used, cost)) ≡ later = rw good refl in
      let (n1, e1, sum1) =
        run_calls-total (suc i) txs (add_u256 used tx.gas_limit)
          (add_product cost tx.gas_price tx.gas_limit) {m = m} all (sym (ap (λ x. x.2) same) ∙ h) in
      let (n, e, sum) = add_product-some cost tx.gas_price tx.gas_limit {m = n1} e1 in
      (n, e, omega (arith, sum, sum1))

-- The outcome of a simulation that leaves a result.
result-total :
    (b : SimulationBundle) (answers : ℕ → SimulationTransaction → Bool)
    (x : Bool × Option ℕ × Option ℕ) {r : SimulationResult}
    → run_calls answers 0 b.transactions (some 0) (some 0) ≡ x
    → result_of b x ≡ some r
    → ((r.success ≡ true) ↔ AllSucceed answers 0 b.transactions)
      × (AllSucceed answers 0 b.transactions
          → r.profit_estimate.gas_cost_wei ≡ total_cost b.transactions)
unfolding estimate
result-total b answers (success, none, cost) {r} e h = cc
result-total b answers (success, some used, none) {r} e h = cc
result-total b answers (success, some used, some cost) {r} e h =
    let all = run_calls-AllSucceed answers 0 b.transactions (some 0) (some 0) in
    let same : success ≡ r.success = cc in
    let cost_same : cost ≡ r.profit_estimate.gas_cost_wei = cc in
    (
      subst (λ y. (y ≡ true) ↔ AllSucceed answers 0 b.transactions) (ap (λ y. y.0) e ∙ same) all,
      λ a.
          let (n, start, sum) =
            run_calls-total answers 0 b.transactions (some 0) (some 0) {m = cost} a
              (ap (λ y. y.2) e) in
          let from_zero : 0 ≡ n = cc in sym cost_same ∙ omega (arith, sum, from_zero),
    )

-- What the node must know for there to be a result.
known-total :
    (b : SimulationBundle) (n : NodeAnswers) {r : SimulationResult}
    → simulate_bundle_optimized b n ≡ some r
    → ((r.success ≡ true) ↔ AllSucceed n.answers 0 b.transactions)
      × (AllSucceed n.answers 0 b.transactions
          → r.profit_estimate.gas_cost_wei ≡ total_cost b.transactions)
unfolding simulate_bundle_optimized
known-total b n {r} h =
    if-cases n.block_number_known (λ _ e. result-total b n.answers _ {r = r} refl e) (λ _ e. cc) h

reported :
    (b : SimulationBundle) (n : NodeAnswers) (r : SimulationResult)
    → simulate_bundle_optimized b n ≡ some r
    → Accepts r
unfolding simulate_bundle_optimized
reported b n r h =
    let (success, used, cost) = run_calls n.answers 0 b.transactions (some 0) (some 0) in
    subst AcceptsAny h
      (if-holds AcceptsAny n.block_number_known (estimate-Accepts b success used cost) tt)

-- With the default settings the safety checks report something for every simulation that leaves a
-- result, but for those in which the node lets the call of every transaction succeed and all of them
-- together cost nothing: the profit that a simulation assumes is exactly the threshold.
pub simulate_bundle_optimized-Accepts :
    (b : SimulationBundle) (n : NodeAnswers) (r : SimulationResult)
    → simulate_bundle_optimized b n ≡ some r
    → (apply_safety_checks r default_config [] ≡ [])
      ↔ (AllSucceed n.answers 0 b.transactions × (total_cost b.transactions ≡ 0))
simulate_bundle_optimized-Accepts b n r h =
    let (success, cost) = known-total b n {r = r} h in
    let (there, back) = reported b n r h in
    (
      λ none_left.
          let (all, free) = there none_left in
          let calls = success.0 all in (calls, sym (cost calls) ∙ free),
      λ (calls, free). back (success.1 calls, cost calls ∙ free),
    )
