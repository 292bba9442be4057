-- ===== src/DecisionPath/Start.antt =====
-- The start of the workers.
use botmev.Prelude.{
  ℕ, zero, suc, ◌≤◌, ◌≡◌, ◌↔◌, refl, Option, none, some, List, [], ◌∷◌, arith, min,
}
use botmev.DecisionPath.Workers.{Worker, spawn}
use botmev.DecisionPath.Defs.{
  DecisionPath, DecisionPathConfig, FilteredTransaction, new, start, start_simulation_stage,
  default_config,
}

-- All workers idle, nothing in the channels.
abbrev pub started : {F : Type 0} → DecisionPathConfig → DecisionPath F
started c = record (new c) {
  filters = spawn c.filter_workers;
  simulations = spawn c.simulation_workers;
  bundles = spawn c.bundle_workers;
}

stage-spawn :
    (n : ℕ) (cores : List ℕ) {ws : List (Worker FilteredTransaction)}
    → start_simulation_stage n cores ≡ some ws
    → ws ≡ spawn n
unfolding spawn
stage-spawn zero cores h = cc
stage-spawn (suc n) [] h = cc
stage-spawn (suc n) (c ∷ cores) h = cc

module _ {F : Type 0} where
  start_with :
      (c : DecisionPathConfig) (r : Option (List (Worker FilteredTransaction))) {s : DecisionPath F}
      → ((ws : List (Worker FilteredTransaction)) → r ≡ some ws → ws ≡ spawn c.simulation_workers)
      → elim r [
        | none ↦ none
        | some simulations ↦ some (record (new c) {
          filters = spawn c.filter_workers;
          simulations = simulations;
          bundles = spawn c.bundle_workers;
        })
      ]
        ≡ some s
      → s ≡ started c
  start_with c none all h = cc
  start_with c (some ws) all h = cc (all ws refl)

  pub start-started :
      (c : DecisionPathConfig) {s : DecisionPath F} → start (new c) ≡ some s → s ≡ started c
  unfolding start new
  start-started c {s} h =
      start_with c (start_simulation_stage c.simulation_workers c.simulation_cores) {s = s}
        (λ ws. stage-spawn c.simulation_workers c.simulation_cores) h

  -- With the default settings the pipeline starts on every machine that has more than one processor, and
  -- panics on a machine with one, where the range of the cores for simulations is empty.
  pub start-default_config :
      (num_cpus : ℕ)
      → 1 ≤ num_cpus
      → (start {F = F} (new (default_config num_cpus)) ≡ none) ↔ (num_cpus ≡ 1)
  unfolding start new default_config
  start-default_config zero h = absurd (omega arith)
  start-default_config (suc zero) h = ((λ _. refl), (λ _. refl))
  start-default_config (suc (suc zero)) h = ((λ e. cc), (λ e. absurd (omega arith)))
  start-default_config (suc (suc (suc zero))) h = ((λ e. cc), (λ e. absurd (omega arith)))
  start-default_config (suc (suc (suc (suc n)))) h =
      let four : min (suc (suc (suc (suc n)))) 4 ≡ 4 = omega arith in
      ((λ e. let e' = (rw four at e) in cc), (λ e. absurd (omega arith)))
