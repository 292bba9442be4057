-- ===== src/Simulation/Tests.antt =====
-- A batch with a bundle that costs gas, and the theorems at concrete inputs.
use botmev.Prelude.{◌≡◌, ◌↔◌, refl, true, some, [], ◌∷◌}
use botmev.Tracker.Defs.{add_u256}
use botmev.Simulation.Defs.{
  AccountPool, get_account, SimulationBundle, SimulationResult, NodeAnswers, default_config,
  simulate_bundle_optimized, run_calls, estimate, apply_safety_checks, profit_below_threshold,
  PnLTracker, process_single_batch, collect, stale_state,
}
use botmev.Simulation.Safety.{AllSucceed, total_cost, simulate_bundle_optimized-Accepts}
use botmev.Simulation.Pool.{gets}

abbrev bundle : SimulationBundle
bundle = record { id = "b1"; transactions = record { gas_limit = 21_000; gas_price = 3 } ∷ [] }

abbrev up : NodeAnswers
up = record { block_number_known = true; answers = λ i tx. true }

abbrev result : SimulationResult
result = record {
  bundle_id = "b1";
  success = true;
  gas_used = 21_000;
  profit_estimate = record {
    gross_profit_wei = 1_000_000_000_000_000;
    gas_cost_wei = 63_000;
    net_profit_wei = 999_999_999_937_000;
  };
}

simulates : simulate_bundle_optimized bundle up ≡ some result
unfolding simulate_bundle_optimized run_calls estimate add_u256
simulates = refl

simulate_bundle_optimized-Accepts_example :
    (apply_safety_checks result default_config [] ≡ [])
    ↔ (AllSucceed (λ i tx. true) 0 bundle.transactions × (total_cost bundle.transactions ≡ 0))
simulate_bundle_optimized-Accepts_example =
    simulate_bundle_optimized-Accepts bundle up result simulates

abbrev tracker : PnLTracker
tracker = record {
  total_simulated_profit_wei = some 0;
  total_gas_costs_wei = some 0;
  successful_simulations = 0;
  failed_simulations = 0;
}

abbrev pool : AccountPool
pool = record { accounts = "0x1" ∷ "0x2" ∷ []; usage_count = ("0x1", 9) ∷ []; max_reuse = 1 }

-- A stale state is reported first, then the profit that the gas has cut below the threshold; the
-- result is returned all the same.
reports : (process_single_batch default_config 2000 ((bundle, up) ∷ []) (pool, tracker)).0 ≡ (
  result ∷ [],
  stale_state "b1" 2000 1000
      ∷ profit_below_threshold "b1" 999_999_999_937_000 1_000_000_000_000_000
      ∷ [],
)
unfolding process_single_batch collect simulate_bundle_optimized run_calls estimate add_u256
    apply_safety_checks
reports = refl

-- Two calls hand out both accounts, whatever their counts, and restore the order.
round_of_two :
    ((gets 2 pool).0 ≡ some "0x1" ∷ some "0x2" ∷ []) × ((gets 2 pool).1.accounts ≡ pool.accounts)
unfolding get_account
round_of_two = (refl, refl)
