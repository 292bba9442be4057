-- ===== src/Simulation/Defs.antt =====
-- `AccountPool` and the simulation of a batch. The node is an argument: whether it tells the block
-- number, and `answers i tx`, whether the call of the transaction `tx` at `i` succeeds. `U256` panics on
-- overflow, and with it the task of the simulation. Margins and latencies, in `f64`, are left out.
use botmev.Prelude.{
  ℕ, suc, ◌+◌, ◌-◌, ◌*◌, ◌^◌, Bool, true, false, ◌&&◌, Option, none, some, List, [], ◌∷◌, ◌++◌, map,
  String, ltb, ◌==◌, add64, if◌then◌else◌,
}
use botmev.Prelude.Dict.{Dict, lookup, insert}
use botmev.Prelude.Results.{unwrap_or}
use botmev.Tracker.Defs.{add_u256}

pub record SimulationOptimizerConfig : Type 0 where
  pub min_profit_threshold_wei : ℕ
  pub max_stale_state_ms : ℕ
  pub pnl_tracking_enabled : Bool
  pub safety_checks_enabled : Bool

abbrev pub default_config : SimulationOptimizerConfig
default_config = record {
  min_profit_threshold_wei = 1_000_000_000_000_000;
  max_stale_state_ms = 1000;
  pnl_tracking_enabled = true;
  safety_checks_enabled = true;
}

pub record AccountPool : Type 0 where
  pub accounts : List String
  pub usage_count : Dict ℕ
  pub max_reuse : ℕ

abbrev zero_counts : List String → Dict ℕ → Dict ℕ
zero_counts [] m = m
zero_counts (a ∷ as') m = zero_counts as' (insert a 0 m)

unfoldable pub new_pool : List String → ℕ → AccountPool
new_pool accounts max_reuse = record {
  accounts = accounts;
  usage_count = zero_counts accounts [];
  max_reuse = max_reuse;
}

-- The account in front goes to the back.
abbrev pub take_front : List String → AccountPool → Option String × AccountPool
take_front [] p = (none, p)
take_front (a ∷ as') p =
    let usage = unwrap_or 0 (lookup a p.usage_count) in
    (
      some a,
      record p {
        accounts = as' ++ a ∷ [];
        usage_count = insert a (if ltb usage p.max_reuse then usage + 1 else 1) p.usage_count;
      },
    )

unfoldable pub get_account : AccountPool → Option String × AccountPool
get_account p = take_front p.accounts p

unfoldable pub reset_usage : AccountPool → AccountPool
reset_usage p = record p { usage_count = map (λ (e : String × ℕ). (e.0, 0)) p.usage_count }

pub record SimulationTransaction : Type 0 where
  pub gas_limit : ℕ
  pub gas_price : ℕ

pub record SimulationBundle : Type 0 where
  pub id : String
  pub transactions : List SimulationTransaction

pub record ProfitEstimate : Type 0 where
  pub gross_profit_wei : ℕ
  pub gas_cost_wei : ℕ
  pub net_profit_wei : ℕ

pub record SimulationResult : Type 0 where
  pub bundle_id : String
  pub success : Bool
  pub gas_used : ℕ
  pub profit_estimate : ProfitEstimate

abbrev pub add_product : Option ℕ → ℕ → ℕ → Option ℕ
add_product total a b = if ltb (a * b) (2 ^ 256) then add_u256 total (a * b) else none

-- The calls from `i` on, with the gas and its cost so far; `none` is a panic. A call that fails ends
-- the loop.
unfoldable pub run_calls :
    (ℕ → SimulationTransaction → Bool)
    → ℕ
    → List SimulationTransaction
    → Option ℕ
    → Option ℕ
    → Bool × Option ℕ × Option ℕ
run_calls answers i [] used cost = (true, used, cost)
run_calls answers i (tx ∷ txs) used cost =
    let later =
      run_calls answers (suc i) txs (add_u256 used tx.gas_limit)
        (add_product cost tx.gas_price tx.gas_limit) in
    if answers i tx then later else (false, used, cost)

abbrev pub gross_profit : Bool → ℕ
gross_profit true = 1_000_000_000_000_000
gross_profit false = 0

unfoldable pub estimate : Bool → ℕ → ProfitEstimate
estimate success cost = record {
  gross_profit_wei = gross_profit success;
  gas_cost_wei = cost;
  net_profit_wei = if ltb cost (gross_profit success) then gross_profit success - cost else 0;
}

abbrev pub result_of : SimulationBundle → Bool × Option ℕ × Option ℕ → Option SimulationResult
result_of b (success, some used, some cost) = some (record {
  bundle_id = b.id;
  success = success;
  gas_used = used;
  profit_estimate = estimate success cost;
})
result_of b _ = none

-- What the node answers while one bundle is simulated.
pub record NodeAnswers : Type 0 where
  pub block_number_known : Bool
  pub answers : ℕ → SimulationTransaction → Bool

-- `none` is an error of the node or a panic; both are logged and leave no result.
unfoldable pub simulate_bundle_optimized : SimulationBundle → NodeAnswers → Option SimulationResult
simulate_bundle_optimized b n =
    if n.block_number_known
    then result_of b (run_calls n.answers 0 b.transactions (some 0) (some 0))
    else none

pub data SafetyViolation : Type 0 where
  profit_below_threshold : String → ℕ → ℕ → SafetyViolation
  stale_state : String → ℕ → ℕ → SafetyViolation
  excessive_gas_cost : String → ℕ → ℕ → SafetyViolation
  negative_pnl : String → ℕ → SafetyViolation

abbrev pub push_if : Bool → SafetyViolation → List SafetyViolation → List SafetyViolation
push_if c v l = if c then l ++ v ∷ [] else l

unfoldable pub apply_safety_checks :
    SimulationResult → SimulationOptimizerConfig → List SafetyViolation → List SafetyViolation
apply_safety_checks r c violations =
    let e = r.profit_estimate in
    push_if (e.net_profit_wei == 0 && ltb 0 e.gas_cost_wei)
      (negative_pnl r.bundle_id e.gas_cost_wei)
      (push_if (ltb e.gross_profit_wei e.gas_cost_wei)
        (excessive_gas_cost r.bundle_id e.gas_cost_wei e.gross_profit_wei)
        (push_if (ltb e.net_profit_wei c.min_profit_threshold_wei)
          (profit_below_threshold r.bundle_id e.net_profit_wei c.min_profit_threshold_wei)
          violations))

pub record PnLTracker : Type 0 where
  pub total_simulated_profit_wei : Option ℕ
  pub total_gas_costs_wei : Option ℕ
  pub successful_simulations : ℕ
  pub failed_simulations : ℕ

-- A total that is `none` has overflowed, which panics.
unfoldable pub update_pnl_tracking : List SimulationResult → PnLTracker → PnLTracker
update_pnl_tracking [] t = t
update_pnl_tracking (r ∷ rs) t = update_pnl_tracking rs (record {
  total_simulated_profit_wei =
      add_u256 t.total_simulated_profit_wei r.profit_estimate.gross_profit_wei;
  total_gas_costs_wei = add_u256 t.total_gas_costs_wei r.profit_estimate.gas_cost_wei;
  successful_simulations =
      if r.success then add64 t.successful_simulations 1 else t.successful_simulations;
  failed_simulations = if r.success then t.failed_simulations else add64 t.failed_simulations 1;
})

abbrev pub stale_states : ℕ → ℕ → List SimulationBundle → List SafetyViolation
stale_states age max_age = map (λ b. stale_state b.id age max_age)

abbrev pub collect_one :
    SimulationOptimizerConfig
    → Option SimulationResult
    → List SimulationResult × List SafetyViolation
    → List SimulationResult × List SafetyViolation
collect_one c none (results, violations) = (results, violations)
collect_one c (some r) (results, violations) = (
  results ++ r ∷ [],
  if c.safety_checks_enabled then apply_safety_checks r c violations else violations,
)

-- The results in the order of the bundles, which is that in which the tasks are awaited.
unfoldable pub collect :
    SimulationOptimizerConfig
    → List (SimulationBundle × NodeAnswers)
    → List SimulationResult × List SafetyViolation
    → List SimulationResult × List SafetyViolation
collect c [] acc = acc
collect c ((b, n) ∷ bs) acc = collect c bs (collect_one c (simulate_bundle_optimized b n) acc)

-- Each task takes an account, which the simulation does not read.
abbrev pub take_accounts : List (SimulationBundle × NodeAnswers) → AccountPool → AccountPool
take_accounts [] p = p
take_accounts (_ ∷ bs) p = take_accounts bs (get_account p).1

unfoldable pub process_single_batch :
    SimulationOptimizerConfig
    → ℕ
    → List (SimulationBundle × NodeAnswers)
    → AccountPool × PnLTracker
    → (List SimulationResult × List SafetyViolation) × AccountPool × PnLTracker
process_single_batch c state_age batch (p, t) =
    let stale =
      if c.safety_checks_enabled && ltb c.max_stale_state_ms state_age
      then stale_states state_age c.max_stale_state_ms (map (λ e. e.0) batch)
      else [] in
    let (results, violations) = collect c batch ([], stale) in
    (
      (results, violations),
      take_accounts batch p,
      if c.pnl_tracking_enabled then update_pnl_tracking results t else t,
    )
