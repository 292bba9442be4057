-- ===== src/DecisionPath/Defs.antt =====
-- `DecisionPath`. Timings, the histogram and the pinning of threads are left out; of the metrics, those
-- are kept that count transactions. The engine is an argument. The channels are crossbeam's bounded
-- channels, of a capacity above 0; all their ends live as long as the pipeline.
use botmev.Prelude.{
  ℕ, zero, suc, ◌+◌, Bool, true, false, Option, none, some, List, [], ◌∷◌, length, String, add64,
  min, ltb, if◌then◌else◌,
}
use botmev.Prelude.Text.{parse_unsigned, byte_len}
use botmev.Types.{
  ParsedTransaction, TargetType, uniswap_v2, uniswap_v3, sushi_swap, curve, balancer, order_book,
  unknown,
}
use botmev.Opportunities.{Opportunity}
use botmev.DecisionPath.Workers.{Worker, turn_at, spawn, try_send}

pub record DecisionPathConfig : Type 0 where
  pub simulation_cores : List ℕ
  pub filter_input : ℕ
  pub simulation_input : ℕ
  pub bundle_input : ℕ
  pub output : ℕ
  pub filter_workers : ℕ
  pub simulation_workers : ℕ
  pub bundle_workers : ℕ

-- `(1..n).collect()`, counted from `first`.
abbrev count_up : ℕ → ℕ → List ℕ
count_up first zero = []
count_up first (suc n) = first ∷ count_up (suc first) n

abbrev range_from_one : ℕ → List ℕ
range_from_one zero = []
range_from_one (suc n) = count_up 1 n

-- On a machine with `num_cpus` processors.
unfoldable pub default_config : ℕ → DecisionPathConfig
default_config num_cpus = record {
  simulation_cores = range_from_one (min num_cpus 4);
  filter_input = 1000;
  simulation_input = 500;
  bundle_input = 100;
  output = 50;
  filter_workers = 2;
  simulation_workers = min num_cpus 4;
  bundle_workers = 1;
}

pub record FilteredTransaction : Type 0 where
  pub transaction : ParsedTransaction
  pub priority : ℕ

pub record SimulationResult (F : Type 0) : Type 0 where
  pub transaction : ParsedTransaction
  pub opportunities : List (Opportunity F)

pub record DecisionResult (F : Type 0) : Type 0 where
  pub transaction_id : String
  pub opportunities : List (Opportunity F)
  pub success : Bool
  pub error : Option String

pub record DecisionPathStats : Type 0 where
  pub transactions_processed : ℕ
  pub opportunities_found : ℕ

-- The channels are the lists of what waits in them. `dropped_*` count `inc_transactions_dropped` by
-- the stage that a transaction did not reach, `filtered_out` the records of the filter's metric.
pub record DecisionPath (F : Type 0) : Type 0 where
  pub config : DecisionPathConfig
  pub filter_queue : List ParsedTransaction
  pub simulation_queue : List FilteredTransaction
  pub bundle_queue : List (SimulationResult F)
  pub output_queue : List (DecisionResult F)
  pub filters : List (Worker ParsedTransaction)
  pub simulations : List (Worker FilteredTransaction)
  pub bundles : List (Worker (SimulationResult F))
  pub shutdown : Bool
  pub processed_count : ℕ
  pub stats : DecisionPathStats
  pub dropped_filter : ℕ
  pub dropped_simulation : ℕ
  pub dropped_bundle : ℕ
  pub filtered_out : ℕ

abbrev pub large_order : String → Bool
large_order s = elim (parse_unsigned 128 s) [
  | some value ↦ ltb 1_000_000_000_000_000_000 value
  | none ↦ false
]

abbrev pub interesting : TargetType → ParsedTransaction → Bool
interesting uniswap_v2 p = true
interesting uniswap_v3 p = true
interesting sushi_swap p = true
interesting curve p = true
interesting balancer p = true
interesting order_book p = large_order p.transaction.value
interesting unknown p = ltb 10 (byte_len p.transaction.input)

unfoldable pub fast_filter : ParsedTransaction → Bool
fast_filter p = interesting p.target_type p

-- `worker_id % core_assignments.len()` divides by zero where there are no cores: a panic, `none`.
abbrev pub start_simulation_stage : ℕ → List ℕ → Option (List (Worker FilteredTransaction))
start_simulation_stage zero cores = some []
start_simulation_stage (suc n) [] = none
start_simulation_stage (suc n) (c ∷ cores) = some (spawn (suc n))

module _ {F : Type 0} where
  unfoldable pub new : DecisionPathConfig → DecisionPath F
  new config = record {
    config = config;
    filter_queue = [];
    simulation_queue = [];
    bundle_queue = [];
    output_queue = [];
    filters = [];
    simulations = [];
    bundles = [];
    shutdown = false;
    processed_count = 0;
    stats = record { transactions_processed = 0; opportunities_found = 0 };
    dropped_filter = 0;
    dropped_simulation = 0;
    dropped_bundle = 0;
    filtered_out = 0;
  }

  unfoldable pub start : DecisionPath F → Option (DecisionPath F)
  start s = elim (start_simulation_stage s.config.simulation_workers s.config.simulation_cores) [
    | none ↦ none
    | some simulations ↦ some (record s {
      filters = spawn s.config.filter_workers;
      simulations = simulations;
      bundles = spawn s.config.bundle_workers;
    })
  ]

  abbrev pub sent_to_filter : Option (List ParsedTransaction) → DecisionPath F → DecisionPath F
  sent_to_filter none s = record s { dropped_filter = s.dropped_filter + 1 }
  sent_to_filter (some q) s = record s { filter_queue = q }

  -- A full queue is no error.
  unfoldable pub process_transaction : ParsedTransaction → DecisionPath F → DecisionPath F
  process_transaction tx s = sent_to_filter (try_send s.config.filter_input tx s.filter_queue) s

  abbrev pub sent_to_simulation :
      Option (List FilteredTransaction) → DecisionPath F → DecisionPath F
  sent_to_simulation none s = record s { dropped_simulation = s.dropped_simulation + 1 }
  sent_to_simulation (some q) s = record s { simulation_queue = q }

  -- What a filter worker does with a transaction.
  unfoldable pub filter_done : Option ParsedTransaction → DecisionPath F → DecisionPath F
  filter_done none s = s
  filter_done (some tx) s =
      if fast_filter tx
      then sent_to_simulation
          (try_send s.config.simulation_input (record { transaction = tx; priority = 128 })
            s.simulation_queue)
          s
      else record s { filtered_out = s.filtered_out + 1 }

  abbrev pub sent_to_bundle : Option (List (SimulationResult F)) → DecisionPath F → DecisionPath F
  sent_to_bundle none s = record s { dropped_bundle = s.dropped_bundle + 1 }
  sent_to_bundle (some q) s = record s { bundle_queue = q }

  abbrev pub sent_to_output : Option (List (DecisionResult F)) → DecisionPath F → DecisionPath F
  sent_to_output none s = s
  sent_to_output (some q) s = record s { output_queue = q }

  abbrev pub decision_of : SimulationResult F → DecisionResult F
  decision_of r = record {
    transaction_id = r.transaction.transaction.hash;
    opportunities = r.opportunities;
    success = true;
    error = none;
  }

  abbrev pub count_processed : SimulationResult F → DecisionPath F → DecisionPath F
  count_processed r s = record s {
    stats = record {
      transactions_processed = add64 s.stats.transactions_processed 1;
      opportunities_found = add64 s.stats.opportunities_found (length r.opportunities);
    };
    processed_count = add64 s.processed_count 1;
  }

  -- A result that finds the output full is lost, with a log line only.
  unfoldable pub bundle_done : Option (SimulationResult F) → DecisionPath F → DecisionPath F
  bundle_done none s = s
  bundle_done (some r) s =
      count_processed r (sent_to_output (try_send s.config.output (decision_of r) s.output_queue) s)

  abbrev pub received : List (DecisionResult F) → List (DecisionResult F)
  received [] = []
  received (r ∷ rs) = rs

-- What happens next: a call, a turn of a worker, or a reading of `get_results`.
pub data Event : Type 0 where
  submit : ParsedTransaction → Event
  filter_turn bundle_turn : ℕ → Event
  -- The worker's number, and what the strategies choose at random.
  simulation_turn : ℕ → ℕ → Event
  receive shut_down : Event

-- `engine` is `evaluate_transaction` of the strategy engine; an `Err` of it counts as no opportunity.
module _ {F : Type 0} (engine : ℕ → ParsedTransaction → List (Opportunity F)) where
  unfoldable pub simulation_done : ℕ → Option FilteredTransaction → DecisionPath F → DecisionPath F
  simulation_done seed none s = s
  simulation_done seed (some tx) s =
      sent_to_bundle
        (try_send s.config.bundle_input
          (record { transaction = tx.transaction; opportunities = engine seed tx.transaction })
          s.bundle_queue)
        s

  unfoldable pub step : Event → DecisionPath F → DecisionPath F
  step (submit tx) s = process_transaction tx s
  step (filter_turn i) s =
      let (ws, q, done) = turn_at s.shutdown i s.filters s.filter_queue in
      filter_done done (record s { filters = ws; filter_queue = q })
  step (simulation_turn i seed) s =
      let (ws, q, done) = turn_at s.shutdown i s.simulations s.simulation_queue in
      simulation_done seed done (record s { simulations = ws; simulation_queue = q })
  step (bundle_turn i) s =
      let (ws, q, done) = turn_at s.shutdown i s.bundles s.bundle_queue in
      bundle_done done (record s { bundles = ws; bundle_queue = q })
  step receive s = record s { output_queue = received s.output_queue }
  step shut_down s = record s { shutdown = true }

  unfoldable pub run : List Event → DecisionPath F → DecisionPath F
  run [] s = s
  run (e ∷ es) s = run es (step e s)
