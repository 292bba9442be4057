-- ===== src/DecisionPath/Tests.antt =====
-- One transaction on its way through the pipeline, and the theorems at concrete inputs.
use botmev.Prelude.{ℕ, ◌%◌, ◌≡◌, ◌↔◌, refl, none, some, List, [], ◌∷◌, arith, length, u64_mod}
use botmev.Types.{ParsedTransaction, uniswap_v2}
use botmev.Opportunities.{Opportunity}
use botmev.DecisionPath.Workers.{turn, turn_at, try_send, spawn}
use botmev.DecisionPath.Defs.{
  DecisionPath, DecisionPathConfig, Event, submit, filter_turn, simulation_turn, bundle_turn,
  shut_down, default_config, new, start, step, run, process_transaction, fast_filter, filter_done,
  simulation_done, bundle_done,
}
use botmev.DecisionPath.Start.{start-default_config, started}
use botmev.DecisionPath.Balance.{accounted, submitted, started_run-accounted}
use botmev.DecisionPath.Stopping.{Stopped, run-Stopped}
use botmev.DecisionPath.Safety.{IsSound, started_run-IsSound}

abbrev engine : ℕ → ParsedTransaction → List (Opportunity ℕ)
engine seed tx = []

abbrev config : DecisionPathConfig
config = record {
  simulation_cores = 1 ∷ [];
  filter_input = 1;
  simulation_input = 1;
  bundle_input = 1;
  output = 1;
  filter_workers = 1;
  simulation_workers = 1;
  bundle_workers = 1;
}

abbrev swap : ParsedTransaction
swap = record {
  transaction = record {
    hash = "0xaa";
    sender = "0xbb";
    to = none;
    value = "1";
    gas_price = "1";
    gas_limit = "1";
    nonce = 0;
    input = "";
    timestamp = 0;
  };
  decoded_input = none;
  target_type = uniswap_v2;
  processing_time_ms = 0;
}

-- Two transactions for a channel of one; the first goes all the way.
abbrev events : List Event
events =
    submit swap
    ∷ submit swap
    ∷ filter_turn 0
    ∷ filter_turn 0
    ∷ filter_turn 0
    ∷ simulation_turn 0 7
    ∷ simulation_turn 0 7
    ∷ simulation_turn 0 7
    ∷ shut_down
    ∷ bundle_turn 0
    ∷ []

abbrev began : DecisionPath ℕ
began = started config

begins : start (new config) ≡ some began
unfolding start new spawn
begins = refl

started_run-accounted_example :
    accounted (run engine events began) % u64_mod ≡ submitted events % u64_mod
started_run-accounted_example = started_run-accounted engine config events begins

started_run-IsSound_example : IsSound engine (run engine events began)
started_run-IsSound_example = started_run-IsSound engine config events begins

start-default_config_example : (start {F = ℕ} (new (default_config 1)) ≡ none) ↔ (◌≡◌ {A = ℕ} 1 1)
start-default_config_example = start-default_config 1 (omega arith)

-- The second one was dropped at the entry; the first waits for a bundle worker, which stops before it
-- takes it.
stuck :
    ((run engine events began).dropped_filter ≡ 1)
    × (length (run engine events began).bundle_queue ≡ 1)
unfolding run step process_transaction try_send turn_at turn filter_done simulation_done bundle_done
    fast_filter new spawn
stuck = (refl, refl)

-- The one worker of each stage, interrupted by a call.
run-Stopped_example :
    Stopped engine (filter_turn 0 ∷ filter_turn 0 ∷ submit swap ∷ filter_turn 0 ∷ []) (
      run engine
        (shut_down ∷ filter_turn 0 ∷ filter_turn 0 ∷ submit swap ∷ filter_turn 0 ∷ [])
        (run engine events (started config)))
run-Stopped_example =
    run-Stopped engine (filter_turn 0 ∷ filter_turn 0 ∷ submit swap ∷ filter_turn 0 ∷ [])
      (run engine events (started config))
