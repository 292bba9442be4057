-- ===== src/DecisionPath/Safety.antt =====
-- What comes out of the pipeline, and how much its channels hold.
use botmev.Prelude.{
  ℕ, ◌≤◌, ◌≡◌, refl, true, Option, none, some, List, [], ◌∷◌, length, arith, All, if-holds_by,
}
use botmev.Types.{ParsedTransaction}
use botmev.Opportunities.{Opportunity}
use botmev.DecisionPath.Workers.{turn_at}
use botmev.DecisionPath.Start.{start-started}
use botmev.DecisionPath.Defs.{
  DecisionPath, DecisionResult, DecisionPathConfig, Event, submit, filter_turn, simulation_turn,
  bundle_turn, receive, shut_down, new, start, step, run, process_transaction, filter_done,
  simulation_done, bundle_done, FilteredTransaction, SimulationResult, fast_filter, received,
  sent_to_filter, sent_to_simulation, sent_to_bundle, sent_to_output, count_processed, decision_of,
}
use botmev.DecisionPath.Channels.{
  Holds, Done, turn_at-All, All-spawn, turn_at-le, Sent, try_send-Sent, All-Unit,
}

module _ {F : Type 0} (engine : ℕ → ParsedTransaction → List (Opportunity F)) where
  abbrev Passed : FilteredTransaction → Type 0
  Passed t = fast_filter t.transaction ≡ true

  abbrev Evaluated : SimulationResult F → Type 0
  Evaluated r =
      (fast_filter r.transaction ≡ true)
      × ((seed : ℕ) × (r.opportunities ≡ engine seed r.transaction))

  -- A decision is about some transaction that passed the filter, and reports what the engine found in
  -- that transaction.
  abbrev pub IsDecision : DecisionResult F → Type 0
  IsDecision d =
      (tx : ParsedTransaction) × (d.transaction_id ≡ tx.transaction.hash)
      × (fast_filter tx ≡ true)
      × (seed : ℕ) × (d.opportunities ≡ engine seed tx)

  pub record IsSound (s : DecisionPath F) : Type 0 where
    pub decisions : All IsDecision s.output_queue
    pub simulation_queue : All Passed s.simulation_queue
    pub simulations : All (Holds Passed) s.simulations
    pub bundle_queue : All Evaluated s.bundle_queue
    pub bundles : All (Holds Evaluated) s.bundles
    pub filter_within : length s.filter_queue ≤ s.config.filter_input
    pub simulation_within : length s.simulation_queue ≤ s.config.simulation_input
    pub bundle_within : length s.bundle_queue ≤ s.config.bundle_input
    pub output_within : length s.output_queue ≤ s.config.output

  module _ {s : DecisionPath F} (h : IsSound s) where
    sent_to_filter-IsSound :
        (r : Option (List ParsedTransaction))
        → Sent (λ _. Unit) s.config.filter_input r
        → IsSound (sent_to_filter r s)
    sent_to_filter-IsSound none k = ground arith
    sent_to_filter-IsSound (some q) k = ground arith

    sent_to_simulation-IsSound :
        (r : Option (List FilteredTransaction))
        → Sent Passed s.config.simulation_input r
        → IsSound (sent_to_simulation r s)
    sent_to_simulation-IsSound none k = ground arith
    sent_to_simulation-IsSound (some q) k = ground arith

    sent_to_bundle-IsSound :
        (r : Option (List (SimulationResult F)))
        → Sent Evaluated s.config.bundle_input r
        → IsSound (sent_to_bundle r s)
    sent_to_bundle-IsSound none k = ground arith
    sent_to_bundle-IsSound (some q) k = ground arith

    sent_to_output-IsSound :
        (r : Option (List (DecisionResult F)))
        → Sent IsDecision s.config.output r
        → IsSound (sent_to_output r s)
    sent_to_output-IsSound none k = ground arith
    sent_to_output-IsSound (some q) k = ground arith

    process_transaction-IsSound : (tx : ParsedTransaction) → IsSound (process_transaction tx s)
    unfolding process_transaction
    process_transaction-IsSound tx = sent_to_filter-IsSound _ (
        try_send-Sent (λ _. Unit) s.config.filter_input tx s.filter_queue tt
          (All-Unit s.filter_queue))

    filter_done-IsSound : (done : Option ParsedTransaction) → IsSound (filter_done done s)
    unfolding filter_done
    filter_done-IsSound none = h
    filter_done-IsSound (some tx) =
        if-holds_by IsSound (fast_filter tx)
          (λ passed. sent_to_simulation-IsSound _ (
            try_send-Sent Passed s.config.simulation_input
              (record { transaction = tx; priority = 128 }) s.simulation_queue passed
              h.simulation_queue))
          (λ _. ground arith)

    simulation_done-IsSound :
        (seed : ℕ) (done : Option FilteredTransaction)
        → Done Passed done
        → IsSound (simulation_done engine seed done s)
    unfolding simulation_done
    simulation_done-IsSound seed none k = h
    simulation_done-IsSound seed (some t) k = sent_to_bundle-IsSound _ (
        try_send-Sent Evaluated s.config.bundle_input
          (record { transaction = t.transaction; opportunities = engine seed t.transaction })
          s.bundle_queue (k, (seed, refl)) h.bundle_queue)

  count_processed-IsSound :
      (r : SimulationResult F) {s : DecisionPath F} → IsSound s → IsSound (count_processed r s)
  count_processed-IsSound r h = ground arith

  bundle_done-IsSound :
      (done : Option (SimulationResult F)) {s : DecisionPath F}
      → Done Evaluated done
      → IsSound s
      → IsSound (bundle_done done s)
  unfolding bundle_done
  bundle_done-IsSound none k h = h
  bundle_done-IsSound (some r) {s} k h = count_processed-IsSound r (
      sent_to_output-IsSound h _ (
        try_send-Sent IsDecision s.config.output (decision_of r) s.output_queue
          (r.transaction, refl, k.0, k.1.0, k.1.1) h.decisions))

  received-All : (q : List (DecisionResult F)) → All IsDecision q → All IsDecision (received q)
  received-All [] k = k
  received-All (d ∷ q) k = k.1

  received-le : (q : List (DecisionResult F)) → length (received q) ≤ length q
  received-le [] = omega arith
  received-le (d ∷ q) = omega arith

  step-IsSound : (e : Event) {s : DecisionPath F} → IsSound s → IsSound (step engine e s)
  unfolding step
  step-IsSound (submit tx) h = process_transaction-IsSound h tx
  step-IsSound (filter_turn i) {s} h =
      let (ws, q, done) = turn_at s.shutdown i s.filters s.filter_queue in
      let less = turn_at-le s.shutdown i s.filters s.filter_queue in
      filter_done-IsSound {s = record s { filters = ws; filter_queue = q }} (ground arith) done
  step-IsSound (simulation_turn i seed) {s} h =
      let (ws, q, done) = turn_at s.shutdown i s.simulations s.simulation_queue in
      let less = turn_at-le s.shutdown i s.simulations s.simulation_queue in
      let (keep, left, passed) =
        turn_at-All Passed s.shutdown i s.simulations s.simulation_queue h.simulations
          h.simulation_queue in
      simulation_done-IsSound {s = record s { simulations = ws; simulation_queue = q }}
        (record {
          decisions = h.decisions;
          simulation_queue = left;
          simulations = keep;
          bundle_queue = h.bundle_queue;
          bundles = h.bundles;
          filter_within = h.filter_within;
          simulation_within = omega arith;
          bundle_within = h.bundle_within;
          output_within = h.output_within;
        })
        seed done passed
  step-IsSound (bundle_turn i) {s} h =
      let (ws, q, done) = turn_at s.shutdown i s.bundles s.bundle_queue in
      let less = turn_at-le s.shutdown i s.bundles s.bundle_queue in
      let (keep, left, evaluated) =
        turn_at-All Evaluated s.shutdown i s.bundles s.bundle_queue h.bundles h.bundle_queue in
      bundle_done-IsSound done {s = record s { bundles = ws; bundle_queue = q }} evaluated (record {
        decisions = h.decisions;
        simulation_queue = h.simulation_queue;
        simulations = h.simulations;
        bundle_queue = left;
        bundles = keep;
        filter_within = h.filter_within;
        simulation_within = h.simulation_within;
        bundle_within = omega arith;
        output_within = h.output_within;
      })
  step-IsSound receive {s} h = record {
    decisions = received-All s.output_queue h.decisions;
    simulation_queue = h.simulation_queue;
    simulations = h.simulations;
    bundle_queue = h.bundle_queue;
    bundles = h.bundles;
    filter_within = h.filter_within;
    simulation_within = h.simulation_within;
    bundle_within = h.bundle_within;
    output_within = omega (arith, received-le s.output_queue, h.output_within);
  }
  step-IsSound shut_down h = ground arith

  run-IsSound : (es : List Event) {s : DecisionPath F} → IsSound s → IsSound (run engine es s)
  unfolding run
  run-IsSound [] h = h
  run-IsSound (e ∷ es) h = run-IsSound es (step-IsSound e h)

  started-IsSound :
      (c : DecisionPathConfig) {s : DecisionPath F} → start (new c) ≡ some s → IsSound s
  unfolding new
  started-IsSound c {s} h = rw (start-started c {s = s} h) (record {
    decisions = tt;
    simulation_queue = tt;
    simulations = All-spawn Passed c.simulation_workers;
    bundle_queue = tt;
    bundles = All-spawn Evaluated c.bundle_workers;
    filter_within = omega arith;
    simulation_within = omega arith;
    bundle_within = omega arith;
    output_within = omega arith;
  })

  -- Whatever is submitted and in whatever order the workers take their turns: each decision that can be
  -- read is about a transaction that passed the fast filter and reports exactly what the engine found in
  -- that transaction, the same holds of the work under way, and no channel holds more than its capacity.
  pub started_run-IsSound :
      (c : DecisionPathConfig) (es : List Event) {s : DecisionPath F}
      → start (new c) ≡ some s
      → IsSound (run engine es s)
  started_run-IsSound c es {s} h = run-IsSound es (started-IsSound c {s = s} h)
