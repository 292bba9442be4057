-- ===== src/DecisionPath/Stopping.antt =====
-- The workers after a shutdown.
use botmev.Prelude.{
  ℕ, ◌+◌, ◌-◌, ◌≤◌, ◌≡◌, refl, ap, ◌∙◌, Bool, true, false, Option, none, some, List, [], ◌∷◌, arith,
  if-holds,
}
use botmev.Types.{ParsedTransaction}
use botmev.Opportunities.{Opportunity}
use botmev.DecisionPath.Workers.{Worker, stopped, turn_at, try_send}
use botmev.DecisionPath.Turns.{left_at, worker_at, hit, turn_at-left, left_at-stopped, left_at-le}
use botmev.DecisionPath.Defs.{
  DecisionPath, Event, submit, filter_turn, simulation_turn, bundle_turn, receive, shut_down,
  FilteredTransaction, SimulationResult, DecisionResult, step, run, process_transaction,
  fast_filter, filter_done, simulation_done, bundle_done, sent_to_filter, sent_to_simulation,
  sent_to_bundle, sent_to_output, count_processed, decision_of,
}

abbrev pub taken : ℕ → Option ℕ → ℕ
taken i none = 0
taken i (some j) = hit j i

-- The turns of the worker `i` of the stage whose turns `of_stage` picks out.
abbrev pub turns : (Event → Option ℕ) → ℕ → List Event → ℕ
turns of_stage i [] = 0
turns of_stage i (e ∷ es) = taken i (of_stage e) + turns of_stage i es

abbrev pub filter_turn_of : Event → Option ℕ
filter_turn_of (filter_turn i) = some i
filter_turn_of _ = none

abbrev pub simulation_turn_of : Event → Option ℕ
simulation_turn_of (simulation_turn i seed) = some i
simulation_turn_of _ = none

abbrev pub bundle_turn_of : Event → Option ℕ
bundle_turn_of (bundle_turn i) = some i
bundle_turn_of _ = none

module _ {F : Type 0} where
  -- What a worker's action leaves alone.
  record Same (s s' : DecisionPath F) : Type 0 where
    filters : s'.filters ≡ s.filters
    simulations : s'.simulations ≡ s.simulations
    bundles : s'.bundles ≡ s.bundles
    shutdown : s'.shutdown ≡ s.shutdown

  process_transaction-Same :
      (tx : ParsedTransaction) (s : DecisionPath F) → Same s (process_transaction tx s)
  unfolding process_transaction
  process_transaction-Same tx s = sent (try_send s.config.filter_input tx s.filter_queue)
    where
      sent : (o : Option (List ParsedTransaction)) → Same s (sent_to_filter o s)
      sent none = record { filters = refl; simulations = refl; bundles = refl; shutdown = refl }
      sent (some q) = record { filters = refl; simulations = refl; bundles = refl; shutdown = refl }

  sent_to_simulation-Same :
      (o : Option (List FilteredTransaction)) (s : DecisionPath F) → Same s (sent_to_simulation o s)
  sent_to_simulation-Same none s = record {
    filters = refl;
    simulations = refl;
    bundles = refl;
    shutdown = refl;
  }
  sent_to_simulation-Same (some q) s = record {
    filters = refl;
    simulations = refl;
    bundles = refl;
    shutdown = refl;
  }

  sent_to_bundle-Same :
      (o : Option (List (SimulationResult F))) (s : DecisionPath F) → Same s (sent_to_bundle o s)
  sent_to_bundle-Same none s = record {
    filters = refl;
    simulations = refl;
    bundles = refl;
    shutdown = refl;
  }
  sent_to_bundle-Same (some q) s = record {
    filters = refl;
    simulations = refl;
    bundles = refl;
    shutdown = refl;
  }

  counted-Same :
      (r : SimulationResult F) (o : Option (List (DecisionResult F))) (s : DecisionPath F)
      → Same s (count_processed r (sent_to_output o s))
  counted-Same r none s = record {
    filters = refl;
    simulations = refl;
    bundles = refl;
    shutdown = refl;
  }
  counted-Same r (some q) s = record {
    filters = refl;
    simulations = refl;
    bundles = refl;
    shutdown = refl;
  }

  filter_done-Same : (d : Option ParsedTransaction) (s : DecisionPath F) → Same s (filter_done d s)
  unfolding filter_done
  filter_done-Same none s = record {
    filters = refl;
    simulations = refl;
    bundles = refl;
    shutdown = refl;
  }
  filter_done-Same (some tx) s =
      if-holds (Same s) (fast_filter tx)
        (sent_to_simulation-Same
          (try_send s.config.simulation_input (record { transaction = tx; priority = 128 })
            s.simulation_queue)
          s)
        (record { filters = refl; simulations = refl; bundles = refl; shutdown = refl })

  bundle_done-Same :
      (d : Option (SimulationResult F)) (s : DecisionPath F) → Same s (bundle_done d s)
  unfolding bundle_done
  bundle_done-Same none s = record {
    filters = refl;
    simulations = refl;
    bundles = refl;
    shutdown = refl;
  }
  bundle_done-Same (some r) s =
      counted-Same r (try_send s.config.output (decision_of r) s.output_queue) s

  module _ (engine : ℕ → ParsedTransaction → List (Opportunity F)) where
    simulation_done-Same :
        (seed : ℕ) (d : Option FilteredTransaction) (s : DecisionPath F)
        → Same s (simulation_done engine seed d s)
    unfolding simulation_done
    simulation_done-Same seed none s = record {
      filters = refl;
      simulations = refl;
      bundles = refl;
      shutdown = refl;
    }
    simulation_done-Same seed (some tx) s =
        sent_to_bundle-Same
          (try_send s.config.bundle_input
            (record { transaction = tx.transaction; opportunities = engine seed tx.transaction })
            s.bundle_queue)
          s

    -- How the turns that the workers have left go down while `shutdown` is set.
    record Fewer (e : Event) (s s' : DecisionPath F) : Type 0 where
      filters : (i : ℕ) → left_at i s'.filters ≤ left_at i s.filters - taken i (filter_turn_of e)
      simulations :
          (i : ℕ)
          → left_at i s'.simulations ≤ left_at i s.simulations - taken i (simulation_turn_of e)
      bundles : (i : ℕ) → left_at i s'.bundles ≤ left_at i s.bundles - taken i (bundle_turn_of e)
      shutdown : s'.shutdown ≡ true

    unchanged :
        {A : Type 0} (i : ℕ) (ws : List (Worker A)) {vs : List (Worker A)}
        → vs ≡ ws
        → left_at i vs ≤ left_at i ws - 0
    unchanged i ws e = let same = ap (left_at i) e in omega arith

    turned :
        {A : Type 0} (b : Bool) (i j : ℕ) (ws : List (Worker A)) (q : List A) {vs : List (Worker A)}
        → b ≡ true
        → vs ≡ (turn_at b i ws q).0
        → left_at j vs ≤ left_at j ws - hit i j
    turned true i j ws q h e =
        let same = ap (left_at j) e in let less = turn_at-left i j ws q in omega arith
    turned false i j ws q h e = cc

    step-Fewer : (e : Event) (s : DecisionPath F) → s.shutdown ≡ true → Fewer e s (step engine e s)
    unfolding step
    step-Fewer (submit tx) s h =
        let same = process_transaction-Same tx s in
        record {
          filters = λ i. unchanged i s.filters same.filters;
          simulations = λ i. unchanged i s.simulations same.simulations;
          bundles = λ i. unchanged i s.bundles same.bundles;
          shutdown = same.shutdown ∙ h;
        }
    step-Fewer (filter_turn n) s h =
        let t = turn_at s.shutdown n s.filters s.filter_queue in
        let same = filter_done-Same t.2 (record s { filters = t.0; filter_queue = t.1 }) in
        record {
          filters = λ i. turned s.shutdown n i s.filters s.filter_queue h same.filters;
          simulations = λ i. unchanged i s.simulations same.simulations;
          bundles = λ i. unchanged i s.bundles same.bundles;
          shutdown = same.shutdown ∙ h;
        }
    step-Fewer (simulation_turn n seed) s h =
        let t = turn_at s.shutdown n s.simulations s.simulation_queue in
        let same =
          simulation_done-Same seed t.2 (record s { simulations = t.0; simulation_queue = t.1 }) in
        record {
          filters = λ i. unchanged i s.filters same.filters;
          simulations =
              λ i. turned s.shutdown n i s.simulations s.simulation_queue h same.simulations;
          bundles = λ i. unchanged i s.bundles same.bundles;
          shutdown = same.shutdown ∙ h;
        }
    step-Fewer (bundle_turn n) s h =
        let t = turn_at s.shutdown n s.bundles s.bundle_queue in
        let same = bundle_done-Same t.2 (record s { bundles = t.0; bundle_queue = t.1 }) in
        record {
          filters = λ i. unchanged i s.filters same.filters;
          simulations = λ i. unchanged i s.simulations same.simulations;
          bundles = λ i. turned s.shutdown n i s.bundles s.bundle_queue h same.bundles;
          shutdown = same.shutdown ∙ h;
        }
    step-Fewer receive s h = record {
      filters = λ i. unchanged i s.filters refl;
      simulations = λ i. unchanged i s.simulations refl;
      bundles = λ i. unchanged i s.bundles refl;
      shutdown = h;
    }
    step-Fewer shut_down s h = record {
      filters = λ i. unchanged i s.filters refl;
      simulations = λ i. unchanged i s.simulations refl;
      bundles = λ i. unchanged i s.bundles refl;
      shutdown = refl;
    }

    record Ends (es : List Event) (s s' : DecisionPath F) : Type 0 where
      filters : (i : ℕ) → left_at i s'.filters ≤ left_at i s.filters - turns filter_turn_of i es
      simulations :
          (i : ℕ)
          → left_at i s'.simulations ≤ left_at i s.simulations - turns simulation_turn_of i es
      bundles : (i : ℕ) → left_at i s'.bundles ≤ left_at i s.bundles - turns bundle_turn_of i es

    run-Ends :
        (es : List Event) (s : DecisionPath F) → s.shutdown ≡ true → Ends es s (run engine es s)
    unfolding run
    run-Ends [] s h = record {
      filters = λ i. omega arith;
      simulations = λ i. omega arith;
      bundles = λ i. omega arith;
    }
    run-Ends (e ∷ es) s h =
        let first = step-Fewer e s h in
        let rest = run-Ends es (step engine e s) first.shutdown in
        record {
          filters = λ i. let a = first.filters i in let b = rest.filters i in omega arith;
          simulations =
              λ i. let a = first.simulations i in let b = rest.simulations i in omega arith;
          bundles = λ i. let a = first.bundles i in let b = rest.bundles i in omega arith;
        }

    ended :
        {A : Type 0} (i n : ℕ) (vs ws : List (Worker A)) {w : Worker A}
        → left_at i ws ≤ left_at i vs - n
        → 3 ≤ n
        → worker_at i ws ≡ some w
        → w ≡ stopped
    ended i n vs ws {w} fewer h e =
        let most = left_at-le i vs in left_at-stopped i ws {w = w} (omega arith) e

    -- Which workers have stopped in `s`, after the events `es`.
    pub record Stopped (es : List Event) (s : DecisionPath F) : Type 0 where
      pub filters :
          (i : ℕ) {w : Worker ParsedTransaction}
          → 3 ≤ turns filter_turn_of i es
          → worker_at i s.filters ≡ some w
          → w ≡ stopped
      pub simulations :
          (i : ℕ) {w : Worker FilteredTransaction}
          → 3 ≤ turns simulation_turn_of i es
          → worker_at i s.simulations ≡ some w
          → w ≡ stopped
      pub bundles :
          (i : ℕ) {w : Worker (SimulationResult F)}
          → 3 ≤ turns bundle_turn_of i es
          → worker_at i s.bundles ≡ some w
          → w ≡ stopped

    -- After a call of `shutdown` in any state, every worker of every stage stops within three turns of its
    -- own: each of them that has had three turns is out of its loop, whatever the other workers and the
    -- callers do in between, and whatever still waits in the channels.
    pub run-Stopped :
        (es : List Event) (s : DecisionPath F) → Stopped es (run engine (shut_down ∷ es) s)
    unfolding run step
    run-Stopped es s =
        let off = record s { shutdown = true } in
        let end = run engine es off in
        let fewer = run-Ends es off refl in
        record {
          filters = λ i {w} h e.
              ended i (turns filter_turn_of i es) s.filters end.filters {w = w} (fewer.filters i) h
                e;
          simulations = λ i {w} h e.
              ended i (turns simulation_turn_of i es) s.simulations end.simulations {w = w}
                (fewer.simulations i) h e;
          bundles = λ i {w} h e.
              ended i (turns bundle_turn_of i es) s.bundles end.bundles {w = w} (fewer.bundles i) h
                e;
        }
