-- ===== src/DecisionPath/Balance.antt =====
-- Where every transaction is: the pipeline loses none without counting it.
use botmev.Prelude.{
  ℕ, zero, suc, ◌+◌, ◌%◌, ◌≡◌, refl, Bool, Option, none, some, List, [], ◌∷◌, length, arith,
  u64_mod, length-append,
}
use botmev.Types.{ParsedTransaction}
use botmev.Opportunities.{Opportunity}
use botmev.DecisionPath.Workers.{
  Worker, idle, waiting, stopped, holding, turn, turn_at, spawn, try_send,
}
use botmev.DecisionPath.Start.{start-started}
use botmev.DecisionPath.Defs.{
  DecisionPath, DecisionPathConfig, Event, submit, filter_turn, simulation_turn, bundle_turn,
  receive, shut_down, new, start, step, run, process_transaction, filter_done, simulation_done,
  bundle_done, FilteredTransaction, SimulationResult,
}

module _ {A : Type 0} where
  abbrev pub held : Worker A → ℕ
  held (holding a) = 1
  held idle = 0
  held waiting = 0
  held stopped = 0

  abbrev pub held_by : List (Worker A) → ℕ
  held_by [] = 0
  held_by (w ∷ ws) = held w + held_by ws

  abbrev pub count : Option A → ℕ
  count none = 0
  count (some a) = 1

  turn-held :
      (down : Bool) (w : Worker A) (q : List A)
      → let (w', q', done) = turn down w q in held w' + length q' + count done ≡ held w + length q
  unfolding turn
  turn-held down idle q = ground arith
  turn-held down waiting [] = refl
  turn-held down waiting (a ∷ q) = omega arith
  turn-held down stopped q = omega arith
  turn-held down (holding a) q = omega arith

  turn_at-held :
      (down : Bool) (i : ℕ) (ws : List (Worker A)) (q : List A)
      → let (ws', q', done) = turn_at down i ws q in
        held_by ws' + length q' + count done ≡ held_by ws + length q
  unfolding turn_at
  turn_at-held down i [] q = omega arith
  turn_at-held down zero (w ∷ ws) q = omega (arith, turn-held down w q)
  turn_at-held down (suc i) (w ∷ ws) q = omega (arith, turn_at-held down i ws q)

module _ {F : Type 0} where
  -- The transactions in a channel or with a worker.
  abbrev pub under_way : DecisionPath F → ℕ
  under_way s =
      held_by s.filters
      + length s.filter_queue
      + (held_by s.simulations + length s.simulation_queue)
      + (held_by s.bundles + length s.bundle_queue)

  abbrev pub accounted : DecisionPath F → ℕ
  accounted s =
      under_way s
      + s.dropped_filter
      + s.filtered_out
      + s.dropped_simulation
      + s.dropped_bundle
      + s.processed_count

  process_transaction-accounted :
      (tx : ParsedTransaction) (s : DecisionPath F)
      → accounted (process_transaction tx s) ≡ accounted s + 1
  unfolding process_transaction try_send
  process_transaction-accounted tx s = ground (arith, length-append s.filter_queue (tx ∷ []))

  filter_done-accounted :
      (done : Option ParsedTransaction) (s : DecisionPath F)
      → accounted (filter_done done s) ≡ accounted s + count done
  unfolding filter_done try_send
  filter_done-accounted none s = omega arith
  filter_done-accounted (some tx) s =
      ground
        (arith, length-append s.simulation_queue (record { transaction = tx; priority = 128 } ∷ []))

  bundle_done-accounted :
      (done : Option (SimulationResult F)) (s : DecisionPath F)
      → accounted (bundle_done done s) % u64_mod ≡ (accounted s + count done) % u64_mod
  unfolding bundle_done try_send
  bundle_done-accounted none s = omega arith
  bundle_done-accounted (some r) s = ground arith

pub held_by-spawn : (A : Type 0) (n : ℕ) → held_by {A = A} (spawn n) ≡ 0
unfolding spawn
held_by-spawn A zero = refl
held_by-spawn A (suc n) = omega (arith, held_by-spawn A n)

abbrev pub is_submit : Event → ℕ
is_submit (submit tx) = 1
is_submit _ = 0

abbrev pub submitted : List Event → ℕ
submitted [] = 0
submitted (e ∷ es) = is_submit e + submitted es

module _ {F : Type 0} (engine : ℕ → ParsedTransaction → List (Opportunity F)) where
  simulation_done-accounted :
      (seed : ℕ) (done : Option FilteredTransaction) (s : DecisionPath F)
      → accounted (simulation_done engine seed done s) ≡ accounted s + count done
  unfolding simulation_done try_send
  simulation_done-accounted seed none s = omega arith
  simulation_done-accounted seed (some tx) s = ground (
    arith,
    length-append s.bundle_queue
        (record { transaction = tx.transaction; opportunities = engine seed tx.transaction } ∷ []),
  )

  step-accounted :
      (e : Event) (s : DecisionPath F)
      → accounted (step engine e s) % u64_mod ≡ (accounted s + is_submit e) % u64_mod
  unfolding step
  step-accounted (submit tx) s = omega (arith, process_transaction-accounted tx s)
  step-accounted (filter_turn i) s =
      let (ws, q, done) = turn_at s.shutdown i s.filters s.filter_queue in
      omega (
        arith,
        turn_at-held s.shutdown i s.filters s.filter_queue,
        filter_done-accounted done (record s { filters = ws; filter_queue = q }),
      )
  step-accounted (simulation_turn i seed) s =
      let (ws, q, done) = turn_at s.shutdown i s.simulations s.simulation_queue in
      omega (
        arith,
        turn_at-held s.shutdown i s.simulations s.simulation_queue,
        simulation_done-accounted seed done (record s { simulations = ws; simulation_queue = q }),
      )
  step-accounted (bundle_turn i) s =
      let (ws, q, done) = turn_at s.shutdown i s.bundles s.bundle_queue in
      omega (
        arith,
        turn_at-held s.shutdown i s.bundles s.bundle_queue,
        bundle_done-accounted done (record s { bundles = ws; bundle_queue = q }),
      )
  step-accounted receive s = omega arith
  step-accounted shut_down s = omega arith

  run-accounted :
      (es : List Event) (s : DecisionPath F)
      → accounted (run engine es s) % u64_mod ≡ (accounted s + submitted es) % u64_mod
  unfolding run
  run-accounted [] s = omega arith
  run-accounted (e ∷ es) s = omega (arith, step-accounted e s, run-accounted es (step engine e s))

  started-accounted :
      (c : DecisionPathConfig) {s : DecisionPath F} → start (new c) ≡ some s → accounted s ≡ 0
  unfolding new
  started-accounted c {s} h = rw (start-started c {s = s} h) (
      omega (
        arith,
        held_by-spawn ParsedTransaction c.filter_workers,
        held_by-spawn FilteredTransaction c.simulation_workers,
        held_by-spawn (SimulationResult F) c.bundle_workers,
      ))

  -- Whatever the transactions, the strategies and the order in which the workers take their turns, also
  -- during and after a shutdown: every transaction that was submitted since the start waits in a
  -- channel, is with a worker, or has been counted exactly once, as dropped at one of the three
  -- channels, as filtered out or as processed (up to the wrap-around of the last count, a `u64`).
  pub started_run-accounted :
      (c : DecisionPathConfig) (es : List Event) {s : DecisionPath F}
      → start (new c) ≡ some s
      → accounted (run engine es s) % u64_mod ≡ submitted es % u64_mod
  started_run-accounted c es {s} h =
      omega (arith, started-accounted c {s = s} h, run-accounted es s)
