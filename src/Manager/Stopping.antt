-- ===== src/Manager/Stopping.antt =====
-- `start` and `stop` of the manager, with the two tasks that `start` spawns. A task ends when it
-- finds its own shutdown signal set: that of the manager for the polling, that of the feed's service
-- (`HyperLiquidWsService::shutdown`) for the feed. Neither task panics here.
use botmev.Prelude.{
  ◌≡◌, ◌≢◌, ◌⊎◌, arith, refl, Bool, true, false, ◌||◌, Option, none, some, List, [], ◌∷◌,
  if◌then◌else◌,
}

pub data Task : Type 0 where
  running finished : Task

-- Where a call of `stop` stands: which task it waits for, if it has not returned.
pub data Caller : Type 0 where
  idle awaits_rpc awaits_ws returned : Caller

pub record HyperLiquidServiceManager : Type 0 where
  pub shutdown : Bool
  pub ws_shutdown : Bool
  pub ws_task : Option Task
  pub rpc_task : Option Task
  pub caller : Caller

unfoldable pub new : HyperLiquidServiceManager
new = record {
  shutdown = false;
  ws_shutdown = false;
  ws_task = none;
  rpc_task = none;
  caller = idle;
}

abbrev pub is_some : Option Task → Bool
is_some none = false
is_some (some t) = true

-- `none` is the error "Services are already running".
unfoldable pub start : HyperLiquidServiceManager → Option HyperLiquidServiceManager
start m =
    if is_some m.ws_task || is_some m.rpc_task
    then none
    else some (record m { ws_task = some running; rpc_task = some running })

-- The call of `stop` up to its first wait. The handles stay in the model, so that the tasks can go
-- on; the program takes them out as it waits.
unfoldable pub stop : HyperLiquidServiceManager → HyperLiquidServiceManager
stop m = record m { shutdown = true; caller = awaits_rpc }

-- Who goes on next: the loop of a task, which reads its signal, or the caller of `stop`, which looks
-- whether the task that it waits for has ended.
pub data Turn : Type 0 where
  ws_turn rpc_turn stop_turn : Turn

abbrev pub goes_on : Bool → Option Task → Option Task
goes_on signal none = none
goes_on signal (some finished) = some finished
goes_on signal (some running) = if signal then some finished else some running

-- A wait is over when the task has ended, or when there is no task.
abbrev pub is_over : Option Task → Bool
is_over none = true
is_over (some finished) = true
is_over (some running) = false

abbrev pub waits : Caller → Bool → Bool → Caller
waits awaits_rpc rpc_over ws_over = if rpc_over then awaits_ws else awaits_rpc
waits awaits_ws rpc_over ws_over = if ws_over then returned else awaits_ws
waits c rpc_over ws_over = c

unfoldable pub turn : HyperLiquidServiceManager → Turn → HyperLiquidServiceManager
turn m ws_turn = record m { ws_task = goes_on m.ws_shutdown m.ws_task }
turn m rpc_turn = record m { rpc_task = goes_on m.shutdown m.rpc_task }
turn m stop_turn = record m { caller = waits m.caller (is_over m.rpc_task) (is_over m.ws_task) }

unfoldable pub turns : HyperLiquidServiceManager → List Turn → HyperLiquidServiceManager
turns m [] = m
turns m (t ∷ ts) = turns (turn m t) ts

-- The feed runs and nobody has told it to stop; the polling has been started.
abbrev Runs : HyperLiquidServiceManager → Type 0
Runs m =
    (m.ws_task ≡ some running)
    × (m.ws_shutdown ≡ false)
    × ((m.rpc_task ≡ some running) ⊎ (m.rpc_task ≡ some finished))

-- As above, with a call of `stop` that has not returned.
abbrev Hangs : HyperLiquidServiceManager → Type 0
Hangs m = Runs m × (m.shutdown ≡ true) × (m.caller ≢ returned)

turn-Runs : (m : HyperLiquidServiceManager) (t : Turn) → Runs m → Runs (turn m t)
unfolding turn
turn-Runs m ws_turn v = ground arith
turn-Runs m rpc_turn v = ground arith
turn-Runs m stop_turn v = ground arith

turn-Hangs : (m : HyperLiquidServiceManager) (t : Turn) → Hangs m → Hangs (turn m t)
unfolding turn
turn-Hangs m ws_turn v = ground arith
turn-Hangs m rpc_turn v = ground arith
turn-Hangs m stop_turn v = ground arith

turns-Runs : (m : HyperLiquidServiceManager) (ts : List Turn) → Runs m → Runs (turns m ts)
unfolding turns
turns-Runs m [] v = v
turns-Runs m (t ∷ ts) v = turns-Runs (turn m t) ts (turn-Runs m t v)

turns-Hangs : (m : HyperLiquidServiceManager) (ts : List Turn) → Hangs m → Hangs (turns m ts)
unfolding turns
turns-Hangs m [] v = v
turns-Hangs m (t ∷ ts) v = turns-Hangs (turn m t) ts (turn-Hangs m t v)

start-Runs :
    (m m' : HyperLiquidServiceManager) → start m ≡ some m' → m.ws_shutdown ≡ false → Runs m'
unfolding start
start-Runs m m' h off = ground arith

stop-Hangs : (m : HyperLiquidServiceManager) → Runs m → Hangs (stop m)
unfolding stop
stop-Hangs m v = (v, refl, λ e. cc)

polling_ends :
    (m : HyperLiquidServiceManager) → Hangs m → (turn m rpc_turn).rpc_task ≡ some finished
unfolding turn
polling_ends m v = ground arith

-- Started, and stopped at any time after: whichever tasks go on and however often, the polling ends
-- at its next turn, and the call of `stop` never returns, since nothing sets the signal that the
-- feed's task reads (where nobody has set it before).
pub stop-hangs :
    (m m' : HyperLiquidServiceManager) (before after : List Turn)
    → start m ≡ some m'
    → m.ws_shutdown ≡ false
    → (let s = turns (stop (turns m' before)) after in
        (s.caller ≢ returned)
        × (s.ws_task ≡ some running)
        × ((turn s rpc_turn).rpc_task ≡ some finished))
stop-hangs m m' before after h off =
    let v =
      turns-Hangs (stop (turns m' before)) after
        (stop-Hangs (turns m' before) (turns-Runs m' before (start-Runs m m' h off))) in
    (v.2, v.0.0, polling_ends (turns (stop (turns m' before)) after) v)
