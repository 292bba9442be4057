-- ===== src/FailureHandler/Tests.antt =====
-- Failures and turns of the switch on a new handler, and the theorems at concrete inputs.
use botmev.Prelude.{◌≡◌, refl, none, some, List, [], ◌∷◌}
use botmev.Prelude.Dict.{lookup, insert}
use botmev.FailureHandler.Defs
use botmev.FailureHandler.Defs.{
  FailureHandler, FailureType, Inputs, Command, fails, activates, deactivates, default_config,
  mempool_eviction, reorg, nonce_collision, rollback, retry, failure_record, handle_failure, run,
  step, resolve, activate_kill_switch, deactivate_kill_switch, get_active_failures,
}
use botmev.FailureHandler.Resolution.{Resolved, handle_failure-Resolved}

abbrev start : FailureHandler
start = Defs.new default_config

abbrev inputs : Inputs
inputs = record { failure_id = "f1"; rollback_id = "r1"; date = 10; instant = 5 }

abbrev history : List Command
history =
    fails inputs "b1" (nonce_collision 1 2) []
    ∷ activates 7 "operator" none
    ∷ fails inputs "b2" (reorg 4 5) []
    ∷ deactivates "operator"
    ∷ []

-- An evicted transaction is never sent again: the one attempt that it is allowed is used up when
-- it is reported, and no rollback is recorded although one is announced.
eviction_is_final :
    let (r, h) = handle_failure inputs "b1" (mempool_eviction "low fee") [] start in
    (r ≡ some rollback) × (h.rollbacks ≡ []) × (get_active_failures h ≡ [])
unfolding handle_failure Defs.new lookup insert get_active_failures
eviction_is_final = (refl, refl, refl)

counted_once : (run start history).stats.kill_switch_activations ≡ 1
unfolding run step handle_failure activate_kill_switch deactivate_kill_switch Defs.new lookup insert
counted_once = refl

handle_failure-Resolved_example :
    Resolved inputs "b1"
      (reorg 4 5)
      (failure_record inputs "b1" (reorg 4 5) [])
      start
      (handle_failure inputs "b1" (reorg 4 5) [] start)
unfolding Defs.new
handle_failure-Resolved_example = handle_failure-Resolved inputs "b1" (reorg 4 5) [] start refl
