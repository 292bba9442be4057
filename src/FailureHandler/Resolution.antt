-- ===== src/FailureHandler/Resolution.antt =====
-- How each kind of failure is resolved, and what is recorded of it.
use botmev.Prelude.{◌≡◌, String, Bool, true, false, ◌&&◌, Option, some, [], arith, add64}
use botmev.Prelude.Dict.{Dict, insert, insert-insert, lookup-insert_self}
use botmev.FailureHandler.Defs.{
  FailureHandler, FailureType, FailureRecord, FailureResolution, RollbackOperation, RollbackStatus,
  Inputs, nonce_collision, gas_underpricing, reorg, mempool_eviction, execution_failure,
  network_error, insufficient_funds, contract_revert, retry, rollback, abort, manual_intervention,
  failure_record, resolved_by, handle_failure,
}

abbrev pub rolled_back : Bool → FailureResolution
rolled_back true = rollback
rolled_back false = manual_intervention

-- The answer to a failure, by its kind and `auto_rollback`.
abbrev pub answer : Bool → FailureType → FailureResolution
answer auto (nonce_collision e a) = retry 2 3
answer auto (gas_underpricing r p) = retry 5 2
answer auto (reorg o n) = rolled_back auto
answer auto (mempool_eviction r) = rollback
answer auto (execution_failure e) = rolled_back auto
answer auto (network_error e) = retry 1 5
answer auto (insufficient_funds r a) = abort
answer auto (contract_revert r) = rolled_back auto

-- What becomes of the record of the failure.
abbrev pub settled : FailureType → FailureRecord → FailureRecord
settled (nonce_collision e a) f = record f { retry_count = 1 }
settled (gas_underpricing r p) f = record f { retry_count = 1 }
settled (mempool_eviction r) f = resolved_by "max_retries_exceeded" (record f { retry_count = 1 })
settled (network_error e) f = record f { retry_count = 1 }
settled (insufficient_funds r a) f = resolved_by "aborted" f
settled _ f = f

abbrev pub needs_rollback : FailureType → Bool
needs_rollback (reorg o n) = true
needs_rollback (execution_failure e) = true
needs_rollback (contract_revert r) = true
needs_rollback _ = false

abbrev pub completed_rollback : Inputs → String → RollbackOperation
completed_rollback i bundle_id = record {
  id = i.rollback_id;
  bundle_id = bundle_id;
  rollback_transactions = [];
  created_at = i.instant;
  status = RollbackStatus.completed;
}

-- A rollback is carried out for the kinds that need one, and counted; no other.
abbrev pub RolledBack : Inputs → String → Bool → FailureHandler → FailureHandler → Type 0
RolledBack i bundle_id true h h' =
    (h'.rollbacks ≡ insert i.rollback_id (completed_rollback i bundle_id) h.rollbacks)
    × (h'.stats.rollbacks_executed ≡ add64 h.stats.rollbacks_executed 1)
RolledBack i bundle_id false h h' =
    (h'.rollbacks ≡ h.rollbacks) × (h'.stats.rollbacks_executed ≡ h.stats.rollbacks_executed)

abbrev pub Resolved :
    Inputs
    → String
    → FailureType
    → FailureRecord
    → FailureHandler
    → Option FailureResolution × FailureHandler
    → Type 0
Resolved i bundle_id t f h (r, h') =
    (r ≡ some (answer h.config.auto_rollback t))
    × (h'.failures ≡ insert i.failure_id (settled t f) h.failures)
    × RolledBack i bundle_id (needs_rollback t && h.config.auto_rollback) h h'
    × (h'.kill_switch ≡ h.kill_switch)

-- With the kill switch off, every failure gets the answer of its kind, its record stands under the
-- new identifier, a rollback is carried out exactly for a reorg, a failed execution or a revert
-- with `auto_rollback`, and the kill switch is not touched.
pub handle_failure-Resolved :
    (i : Inputs) (bundle_id : String) (t : FailureType) (metadata : Dict String)
    (h : FailureHandler)
    → h.kill_switch.activated ≡ false
    → Resolved i bundle_id t
        (failure_record i bundle_id t metadata)
        h
        (handle_failure i bundle_id t metadata h)
unfolding handle_failure
handle_failure-Resolved i bundle_id (nonce_collision e a) metadata h off =
    let f = failure_record i bundle_id (nonce_collision e a) metadata in
    let op = record (completed_rollback i bundle_id) { status = RollbackStatus.pending } in
    ground (
      arith,
      lookup-insert_self i.failure_id f h.failures,
      insert-insert i.failure_id f (settled (nonce_collision e a) f) h.failures,
      lookup-insert_self i.rollback_id op h.rollbacks,
      insert-insert i.rollback_id op (completed_rollback i bundle_id) h.rollbacks,
    )
handle_failure-Resolved i bundle_id t metadata h off =
    let f = failure_record i bundle_id t metadata in
    let op = record (completed_rollback i bundle_id) { status = RollbackStatus.pending } in
    ground (
      arith,
      lookup-insert_self i.failure_id f h.failures,
      insert-insert i.failure_id f (settled t f) h.failures,
      lookup-insert_self i.rollback_id op h.rollbacks,
      insert-insert i.rollback_id op (completed_rollback i bundle_id) h.rollbacks,
    )
