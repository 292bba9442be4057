-- ===== src/FailureHandler/Defs.antt =====
-- `FailureHandler`, operation by operation, one call at a time. The identifiers that the source
-- makes from random UUIDs and the instants that it reads are arguments; the waits between the
-- attempts change no state and are left out, and so are the log lines. Durations are seconds.
-- An operation's result is `none` where the source returns `Err`.
use botmev.Prelude.{
  ℕ, ◌+◌, ◌-◌, String, true, false, not, Option, none, some, List, [], ◌∷◌, ltb, leb, if◌then◌else◌,
  add32, add64, keep_if,
}
use botmev.Prelude.Dict.{Dict, lookup, insert, retain, values}
pub use botmev.FailureHandler.Data.{
  FailureType, nonce_collision, gas_underpricing, reorg, mempool_eviction, execution_failure,
  network_error, insufficient_funds, contract_revert, FailureConfig, default_config, FailureRecord,
  RollbackStatus, pending, in_progress, completed, failed, RollbackOperation, KillSwitch,
  FailureStats, FailureHandler, FailureResolution, retry, rollback, abort, kill_switch,
  kill_switch_activated, manual_intervention, Inputs,
}

unfoldable pub new : FailureConfig → FailureHandler
new config = record {
  config = config;
  failures = [];
  rollbacks = [];
  kill_switch = record {
    activated = false;
    reason = none;
    activated_at = none;
    activated_by = none;
  };
  stats = record {
    total_failures = 0;
    failures_by_type = [];
    successful_recoveries = 0;
    failed_recoveries = 0;
    rollbacks_executed = 0;
    kill_switch_activations = 0;
  };
}

-- The word with which `format!("{:?}", failure_type)` begins.
abbrev pub type_key : FailureType → String
type_key (nonce_collision e a) = "NonceCollision"
type_key (gas_underpricing r p) = "GasUnderpricing"
type_key (reorg o n) = "Reorg"
type_key (mempool_eviction r) = "MempoolEviction"
type_key (execution_failure e) = "ExecutionFailure"
type_key (network_error e) = "NetworkError"
type_key (insufficient_funds r a) = "InsufficientFunds"
type_key (contract_revert r) = "ContractRevert"

abbrev pub count_of : Option ℕ → ℕ
count_of none = 0
count_of (some n) = n

unfoldable pub update_failure_stats : FailureType → FailureStats → FailureStats
update_failure_stats t s =
    let k = type_key t in
    let n = add64 (count_of (lookup k s.failures_by_type)) 1 in
    record s {
      total_failures = add64 s.total_failures 1;
      failures_by_type = insert k n s.failures_by_type;
    }

unfoldable pub determine_resolution_strategy : FailureType → FailureResolution
determine_resolution_strategy (nonce_collision e a) = retry 2 3
determine_resolution_strategy (gas_underpricing r p) = retry 5 2
determine_resolution_strategy (reorg o n) = rollback
determine_resolution_strategy (mempool_eviction r) = retry 10 1
determine_resolution_strategy (execution_failure e) = rollback
determine_resolution_strategy (network_error e) = retry 1 5
determine_resolution_strategy (insufficient_funds r a) = abort
determine_resolution_strategy (contract_revert r) = rollback

abbrev pub resolved_by : String → FailureRecord → FailureRecord
resolved_by how f = record f { resolved = true; resolution_method = some how }

retry_record :
    ℕ
    → ℕ
    → String
    → FailureHandler
    → Option FailureRecord
    → Option FailureResolution × FailureHandler
retry_record delay max_attempts id h none = (none, h)
retry_record delay max_attempts id h (some f) =
    let f' = record f { retry_count = add32 f.retry_count 1 } in
    if leb max_attempts f'.retry_count
    then (
      some rollback,
      record h { failures = insert id (resolved_by "max_retries_exceeded" f') h.failures },
    )
    else (some (retry delay max_attempts), record h { failures = insert id f' h.failures })

unfoldable pub handle_retry :
    String → ℕ → ℕ → FailureHandler → Option FailureResolution × FailureHandler
unfolding retry_record
handle_retry id delay max_attempts h = retry_record delay max_attempts id h (lookup id h.failures)

-- The operation goes through `InProgress`, within the same lock, to `Completed`.
finish_rollback : String → FailureHandler → Option RollbackOperation → Option FailureHandler
finish_rollback id h none = none
finish_rollback id h (some r) =
    some (record h { rollbacks = insert id (record r { status = completed }) h.rollbacks })

unfoldable pub execute_rollback : String → FailureHandler → Option FailureHandler
unfolding finish_rollback
execute_rollback id h = finish_rollback id h (lookup id h.rollbacks)

count_rollback : FailureHandler → Option FailureHandler → Option FailureResolution × FailureHandler
count_rollback h none = (none, h)
count_rollback h (some h') = (
  some rollback,
  record h' {
    stats = record (h'.stats) { rollbacks_executed = add64 h'.stats.rollbacks_executed 1 };
  },
)

unfoldable pub initiate_rollback :
    Inputs → String → FailureHandler → Option FailureResolution × FailureHandler
unfolding execute_rollback count_rollback
initiate_rollback i bundle_id h =
    if not h.config.auto_rollback
    then (some manual_intervention, h)
    else (let op : RollbackOperation = record {
      id = i.rollback_id;
      bundle_id = bundle_id;
      rollback_transactions = [];
      created_at = i.instant;
      status = pending;
    } in
        let h' = record h { rollbacks = insert i.rollback_id op h.rollbacks } in
        count_rollback h' (execute_rollback i.rollback_id h'))

abort_record :
    String → FailureHandler → Option FailureRecord → Option FailureResolution × FailureHandler
abort_record id h none = (none, h)
abort_record id h (some f) =
    (some abort, record h { failures = insert id (resolved_by "aborted" f) h.failures })

unfoldable pub abort_operation : String → FailureHandler → Option FailureResolution × FailureHandler
unfolding abort_record
abort_operation id h = abort_record id h (lookup id h.failures)

unfoldable pub activate_kill_switch :
    ℕ → String → Option String → FailureHandler → FailureResolution × FailureHandler
activate_kill_switch instant reason activated_by h =
    if h.kill_switch.activated then (kill_switch_activated, h) else (
      kill_switch_activated,
      record h {
        kill_switch = record {
          activated = true;
          reason = some reason;
          activated_at = some instant;
          activated_by = activated_by;
        };
        stats = record (h.stats) {
          kill_switch_activations = add64 h.stats.kill_switch_activations 1;
        };
      },
    )

-- `none` is the error "Kill switch is not activated".
unfoldable pub deactivate_kill_switch : String → FailureHandler → Option FailureHandler
deactivate_kill_switch deactivated_by h =
    if not h.kill_switch.activated
    then none
    else some (record h {
      kill_switch = record {
        activated = false;
        reason = none;
        activated_at = none;
        activated_by = some deactivated_by;
      };
    })

abbrev pub failure_record : Inputs → String → FailureType → Dict String → FailureRecord
failure_record i bundle_id t metadata = record {
  id = i.failure_id;
  bundle_id = bundle_id;
  failure_type = t;
  timestamp = i.date;
  retry_count = 0;
  resolved = false;
  resolution_method = none;
  gas_cost = 0;
  metadata = metadata;
}

unfoldable pub resolve :
    Inputs → String → FailureResolution → FailureHandler → Option FailureResolution × FailureHandler
unfolding handle_retry initiate_rollback abort_operation activate_kill_switch
resolve i bundle_id (retry delay max_attempts) h = handle_retry i.failure_id delay max_attempts h
resolve i bundle_id rollback h = initiate_rollback i bundle_id h
resolve i bundle_id abort h = abort_operation i.failure_id h
resolve i bundle_id kill_switch h =
    let (r, h') =
      activate_kill_switch i.instant "Automatic activation due to critical failure" none h in
    (some r, h')
resolve i bundle_id other h = (some other, h)

unfoldable pub handle_failure :
    Inputs
    → String
    → FailureType
    → Dict String
    → FailureHandler
    → Option FailureResolution × FailureHandler
unfolding determine_resolution_strategy update_failure_stats resolve
handle_failure i bundle_id t metadata h =
    if h.kill_switch.activated
    then (some kill_switch_activated, h)
    else (let h' = record h {
      failures = insert i.failure_id (failure_record i bundle_id t metadata) h.failures;
      stats = update_failure_stats t h.stats;
    } in
        resolve i bundle_id (determine_resolution_strategy t) h')

unfoldable pub get_active_failures : FailureHandler → List FailureRecord
get_active_failures h = keep_if (λ f. not f.resolved) (values h.failures)

unfoldable pub get_rollback_operations : FailureHandler → List RollbackOperation
get_rollback_operations h = values h.rollbacks

-- `failure.timestamp > now - max_age`, with the subtraction carried over, and
-- `rollback.created_at.elapsed() < max_age`.
unfoldable pub cleanup_old_records : ℕ → ℕ → ℕ → FailureHandler → FailureHandler
cleanup_old_records date instant max_age h = record h {
  failures = retain (λ f. ltb date (f.timestamp + max_age)) h.failures;
  rollbacks = retain (λ r. ltb (instant - r.created_at) max_age) h.rollbacks;
}

-- What the bot and its operators ask of a handler.
pub data Command : Type 0 where
  fails : Inputs → String → FailureType → Dict String → Command
  activates : ℕ → String → Option String → Command
  deactivates : String → Command
  cleans : ℕ → ℕ → ℕ → Command

abbrev pub handler_or : FailureHandler → Option FailureHandler → FailureHandler
handler_or h none = h
handler_or h (some h') = h'

unfoldable pub step : FailureHandler → Command → FailureHandler
step h (fails i bundle_id t metadata) = (handle_failure i bundle_id t metadata h).1
step h (activates instant reason by) = (activate_kill_switch instant reason by h).1
step h (deactivates by) = handler_or h (deactivate_kill_switch by h)
step h (cleans date instant max_age) = cleanup_old_records date instant max_age h

unfoldable pub run : FailureHandler → List Command → FailureHandler
unfolding step
run h [] = h
run h (c ∷ cs) = run (step h c) cs
