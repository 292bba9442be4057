-- ===== src/FailureHandler/Data.antt =====
-- The types of failure_handler.rs, without the checklist's. Durations are seconds.
use botmev.Prelude.{ℕ, String, Bool, true, Option, List, [], ◌∷◌}
use botmev.Prelude.Dict.{Dict}

pub data FailureType : Type 0 where
  nonce_collision : ℕ → ℕ → FailureType
  gas_underpricing : ℕ → ℕ → FailureType
  reorg : ℕ → ℕ → FailureType
  mempool_eviction : String → FailureType
  execution_failure : String → FailureType
  network_error : String → FailureType
  insufficient_funds : ℕ → ℕ → FailureType
  contract_revert : String → FailureType

pub record FailureConfig : Type 0 where
  pub max_retries : List (FailureType × ℕ)
  pub retry_delays : List (FailureType × ℕ)
  pub auto_rollback : Bool
  pub max_rollback_attempts : ℕ
  pub persist_failures : Bool

abbrev pub default_config : FailureConfig
default_config = record {
  max_retries =
      (nonce_collision 0 0, 3)
      ∷ (gas_underpricing 0 0, 2)
      ∷ (mempool_eviction "", 1)
      ∷ (network_error "", 5)
      ∷ [];
  retry_delays =
      (nonce_collision 0 0, 2)
      ∷ (gas_underpricing 0 0, 5)
      ∷ (mempool_eviction "", 10)
      ∷ (network_error "", 1)
      ∷ [];
  auto_rollback = true;
  max_rollback_attempts = 3;
  persist_failures = true;
}

pub record FailureRecord : Type 0 where
  pub id : String
  pub bundle_id : String
  pub failure_type : FailureType
  pub timestamp : ℕ
  pub retry_count : ℕ
  pub resolved : Bool
  pub resolution_method : Option String
  pub gas_cost : ℕ
  pub metadata : Dict String

pub data RollbackStatus : Type 0 where
  pending in_progress completed : RollbackStatus
  failed : String → RollbackStatus

pub record RollbackOperation : Type 0 where
  pub id : String
  pub bundle_id : String
  pub rollback_transactions : List String
  pub created_at : ℕ
  pub status : RollbackStatus

pub record KillSwitch : Type 0 where
  pub activated : Bool
  pub reason : Option String
  pub activated_at : Option ℕ
  pub activated_by : Option String

pub record FailureStats : Type 0 where
  pub total_failures : ℕ
  pub failures_by_type : Dict ℕ
  pub successful_recoveries : ℕ
  pub failed_recoveries : ℕ
  pub rollbacks_executed : ℕ
  pub kill_switch_activations : ℕ

pub record FailureHandler : Type 0 where
  pub config : FailureConfig
  pub failures : Dict FailureRecord
  pub rollbacks : Dict RollbackOperation
  pub kill_switch : KillSwitch
  pub stats : FailureStats

pub data FailureResolution : Type 0 where
  retry : ℕ → ℕ → FailureResolution
  rollback abort kill_switch kill_switch_activated manual_intervention : FailureResolution

-- What one call reads from outside: two fresh identifiers, the date and the instant.
pub record Inputs : Type 0 where
  pub failure_id : String
  pub rollback_id : String
  pub date : ℕ
  pub instant : ℕ
