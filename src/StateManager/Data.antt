-- ===== src/StateManager/Data.antt =====
-- The types of state_manager.rs. Times are nanoseconds: a `DateTime<Utc>` since the epoch, an
-- `Instant` since the start.
use botmev.Prelude.{ℕ, String, Bool, true, Option, List}
use botmev.Prelude.Dict.{Dict}

pub record BlockHeader : Type 0 where
  pub number : ℕ
  pub hash : String
  pub parent_hash : String
  pub timestamp : ℕ
  pub gas_limit : ℕ
  pub gas_used : ℕ
  pub difficulty : String
  pub nonce : String

-- `now` is `Utc::now().timestamp()`.
abbrev pub new_header : ℕ → ℕ → String → String → BlockHeader
new_header now number hash parent_hash = record {
  number = number;
  hash = hash;
  parent_hash = parent_hash;
  timestamp = now;
  gas_limit = 30_000_000;
  gas_used = 0;
  difficulty = "0x0";
  nonce = "0x0";
}

pub data TransactionStatus : Type 0 where
  pending included dropped replaced : TransactionStatus

pub record PendingTransactionState : Type 0 where
  pub hash : String
  pub sender : String
  pub to : Option String
  pub nonce : ℕ
  pub gas_price : ℕ
  pub gas_limit : ℕ
  pub value : String
  pub payload : String
  pub first_seen : ℕ
  pub last_seen : ℕ
  pub seen_count : ℕ
  pub block_number : Option ℕ
  pub block_hash : Option String
  pub status : TransactionStatus

pub record ReorgEvent : Type 0 where
  pub old_chain : List BlockHeader
  pub new_chain : List BlockHeader
  pub common_ancestor : BlockHeader
  pub depth : ℕ
  pub detected_at : ℕ
  pub affected_transactions : List String

pub record StateManagerConfig : Type 0 where
  pub max_pending_transactions : ℕ
  pub max_block_history : ℕ
  pub transaction_ttl_seconds : ℕ
  pub reorg_detection_depth : ℕ
  pub checkpoint_interval_seconds : ℕ
  pub enable_persistence : Bool
  pub database_path : String

abbrev pub default_config : StateManagerConfig
default_config = record {
  max_pending_transactions = 100_000;
  max_block_history = 1000;
  transaction_ttl_seconds = 300;
  reorg_detection_depth = 64;
  checkpoint_interval_seconds = 60;
  enable_persistence = true;
  database_path = "mev_state.db";
}

-- Deques and vectors are lists, front first.
pub record StateManager : Type 0 where
  pub config : StateManagerConfig
  pub block_headers : List BlockHeader
  pub current_head : Option BlockHeader
  pub pending_transactions : Dict PendingTransactionState
  pub nonce_tracker : Dict ℕ
  pub reorg_events : List ReorgEvent
  pub last_checkpoint : ℕ
