-- ===== src/Types.antt =====
-- crates/mev-core/src/types.rs: the transactions that the mempool and the strategies exchange.
-- Numbers in texts (`value`, `gas_price`, `gas_limit`) stay texts, as in the source. A
-- `DateTime<Utc>` is a number of seconds.
use botmev.Prelude.{ℕ, String, Option, List}

pub record Transaction : Type 0 where
  pub hash : String
  pub sender : String
  pub to : Option String
  pub value : String
  pub gas_price : String
  pub gas_limit : String
  pub nonce : ℕ
  pub input : String
  pub timestamp : ℕ

pub record DecodedParameter : Type 0 where
  pub name : String
  pub param_type : String
  pub value : String

pub record DecodedInput : Type 0 where
  pub function_name : String
  pub function_signature : String
  pub parameters : List DecodedParameter

pub data TargetType : Type 0 where
  uniswap_v2 uniswap_v3 sushi_swap curve balancer order_book unknown : TargetType

pub record ParsedTransaction : Type 0 where
  pub transaction : Transaction
  pub decoded_input : Option DecodedInput
  pub target_type : TargetType
  pub processing_time_ms : ℕ
