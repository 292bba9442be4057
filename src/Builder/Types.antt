-- ===== src/Builder/Types.antt =====
-- The records of crates/mev-core/src/bundle/types.rs as the builder fills them. Addresses and hashes
-- are their texts, bytes are numbers.
use botmev.Prelude.{ℕ, ◌^◌, Bool, Option, none, some, List, String, ltb, if◌then◌else◌}
use botmev.Prelude.Dict.{Dict}
use botmev.Prelude.Floats.{F64}

pub record SignedTransaction : Type 0 where
  pub hash : String
  pub sender : String
  pub to : Option String
  pub value : ℕ
  pub gas_limit : ℕ
  pub max_fee_per_gas : ℕ
  pub max_priority_fee_per_gas : ℕ
  pub nonce : ℕ
  pub calldata : List ℕ
  pub chain_id : ℕ
  pub raw_transaction : List ℕ
  pub transaction_type : ℕ

pub record TransactionTemplate : Type 0 where
  pub to : Option String
  pub value : ℕ
  pub gas_limit : ℕ
  pub calldata : List ℕ
  pub transaction_type : ℕ

pub record BundleParams (F : Type 0) : Type 0 where
  pub strategy_name : String
  pub target_block : ℕ
  pub max_gas_price : ℕ
  pub max_priority_fee : ℕ
  pub gas_multiplier : F
  pub min_profit_wei : ℕ
  pub expiry_seconds : ℕ

unfoldable pub default_params : {F : Type 0} → F64 F → BundleParams F
default_params f = record {
  strategy_name = "unknown";
  target_block = 0;
  max_gas_price = 200_000_000_000;
  max_priority_fee = 2_000_000_000;
  gas_multiplier = f.decimal 11 1;
  min_profit_wei = 1_000_000_000_000_000;
  expiry_seconds = 30;
}

pub data NonceStrategy : Type 0 where
  network sequential : NonceStrategy
  fixed : ℕ → NonceStrategy

pub record Bundle : Type 0 where
  pub id : String
  pub pre_transactions : List SignedTransaction
  pub target_transaction : SignedTransaction
  pub post_transactions : List SignedTransaction
  pub target_block : ℕ
  pub max_gas_price : ℕ
  pub estimated_profit : ℕ
  pub created_at : ℕ
  pub metadata : Dict String

pub record BundleValidation : Type 0 where
  pub is_valid : Bool
  pub errors : List String
  pub warnings : List String
  pub estimated_gas_cost : ℕ
  pub estimated_profit : ℕ

-- `U256` panics on overflow.
abbrev pub fits_u256 : ℕ → Option ℕ
fits_u256 n = if ltb n (2 ^ 256) then some n else none

-- A price times a factor; `as_u128` panics on a price that does not fit.
abbrev pub scaled : {F : Type 0} → F64 F → ℕ → F → Option ℕ
scaled f n multiplier =
    if ltb n (2 ^ 128) then some (f.to_u128 (f.mul (f.of_u128 n) multiplier)) else none
