-- ===== src/Builder/Target.antt =====
-- The parts of a bundle that need no signer: the strategies' templates and their validation, the target,
-- the gas prices and the metadata. The texts of a transaction are read, and the metadata printed, by
-- functions of other crates and of `f64`, an interface. The calldata of our own transactions is the
-- fixed placeholder of the source.
use botmev.Prelude.{
  ℕ, ◌+◌, ◌*◌, Bool, true, false, not, Option, none, some, List, [], ◌∷◌, ◌++◌, String, length, ltb,
  ◌==◌, max, if◌then◌else◌,
}
use botmev.Prelude.Dict.{Dict, insert}
use botmev.Prelude.Floats.{F64}
use botmev.Prelude.Results.{Result, ok, err, ok_or, ◌>>=◌}
use botmev.Prelude.Text.{concat}
use botmev.Types.{Transaction}
use botmev.Opportunities.{Opportunity, OpportunityType, arbitrage, backrun, sandwich}
use botmev.Builder.Types.{
  SignedTransaction, TransactionTemplate, BundleParams, Bundle, BundleValidation, fits_u256, scaled,
}
use botmev.Builder.Signer.{SignError, zero_address}

pub record Texts (F : Type 0) : Type 0 where
  -- `str::parse` to `U256`, `Address` and `H256`, and `hex::decode` of calldata without its `0x`.
  pub parse_u256 : String → Option ℕ
  pub parse_address : String → Option String
  pub parse_hash : String → Option String
  pub decode_input : String → Option (List ℕ)
  -- `to_string` of a number and of an `f64`, and the type of an opportunity as `{:?}` prints it.
  pub show : ℕ → String
  pub show_f64 : F → String
  pub show_type : OpportunityType F → String

pub data StrategyBundleBuilder : Type 0 where
  arbitrage_builder backrun_builder sandwich_builder : StrategyBundleBuilder

pub data BuildError : Type 0 where
  no_builder invalid_opportunity invalid_target starting_key panic : BuildError
  signing : SignError → BuildError
  invalid_bundle : List String → BuildError

abbrev pub our_call : ℕ → List ℕ → TransactionTemplate
our_call gas_limit calldata = record {
  to = some zero_address;
  value = 0;
  gas_limit = gas_limit;
  calldata = calldata;
  transaction_type = 2;
}

-- The templates before and after the target.
unfoldable pub build_bundle_transactions :
    {F : Type 0}
    → StrategyBundleBuilder
    → OpportunityType F
    → Option (List TransactionTemplate × List TransactionTemplate)
build_bundle_transactions arbitrage_builder (arbitrage _ _ _ _ _) =
    some ([], our_call 300_000 (0xde ∷ 0xad ∷ 0xbe ∷ 0xef ∷ []) ∷ [])
build_bundle_transactions backrun_builder (backrun _ _ _ _) =
    some ([], our_call 250_000 (0xca ∷ 0xfe ∷ 0xba ∷ 0xbe ∷ []) ∷ [])
build_bundle_transactions sandwich_builder (sandwich _ _ _ _ _) = some (
  our_call 200_000 (0xf0 ∷ 0x0d ∷ 0xfa ∷ 0xce ∷ []) ∷ [],
  our_call 200_000 (0xde ∷ 0xad ∷ 0xc0 ∷ 0xde ∷ []) ∷ [],
)
build_bundle_transactions _ _ = none

abbrev is_empty : List SignedTransaction → Bool
is_empty [] = true
is_empty (t ∷ ts) = false

abbrev text_if : Bool → String → List String
text_if c s = if c then s ∷ [] else []

abbrev errors_of : StrategyBundleBuilder → Bundle → List String
errors_of arbitrage_builder b =
    text_if (is_empty b.post_transactions) "Arbitrage bundle must have post-transactions"
errors_of backrun_builder b =
    text_if (is_empty b.post_transactions) "Backrun bundle must have post-transactions"
errors_of sandwich_builder b =
    text_if (is_empty b.pre_transactions) "Sandwich bundle must have pre-transactions (front-run)"
    ++ text_if (is_empty b.post_transactions)
        "Sandwich bundle must have post-transactions (back-run)"

abbrev warnings_of : StrategyBundleBuilder → Bundle → List String
warnings_of arbitrage_builder b =
    text_if (ltb b.estimated_profit 1_000_000_000_000_000) "Low profit margin for arbitrage"
warnings_of backrun_builder b =
    text_if (not (is_empty b.pre_transactions)) "Backrun typically doesn't need pre-transactions"
warnings_of sandwich_builder b =
    text_if (not (length b.pre_transactions == length b.post_transactions))
      "Unbalanced sandwich transactions"

abbrev no_errors : List String → Bool
no_errors [] = true
no_errors (e ∷ es) = false

abbrev all_transactions : Bundle → List SignedTransaction
all_transactions b = b.pre_transactions ++ b.target_transaction ∷ b.post_transactions

abbrev and_fits : Option ℕ → ℕ → Option ℕ
and_fits none n = none
and_fits (some m) n = fits_u256 (m + n)

abbrev gas_of : Option ℕ → List SignedTransaction → Option ℕ
gas_of acc [] = acc
gas_of acc (t ∷ ts) = gas_of (and_fits acc t.gas_limit) ts

abbrev cost_of : Option ℕ → ℕ → Option ℕ
cost_of none price = none
cost_of (some gas) price = fits_u256 (gas * price)

abbrev validation_with : StrategyBundleBuilder → Bundle → Option ℕ → Option BundleValidation
validation_with s b none = none
validation_with s b (some cost) = some (record {
  is_valid = no_errors (errors_of s b);
  errors = errors_of s b;
  warnings = warnings_of s b;
  estimated_gas_cost = cost;
  estimated_profit = b.estimated_profit;
})

-- `none` is the panic of the gas cost, where it does not fit.
unfoldable pub validate_bundle : StrategyBundleBuilder → Bundle → Option BundleValidation
validate_bundle s b =
    validation_with s b (cost_of (gas_of (some 0) (all_transactions b)) b.max_gas_price)

module _ {F : Type 0} (f : F64 F) (t : Texts F) where
  abbrev pub to_of : Option String → Result BuildError (Option String)
  to_of none = ok none
  to_of (some a) = elim (t.parse_address a) [ none ↦ err invalid_target | some x ↦ ok (some x) ]

  abbrev pub field : {A : Type 0} → Option A → Result BuildError A
  field o = ok_or invalid_target o

  -- Made and not used, but its errors end the call.
  unfoldable pub create_target_template : Transaction → Result BuildError TransactionTemplate
  create_target_template tx = do
    to ← to_of tx.to
    value ← field (t.parse_u256 tx.value)
    gas_limit ← field (t.parse_u256 tx.gas_limit)
    calldata ← field (t.decode_input tx.input)
    ok (record {
      to = to;
      value = value;
      gas_limit = gas_limit;
      calldata = calldata;
      transaction_type = 2;
    })

  -- The target as a signed transaction, with no raw bytes.
  unfoldable pub create_target_signed_transaction :
      Transaction → Result BuildError SignedTransaction
  create_target_signed_transaction tx = do
    hash ← field (t.parse_hash tx.hash)
    sender ← field (t.parse_address tx.sender)
    to ← to_of tx.to
    value ← field (t.parse_u256 tx.value)
    gas_limit ← field (t.parse_u256 tx.gas_limit)
    fee ← field (t.parse_u256 tx.gas_price)
    calldata ← field (t.decode_input tx.input)
    ok (record {
      hash = hash;
      sender = sender;
      to = to;
      value = value;
      gas_limit = gas_limit;
      max_fee_per_gas = fee;
      max_priority_fee_per_gas = 2_000_000_000;
      nonce = tx.nonce;
      calldata = calldata;
      chain_id = 998;
      raw_transaction = [];
      transaction_type = 2;
    })

  abbrev fees_of : Option ℕ → Option ℕ → ℕ → Option (ℕ × ℕ)
  fees_of (some scaled) (some sum) priority_fee = some (max scaled sum, priority_fee)
  fees_of _ _ priority_fee = none

  -- `none` is a panic: a price that does not fit into a `u128`, or a sum that does not fit.
  unfoldable pub calculate_gas_prices : BundleParams F → Option (ℕ × ℕ)
  calculate_gas_prices p =
      fees_of (scaled f p.max_gas_price p.gas_multiplier)
        (fits_u256 (p.max_gas_price + p.max_priority_fee)) p.max_priority_fee

  abbrev with_opportunity_metadata : Dict String → Dict String → Dict String
  with_opportunity_metadata [] m = m
  with_opportunity_metadata ((name, value) ∷ rest) m =
      with_opportunity_metadata rest (insert (concat "opp_" name) value m)

  unfoldable pub create_bundle_metadata : Opportunity F → BundleParams F → Dict String
  create_bundle_metadata o p = with_opportunity_metadata o.metadata (
      insert "gas_multiplier" (t.show_f64 p.gas_multiplier) (
        insert "expiry_seconds" (t.show p.expiry_seconds) (
          insert "priority" (t.show o.priority) (
            insert "confidence_score" (t.show_f64 o.confidence_score) (
              insert "opportunity_type" (t.show_type o.opportunity_type)
                (insert "opportunity_id" o.id (insert "strategy" o.strategy_name [])))))))
