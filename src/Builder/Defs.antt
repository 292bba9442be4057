-- ===== src/Builder/Defs.antt =====
-- `BundleBuilder`: the signing of a bundle's transactions, with the signer's state passed along.
use botmev.Prelude.{
  ℕ, suc, ◌+◌, ◌^◌, Option, none, some, List, [], ◌∷◌, String, length, ltb, if◌then◌else◌,
}
use botmev.Prelude.Dict.{Dict, lookup, insert}
use botmev.Prelude.Floats.{F64}
use botmev.Prelude.Results.{Result, ok, err, unwrap_or, ok_or}
use botmev.Opportunities.{Opportunity}
use botmev.Builder.Keys.{Wallets, KeyError, get_default_wallet}
use botmev.Builder.Types.{
  SignedTransaction, TransactionTemplate, BundleParams, default_params, fixed, Bundle,
  BundleValidation,
}
use botmev.Builder.Signer.{
  TransactionSigner, Eip1559TransactionRequest, SignError, sign_transaction, get_tracked_nonce,
}
use botmev.Builder.Target.{
  Texts, StrategyBundleBuilder, BuildError, no_builder, invalid_opportunity, starting_key, panic,
  signing, invalid_bundle, build_bundle_transactions, validate_bundle, create_target_template,
  create_target_signed_transaction, calculate_gas_prices, create_bundle_metadata,
}

pub record BundleBuilder (W F : Type 0) : Type 0 where
  pub signer : TransactionSigner W
  pub default_params : BundleParams F
  pub strategy_builders : Dict StrategyBundleBuilder

module _ {W F : Type 0} where
  unfoldable pub with_params : TransactionSigner W → BundleParams F → BundleBuilder W F
  with_params signer params = record {
    signer = signer;
    default_params = params;
    strategy_builders = [];
  }

  unfoldable pub new : F64 F → TransactionSigner W → BundleBuilder W F
  unfolding with_params
  new f signer = with_params signer (default_params f)

  unfoldable pub register_strategy_builder :
      String → StrategyBundleBuilder → BundleBuilder W F → BundleBuilder W F
  register_strategy_builder name s b = record b {
    strategy_builders = insert name s b.strategy_builders;
  }

abbrev pub Build : Type 0 → Type 0 → Type 0
Build W A = TransactionSigner W → Result BuildError A × TransactionSigner W

abbrev pub then_with :
    {W A B : Type 0}
    → Result BuildError A × TransactionSigner W
    → (A → Build W B)
    → Result BuildError B × TransactionSigner W
then_with (err e, s) f = (err e, s)
then_with (ok a, s) f = f a s

infixl 5 ◌>>=◌
abbrev pub ◌>>=◌ : {W A B : Type 0} → Build W A → (A → Build W B) → Build W B
◌>>=◌ m f s = then_with (m s) f

-- What does not touch the signer.
abbrev pub lift : {W A : Type 0} → Result BuildError A → Build W A
lift r s = (r, s)

abbrev pub signed : {A : Type 0} → Result SignError A → Result BuildError A
signed (err e) = err (signing e)
signed (ok a) = ok a

module _ {W F : Type 0} (k : Wallets W)
    (sign : W → Eip1559TransactionRequest → Option (String × List ℕ)) (f : F64 F)
    (t : Texts F) where
  abbrev pub nonce_from : Result KeyError W → TransactionSigner W → Result BuildError ℕ
  nonce_from (err e) s = err starting_key
  nonce_from (ok w) s = ok (unwrap_or 0 (get_tracked_nonce (k.address w) s))

  unfoldable pub get_starting_nonce : Build W ℕ
  get_starting_nonce s = (nonce_from (get_default_wallet k s.key_manager) s, s)

  abbrev pub as_built :
      {A : Type 0}
      → Result SignError A × TransactionSigner W
      → Result BuildError A × TransactionSigner W
  as_built (r, s) = (signed r, s)

  -- One template, with a nonce of its own; `as_u64` panics on a larger one.
  abbrev pub sign_one : TransactionTemplate → ℕ → ℕ → ℕ → Build W SignedTransaction
  sign_one template nonce fee priority_fee s =
      if ltb nonce (2 ^ 64)
      then as_built (sign_transaction k sign template (fixed nonce) fee priority_fee s)
      else (err panic, s)

  unfoldable pub sign_all : List TransactionTemplate → ℕ → ℕ → ℕ → Build W (List SignedTransaction)
  sign_all [] nonce fee priority_fee = lift (ok [])
  sign_all (template ∷ templates) nonce fee priority_fee = do
    tx ← sign_one template nonce fee priority_fee
    txs ← sign_all templates (suc nonce) fee priority_fee
    lift (ok (tx ∷ txs))

  abbrev pub validated : Option BundleValidation → Bundle → Result BuildError Bundle
  validated none b = err panic
  validated (some v) b = if v.is_valid then ok b else err (invalid_bundle v.errors)

  abbrev pub bundle_of :
      Opportunity F
      → BundleParams F
      → String
      → ℕ
      → List SignedTransaction
      → SignedTransaction
      → List SignedTransaction
      → Bundle
  bundle_of o p id now pre target post = record {
    id = id;
    pre_transactions = pre;
    target_transaction = target;
    post_transactions = post;
    target_block = p.target_block;
    max_gas_price = p.max_gas_price;
    estimated_profit = o.estimated_profit_wei;
    created_at = now;
    metadata = create_bundle_metadata f t o p;
  }

  -- From the first nonce on; `id` and `now` are the fresh identifier and the time.
  unfoldable pub sign_bundle :
      StrategyBundleBuilder
      → Opportunity F
      → BundleParams F
      → String
      → ℕ
      → List TransactionTemplate × List TransactionTemplate
      → ℕ × ℕ
      → ℕ
      → Build W Bundle
  sign_bundle s o p id now (before, after) (fee, priority_fee) first = do
    pre ← sign_all before first fee priority_fee
    target ← lift (create_target_signed_transaction f t o.target_transaction.transaction)
    post ← sign_all after (first + length before) fee priority_fee
    lift (
        validated (validate_bundle s (bundle_of o p id now pre target post))
          (bundle_of o p id now pre target post))

  unfoldable pub build_from :
      StrategyBundleBuilder
      → Opportunity F
      → BundleParams F
      → String
      → ℕ
      → List TransactionTemplate × List TransactionTemplate
      → Build W Bundle
  build_from s o p id now templates = do
    _ ← lift (create_target_template f t o.target_transaction.transaction)
    fees ← lift (ok_or panic (calculate_gas_prices f t p))
    first ← get_starting_nonce
    sign_bundle s o p id now templates fees first

  abbrev pub build_by :
      Option StrategyBundleBuilder → Opportunity F → BundleParams F → String → ℕ → Build W Bundle
  build_by none o p id now = lift (err no_builder)
  build_by (some s) o p id now = do
    templates ← lift (ok_or invalid_opportunity (build_bundle_transactions s o.opportunity_type))
    build_from s o p id now templates

  abbrev pub put_signer :
      BundleBuilder W F
      → Result BuildError Bundle × TransactionSigner W
      → Result BuildError Bundle × BundleBuilder W F
  put_signer b (r, s) = (r, record b { signer = s })

  unfoldable pub build_bundle_with_params :
      Opportunity F
      → BundleParams F
      → String
      → ℕ
      → BundleBuilder W F
      → Result BuildError Bundle × BundleBuilder W F
  build_bundle_with_params o p id now b =
      put_signer b (build_by (lookup o.strategy_name b.strategy_builders) o p id now b.signer)

  unfoldable pub build_bundle :
      Opportunity F → String → ℕ → BundleBuilder W F → Result BuildError Bundle × BundleBuilder W F
  unfolding build_bundle_with_params
  build_bundle o id now b = build_bundle_with_params o b.default_params id now b
