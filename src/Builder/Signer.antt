-- ===== src/Builder/Signer.antt =====
-- `TransactionSigner`, with the wallets as in `Keys`. A signature, with the hash and the raw bytes of
-- the signed transaction, is the wallet's; `overflow` is the panic of `U256`.
use botmev.Prelude.{ℕ, ◌+◌, ◌-◌, Option, none, some, List, [], String, length, ltb, keep_if}
use botmev.Prelude.Dict.{Dict, lookup, insert, retain, values}
use botmev.Prelude.Floats.{F64}
use botmev.Prelude.Results.{Result, ok, err, unwrap_or}
use botmev.Builder.Keys.{Wallets, KeyManager, KeyError, get_wallet, get_default_wallet}
use botmev.Builder.Types.{
  SignedTransaction, TransactionTemplate, NonceStrategy, network, sequential, fixed, fits_u256,
  scaled,
}

-- The request that is signed.
pub record Eip1559TransactionRequest : Type 0 where
  pub to : String
  pub value : ℕ
  pub gas : ℕ
  pub max_fee_per_gas : ℕ
  pub max_priority_fee_per_gas : ℕ
  pub nonce : ℕ
  pub calldata : List ℕ
  pub chain_id : ℕ

pub record SignedTransactionTemplate : Type 0 where
  pub template : TransactionTemplate
  pub signer : String
  pub base_gas_price : ℕ
  pub created_at : ℕ

pub data SignError : Type 0 where
  key : KeyError → SignError
  signing_failed template_not_found overflow : SignError

pub record TransactionSigner (W : Type 0) : Type 0 where
  pub key_manager : KeyManager W
  pub nonce_tracker : Dict ℕ
  pub chain_id : ℕ
  pub template_cache : Dict SignedTransactionTemplate

unfoldable pub new : {W : Type 0} → KeyManager W → ℕ → TransactionSigner W
new key_manager chain_id = record {
  key_manager = key_manager;
  nonce_tracker = [];
  chain_id = chain_id;
  template_cache = [];
}

-- What a method returns, and the signer after it.
abbrev pub Signing : Type 0 → Type 0 → Type 0
Signing W A = TransactionSigner W → Result SignError A × TransactionSigner W

abbrev pub and_then_with :
    {W A B : Type 0}
    → Result SignError A × TransactionSigner W
    → (A → Signing W B)
    → Result SignError B × TransactionSigner W
and_then_with (err e, s) f = (err e, s)
and_then_with (ok a, s) f = f a s

infixl 5 ◌>>=◌
abbrev pub ◌>>=◌ : {W A B : Type 0} → Signing W A → (A → Signing W B) → Signing W B
◌>>=◌ m f s = and_then_with (m s) f

abbrev pub or_key_error : {A : Type 0} → Result KeyError A → Result SignError A
or_key_error (err e) = err (key e)
or_key_error (ok a) = ok a

abbrev pub zero_address : String
zero_address = "0x0000000000000000000000000000000000000000"

module _ {W : Type 0} where
  unfoldable pub get_tracked_nonce : String → TransactionSigner W → Option ℕ
  get_tracked_nonce address s = lookup address s.nonce_tracker

  unfoldable pub update_nonce : String → ℕ → TransactionSigner W → TransactionSigner W
  update_nonce address nonce s = record s { nonce_tracker = insert address nonce s.nonce_tracker }

  unfoldable pub reset_nonce : String → ℕ → TransactionSigner W → TransactionSigner W
  unfolding update_nonce
  reset_nonce address nonce s = update_nonce address nonce s

  abbrev pub advance : String → ℕ → Option ℕ → Signing W ℕ
  advance address current none s = (err overflow, s)
  advance address current (some next) s = (ok current, update_nonce address next s)

  abbrev pub tracked : String → TransactionSigner W → ℕ
  tracked address s = unwrap_or 0 (lookup address s.nonce_tracker)

  -- `Network` is a copy of `Sequential`.
  unfoldable pub get_nonce : String → NonceStrategy → Signing W ℕ
  unfolding update_nonce
  get_nonce address (fixed n) s = (ok n, s)
  get_nonce address sequential s =
      advance address (tracked address s) (fits_u256 (tracked address s + 1)) s
  get_nonce address network s =
      advance address (tracked address s) (fits_u256 (tracked address s + 1)) s

module _ {W : Type 0} (k : Wallets W)
    (sign : W → Eip1559TransactionRequest → Option (String × List ℕ)) where
  -- `to` is the zero address where the template has none.
  abbrev pub request_of :
      TransactionSigner W → TransactionTemplate → ℕ → ℕ → ℕ → Eip1559TransactionRequest
  request_of s t nonce fee priority_fee = record {
    to = unwrap_or zero_address t.to;
    value = t.value;
    gas = t.gas_limit;
    max_fee_per_gas = fee;
    max_priority_fee_per_gas = priority_fee;
    nonce = nonce;
    calldata = t.calldata;
    chain_id = s.chain_id;
  }

  abbrev pub transaction_of :
      TransactionSigner W
      → W
      → TransactionTemplate
      → ℕ
      → ℕ
      → ℕ
      → String × List ℕ
      → SignedTransaction
  transaction_of s w t nonce fee priority_fee (hash, raw) = record {
    hash = hash;
    sender = k.address w;
    to = t.to;
    value = t.value;
    gas_limit = t.gas_limit;
    max_fee_per_gas = fee;
    max_priority_fee_per_gas = priority_fee;
    nonce = nonce;
    calldata = t.calldata;
    chain_id = s.chain_id;
    raw_transaction = raw;
    transaction_type = 2;
  }

  abbrev pub tracked_as : W → Option ℕ → SignedTransaction → Signing W SignedTransaction
  tracked_as w none tx s = (err overflow, s)
  tracked_as w (some next) tx s = (ok tx, update_nonce (k.address w) next s)

  abbrev pub finish_signing :
      W → TransactionTemplate → ℕ → ℕ → ℕ → Option (String × List ℕ) → Signing W SignedTransaction
  finish_signing w t fee priority_fee nonce none s = (err signing_failed, s)
  finish_signing w t fee priority_fee nonce (some signature) s =
      tracked_as w (fits_u256 (nonce + 1)) (transaction_of s w t nonce fee priority_fee signature) s

  -- After the nonce is known.
  abbrev pub sign_with_nonce : W → TransactionTemplate → ℕ → ℕ → ℕ → Signing W SignedTransaction
  sign_with_nonce w t fee priority_fee nonce s =
      finish_signing w t fee priority_fee nonce (sign w (request_of s t nonce fee priority_fee)) s

  unfoldable pub sign_transaction_with_wallet :
      W → TransactionTemplate → NonceStrategy → ℕ → ℕ → Signing W SignedTransaction
  unfolding get_nonce update_nonce
  sign_transaction_with_wallet w t strategy fee priority_fee = do
    nonce ← get_nonce (k.address w) strategy
    sign_with_nonce w t fee priority_fee nonce

  abbrev pub wallet : Result KeyError W → Signing W W
  wallet r s = (or_key_error r, s)

  unfoldable pub sign_transaction :
      TransactionTemplate → NonceStrategy → ℕ → ℕ → Signing W SignedTransaction
  unfolding sign_transaction_with_wallet
  sign_transaction t strategy fee priority_fee s =
      and_then_with (wallet (get_default_wallet k s.key_manager) s)
        (λ w. sign_transaction_with_wallet w t strategy fee priority_fee)

  unfoldable pub sign_transaction_with_address :
      String → TransactionTemplate → NonceStrategy → ℕ → ℕ → Signing W SignedTransaction
  unfolding sign_transaction_with_wallet
  sign_transaction_with_address address t strategy fee priority_fee s =
      and_then_with (wallet (get_wallet k address s.key_manager) s)
        (λ w. sign_transaction_with_wallet w t strategy fee priority_fee)

  abbrev cached : String → TransactionTemplate → ℕ → ℕ → W → Signing W String
  cached id t base_gas_price now w s = (
    ok id,
    record s {
      template_cache =
          insert id
            (record {
              template = t;
              signer = k.address w;
              base_gas_price = base_gas_price;
              created_at = now;
            })
            s.template_cache;
    },
  )

  -- The identifier, calldata and time as one text, is an argument.
  unfoldable pub create_template : String → TransactionTemplate → ℕ → ℕ → Signing W String
  create_template id t base_gas_price now s =
      and_then_with (wallet (get_default_wallet k s.key_manager) s) (cached id t base_gas_price now)

  module _ {F : Type 0} (f : F64 F) where
    abbrev with_fee :
        SignedTransactionTemplate → NonceStrategy → Option ℕ → Signing W SignedTransaction
    with_fee t strategy none s = (err overflow, s)
    with_fee t strategy (some fee) s =
        sign_transaction_with_address t.signer t.template strategy fee 2_000_000_000 s

    abbrev sign_found :
        Option SignedTransactionTemplate → NonceStrategy → F → Signing W SignedTransaction
    sign_found none strategy multiplier s = (err template_not_found, s)
    sign_found (some t) strategy multiplier s =
        with_fee t strategy (scaled f t.base_gas_price multiplier) s

    unfoldable pub sign_from_template : String → NonceStrategy → F → Signing W SignedTransaction
    unfolding sign_transaction_with_address
    sign_from_template id strategy multiplier s =
        sign_found (lookup id s.template_cache) strategy multiplier s

-- Templates are kept while they are younger than `max_age` seconds; times are seconds on a
-- clock that does not go back, and `max_age` is not negative.
unfoldable pub cleanup_templates : {W : Type 0} → ℕ → ℕ → TransactionSigner W → TransactionSigner W
cleanup_templates now max_age s = record s {
  template_cache = retain (λ t. ltb (now - t.created_at) max_age) s.template_cache;
}

unfoldable pub get_template_stats : {W : Type 0} → ℕ → TransactionSigner W → ℕ × ℕ
get_template_stats now s = (
  length s.template_cache,
  length (
      keep_if (λ (t : SignedTransactionTemplate). ltb 300 (now - t.created_at))
        (values s.template_cache)),
)

unfoldable pub create_eth_transfer_template : String → ℕ → Option ℕ → TransactionTemplate
create_eth_transfer_template to value gas_limit = record {
  to = some to;
  value = value;
  gas_limit = unwrap_or 21_000 gas_limit;
  calldata = [];
  transaction_type = 2;
}

unfoldable pub create_contract_call_template :
    String → List ℕ → Option ℕ → Option ℕ → TransactionTemplate
create_contract_call_template to calldata value gas_limit = record {
  to = some to;
  value = unwrap_or 0 value;
  gas_limit = unwrap_or 200_000 gas_limit;
  calldata = calldata;
  transaction_type = 2;
}

unfoldable pub create_contract_deployment_template :
    List ℕ → Option ℕ → Option ℕ → TransactionTemplate
create_contract_deployment_template bytecode value gas_limit = record {
  to = none;
  value = unwrap_or 0 value;
  gas_limit = unwrap_or 1_000_000 gas_limit;
  calldata = bytecode;
  transaction_type = 2;
}
