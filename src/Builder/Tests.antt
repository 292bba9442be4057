-- ===== src/Builder/Tests.antt =====
-- Wallets that are texts, and one sandwich that is built and one that fails.
use botmev.Prelude.{
  sym, ◌++◌, true, ℕ, ◌≡◌, refl, true, Option, none, some, List, [], ◌∷◌, String, arith,
}
use botmev.Prelude.Dict.{lookup, insert}
use botmev.Prelude.Results.{ok, err}
use botmev.Types.{unknown}
use botmev.Opportunities.{Opportunity, sandwich}
use botmev.Prelude.Whole.{whole}
use botmev.Builder.Keys.{create_encrypted_key, encrypt_key, Wallets, new, get_default_wallet}
use botmev.Builder.Types.{BundleParams, Bundle, SignedTransaction}
use botmev.Builder.Signer.{
  Eip1559TransactionRequest, sign_transaction, sign_transaction_with_wallet, get_nonce,
  update_nonce, get_tracked_nonce,
}
use botmev.Builder.Target.{
  Texts, invalid_target, StrategyBundleBuilder, sandwich_builder, build_bundle_transactions,
  create_target_template, create_target_signed_transaction, calculate_gas_prices,
  create_bundle_metadata, validate_bundle,
}
use botmev.Builder.Defs.{
  BundleBuilder, build_bundle_with_params, build_from, sign_bundle, sign_all, get_starting_nonce,
  bundle_of,
}
use botmev.Builder.Wallets.{
  IsKept, load_private, load_encrypted, create, set_default, calls, new-IsKept,
}
use botmev.Builder.Reload.{IsLossless, Reloads, create_encrypted_key-Reloads}
use botmev.Builder.Format.{encode, decode, decode-encode, to_json, from_json, from_json-to_json}
use botmev.Builder.Bundles.{Built, build_bundle_with_params-Built}
use botmev.Builder.Burned.{build_bundle_with_params-burns}

abbrev texts : Wallets String
texts = record {
  parse = some;
  address = λ w. w;
  key_hex = λ w. w;
  encode = λ l. "";
  decode = λ s. some [];
  as_bytes = λ s. [];
  from_utf8 = λ l. some "";
  derive = λ p s n. p;
  encrypt = λ k n t. some t;
  decrypt = λ k n t. some t;
  to_json = λ f. f.encrypted_key;
  from_json = λ s. none;
}

-- Two wallets, a file that cannot be read, and a default that is not loaded.
new-IsKept_example : IsKept texts (
    calls texts
      (load_private "0xa"
        ∷ create "0xb" true [] [] "password"
        ∷ load_encrypted none "password"
        ∷ set_default "0xc"
        ∷ set_default "0xb"
        ∷ [])
      new)
new-IsKept_example = new-IsKept texts (
    load_private "0xa"
    ∷ create "0xb" true [] [] "password"
    ∷ load_encrypted none "password"
    ∷ set_default "0xc"
    ∷ set_default "0xb"
    ∷ [])

abbrev sign : String → Eip1559TransactionRequest → Option (String × List ℕ)
sign w r = some ("0xhash", 7 ∷ [])

abbrev reading : Option String → Texts ℕ
reading hash = record {
  parse_u256 = λ s. some 1;
  parse_address = some;
  parse_hash = λ s. hash;
  decode_input = λ s. some [];
  show = λ n. "";
  show_f64 = λ x. "";
  show_type = λ o. "Sandwich";
}

abbrev found : Opportunity ℕ
found = record {
  id = "o";
  strategy_name = "sandwich";
  target_transaction = record {
    transaction = record {
      hash = "0xaa";
      sender = "0xbb";
      to = none;
      value = "1";
      gas_price = "1";
      gas_limit = "1";
      nonce = 3;
      input = "0x";
      timestamp = 0;
    };
    decoded_input = none;
    target_type = unknown;
    processing_time_ms = 0;
  };
  opportunity_type = sandwich "0xaa" ("WETH", "USDC") 1 1 5;
  estimated_profit_wei = 5;
  estimated_gas_cost_wei = 1;
  confidence_score = 1;
  priority = 1;
  expiry_timestamp = 9;
  metadata = [];
}

abbrev params : BundleParams ℕ
params = record {
  strategy_name = "sandwich";
  target_block = 8;
  max_gas_price = 100;
  max_priority_fee = 2;
  gas_multiplier = 1;
  min_profit_wei = 1;
  expiry_seconds = 30;
}

abbrev builder : BundleBuilder String ℕ
builder = record {
  signer = record {
    key_manager = record { wallets = ("0xa", "0xa") ∷ []; default_wallet = some "0xa" };
    nonce_tracker = ("0xa", 4) ∷ [];
    chain_id = 998;
    template_cache = [];
  };
  default_params = params;
  strategy_builders = ("sandwich", sandwich_builder) ∷ [];
}

abbrev ours : List ℕ → ℕ → SignedTransaction
ours calldata nonce = record {
  hash = "0xhash";
  sender = "0xa";
  to = some "0x0000000000000000000000000000000000000000";
  value = 0;
  gas_limit = 200_000;
  max_fee_per_gas = 102;
  max_priority_fee_per_gas = 2;
  nonce = nonce;
  calldata = calldata;
  chain_id = 998;
  raw_transaction = 7 ∷ [];
  transaction_type = 2;
}

abbrev target : SignedTransaction
target = record {
  hash = "0xaa";
  sender = "0xbb";
  to = none;
  value = 1;
  gas_limit = 1;
  max_fee_per_gas = 1;
  max_priority_fee_per_gas = 2_000_000_000;
  nonce = 3;
  calldata = [];
  chain_id = 998;
  raw_transaction = [];
  transaction_type = 2;
}

abbrev bundle : Bundle
bundle =
    bundle_of texts sign whole (reading (some "0xaa")) found params "b" 100
      (ours (0xf0 ∷ 0x0d ∷ 0xfa ∷ 0xce ∷ []) 4 ∷ []) target
      (ours (0xde ∷ 0xad ∷ 0xc0 ∷ 0xde ∷ []) 5 ∷ [])

abbrev behind : BundleBuilder String ℕ
behind = record builder { signer = record (builder.signer) { nonce_tracker = ("0xa", 6) ∷ [] } }

builds :
    build_bundle_with_params texts sign whole (reading (some "0xaa")) found params "b" 100 builder
    ≡ (ok bundle, behind)
unfolding build_bundle_with_params build_from sign_bundle sign_all get_starting_nonce
    create_target_template create_target_signed_transaction calculate_gas_prices
    create_bundle_metadata validate_bundle build_bundle_transactions sign_transaction
    sign_transaction_with_wallet get_nonce update_nonce get_tracked_nonce get_default_wallet lookup
    insert
builds = refl

build_bundle_with_params-Built_example :
    (s : StrategyBundleBuilder) × (lookup "sandwich" builder.strategy_builders ≡ some s)
    × Built texts sign whole
        (reading (some "0xaa"))
        "0xa"
        s
        found
        builder.signer
        bundle
        behind.signer
build_bundle_with_params-Built_example =
    build_bundle_with_params-Built texts sign whole (reading (some "0xaa")) "0xa" found params "b"
      100 builder {bundle = bundle} {b' = behind} refl builds

-- The target's hash is not one.
build_bundle_with_params-burns_example :
    build_bundle_with_params texts sign whole (reading none) found params "b" 100 builder
    ≡ (err invalid_target, record builder { signer = update_nonce "0xa" 5 builder.signer })
unfolding lookup create_target_template create_target_signed_transaction calculate_gas_prices
build_bundle_with_params-burns_example =
    build_bundle_with_params-burns texts sign whole (reading none) "0xa" found params "b" 100
      builder "0xaa" ("WETH", "USDC") 1 1 5 (102, 2) _ ("0xhash", 7 ∷ []) invalid_target refl refl
      refl (omega arith) refl refl refl refl

-- One wallet, with the key as its own ciphertext.
abbrev ciphered : Wallets Unit
ciphered = record {
  parse = λ s. some tt;
  address = λ w. "0xa";
  key_hex = λ w. "key";
  encode = encode;
  decode = decode;
  as_bytes = λ s. 7 ∷ 8 ∷ [];
  from_utf8 = λ l. some "key";
  derive = λ p s n. p;
  encrypt = λ k n t. some t;
  decrypt = λ k n t. some t;
  to_json = to_json;
  from_json = from_json;
}

ciphered-IsLossless : IsLossless ciphered
ciphered-IsLossless = record {
  decode-encode = decode-encode;
  utf8-bytes = λ w. refl;
  decrypt-encrypt = λ key nonce text e. sym e;
  json_round = from_json-to_json;
  parse-key_hex = λ w. refl;
}

abbrev twelve : List ℕ
twelve = 1 ∷ 2 ∷ 3 ∷ 4 ∷ 5 ∷ 6 ∷ 7 ∷ 8 ∷ 9 ∷ 10 ∷ 11 ∷ 12 ∷ []

abbrev content : String
content = to_json (record {
  encrypted_key = encode (twelve ++ 7 ∷ 8 ∷ []);
  kdf_params = record { salt = encode (5 ∷ []); iterations = 100_000; key_length = 32 };
  cipher = "aes-256-gcm";
  version = 1;
})

creates :
    create_encrypted_key ciphered tt true (5 ∷ []) twelve "password" new
    ≡ (ok ("0xa", content), record { wallets = ("0xa", tt) ∷ []; default_wallet = some tt })
unfolding create_encrypted_key encrypt_key new insert
creates = refl

create_encrypted_key-Reloads_example :
    Reloads ciphered ciphered-IsLossless tt "password" "0xa" content new
create_encrypted_key-Reloads_example =
    create_encrypted_key-Reloads ciphered ciphered-IsLossless tt true (5 ∷ []) twelve "password" new
      {addr = "0xa"} {content = content} refl creates new
