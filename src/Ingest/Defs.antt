-- ===== src/Ingest/Defs.antt =====
-- `TransactionParser`, method by method. JSON is serde_json's, an interface; `now` is `Utc::now()`;
-- the time that parsing takes is left out.
use botmev.Prelude.{
  ℕ, Bool, true, false, not, ◌&&◌, Option, none, some, List, [], ◌∷◌, String, if◌then◌else◌,
}
use mathlib.Core.Option
use botmev.Prelude.Dict.{str_eq}
use botmev.Prelude.Results.{Result, ok, err, and_then, unwrap_or}
use botmev.Prelude.Text.{codes, trim_start_matches, from_str_radix16}
use botmev.Types.{
  Transaction, DecodedInput, ParsedTransaction, TargetType, uniswap_v2, uniswap_v3, sushi_swap,
  curve, balancer, order_book, unknown,
}
use botmev.Parser.Json.{Json}
use botmev.Ingest.Abi.{AbiDecoder, decode_input, determine_target_type}

pub data IngestError : Type 0 where
  missing_hash missing_from invalid_gas_price invalid_value : IngestError

abbrev pub has_input : Transaction → Bool
has_input t = not (str_eq t.input "") && not (str_eq t.input "0x")

unfoldable pub extract_gas_price_wei : String → Result IngestError ℕ
extract_gas_price_wei s = elim (from_str_radix16 64 (trim_start_matches (codes "0x") (codes s))) [
  | some n ↦ ok n
  | none ↦ err invalid_gas_price
]

abbrev pub value_of_hex : List ℕ → Result IngestError ℕ
value_of_hex [] = ok 0
value_of_hex (c ∷ cs) = elim (from_str_radix16 128 (c ∷ cs)) [
  | some n ↦ ok n
  | none ↦ err invalid_value
]

unfoldable pub extract_value_wei : String → Result IngestError ℕ
extract_value_wei s = value_of_hex (trim_start_matches (codes "0x") (codes s))

abbrev pub is_amm : TargetType → Bool
is_amm uniswap_v2 = true
is_amm uniswap_v3 = true
is_amm sushi_swap = true
is_amm curve = true
is_amm balancer = true
is_amm order_book = false
is_amm unknown = false

abbrev pub interesting_call : Option String → ParsedTransaction → Bool
interesting_call none p = false
interesting_call (some _) p = has_input p.transaction && is_amm p.target_type

unfoldable pub is_interesting_transaction : ParsedTransaction → Bool
is_interesting_transaction p = interesting_call p.transaction.to p

-- The signature that the target is looked up by.
abbrev pub signature_of : Option DecodedInput → String
signature_of none = ""
signature_of (some d) = d.function_signature

unfoldable pub classified : AbiDecoder → Transaction → Option DecodedInput → ParsedTransaction
classified d t input = record {
  transaction = t;
  decoded_input = input;
  target_type = determine_target_type d t.to (signature_of input);
  processing_time_ms = 0;
}

abbrev pub decoded_of : AbiDecoder → Transaction → Option (Option DecodedInput)
decoded_of d t = if has_input t then decode_input d t.input else some none

module _ {V N F : Type 0} (j : Json V N F) where
  abbrev pub str_field : String → V → Option String
  str_field field v = and_then (j.get v field) j.as_str

  abbrev pub str_field_or : String → String → V → String
  str_field_or d field v = unwrap_or d (str_field field v)

  unfoldable pub nonce_field : V → ℕ
  nonce_field v = unwrap_or 0 (
      and_then (str_field "nonce" v)
        (λ s. from_str_radix16 64 (trim_start_matches (codes "0x") (codes s))))

  unfoldable pub fields_of : ℕ → String → String → V → Transaction
  fields_of now hash sender v = record {
    hash = hash;
    sender = sender;
    to = str_field "to" v;
    value = str_field_or "0x0" "value" v;
    gas_price = str_field_or "0x0" "gasPrice" v;
    gas_limit = str_field_or "0x0" "gas" v;
    nonce = nonce_field v;
    input = str_field_or "0x" "input" v;
    timestamp = now;
  }

  abbrev pub with_sender : ℕ → V → String → Option String → Result IngestError Transaction
  with_sender now v hash none = err missing_from
  with_sender now v hash (some sender) = ok (fields_of now hash sender v)

  abbrev pub with_hash : ℕ → V → Option String → Result IngestError Transaction
  with_hash now v none = err missing_hash
  with_hash now v (some hash) = with_sender now v hash (str_field "from" v)

  unfoldable pub extract_transaction_fields : ℕ → V → Result IngestError Transaction
  extract_transaction_fields now v = with_hash now v (str_field "hash" v)

  abbrev pub parsed_fields :
      AbiDecoder → Result IngestError Transaction → Option (Result IngestError ParsedTransaction)
  parsed_fields d (err e) = some (err e)
  parsed_fields d (ok t) = Option.map (λ input. ok (classified d t input)) (decoded_of d t)

  -- `none` is a panic.
  unfoldable pub parse_transaction :
      AbiDecoder → ℕ → V → Option (Result IngestError ParsedTransaction)
  parse_transaction d now v = parsed_fields d (extract_transaction_fields now v)

  abbrev push_parsed :
      Option (Result IngestError ParsedTransaction)
      → Option (List ParsedTransaction)
      → Option (List ParsedTransaction)
  push_parsed none rest = none
  push_parsed (some (err e)) rest = rest
  push_parsed (some (ok p)) rest = Option.map (◌∷◌ p) rest

  -- The raw transactions, each with the time at which it is read.
  unfoldable pub parse_batch : AbiDecoder → List (ℕ × V) → Option (List ParsedTransaction)
  parse_batch d [] = some []
  parse_batch d ((now, v) ∷ raw) = push_parsed (parse_transaction d now v) (parse_batch d raw)
