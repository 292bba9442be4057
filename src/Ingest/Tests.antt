-- ===== src/Ingest/Tests.antt =====
-- An announcement of a swap, and the theorems at concrete inputs.
use botmev.Prelude.{◌≡◌, ◌^◌, ◌<◌, refl, some, [], ◌∷◌, arith}
use botmev.Prelude.Dict.{lookup, insert}
use botmev.Prelude.Results.{ok}
use botmev.Prelude.Text.{byte_len, split_bytes}
use botmev.Types.{sushi_swap}
use botmev.Parser.Samples.{Value, text, object, reading}
use botmev.Ingest.Abi.{new, decode_input, determine_target_type, decode_parameters}
use botmev.Ingest.Defs.{
  str_field, fields_of, parse_transaction, extract_transaction_fields, classified,
  extract_value_wei, extract_gas_price_wei, nonce_field,
}
use botmev.Ingest.Hex.{hex_digits_of, extract-quantity}
use botmev.Ingest.Parsing.{announced, Parsed, parse_transaction-Parsed}

-- A swap on the router of Uniswap V2.
abbrev announcement : Value
announcement = object (
    ("hash", text "0xaa")
    ∷ ("from", text "0xbb")
    ∷ ("to", text "0x7a250d5630b4cf539739df2c5dacb4c659f2488d")
    ∷ ("value", text "0x2a")
    ∷ ("nonce", text "0x7")
    ∷ ("input", text "0x38ed173901")
    ∷ [])

parse_transaction-Parsed_example :
    Parsed
      (announced (reading announcement) 5 "0xaa" "0xbb" announcement)
      (parse_transaction (reading announcement) new 5 announcement)
parse_transaction-Parsed_example =
    parse_transaction-Parsed (reading announcement) 5 announcement "0xaa" "0xbb" refl refl
      (omega arith)

-- It is taken for one of SushiSwap.
is_sushi :
    parse_transaction (reading announcement) new 5 announcement
    ≡ some (
        ok (record {
          transaction = fields_of (reading announcement) 5 "0xaa" "0xbb" announcement;
          decoded_input = some (record {
            function_name = "swapExactTokensForTokens";
            function_signature = "0x38ed1739";
            parameters =
                record { name = "amountIn"; param_type = "uint256"; value = "decoded_amount_in" }
                ∷ record {
                  name = "amountOutMin";
                  param_type = "uint256";
                  value = "decoded_amount_out_min";
                }
                ∷ [];
          });
          target_type = sushi_swap;
          processing_time_ms = 0;
        }))
unfolding parse_transaction extract_transaction_fields fields_of classified new decode_input
    determine_target_type decode_parameters byte_len split_bytes lookup insert
is_sushi = refl

extract-quantity_example :
    (42 < 2 ^ 128 → extract_value_wei "0x2a" ≡ ok 42)
    × (42 < 2 ^ 64 → extract_gas_price_wei "0x2a" ≡ ok 42)
    × (42 < 2 ^ 64
        → (v : Value) → str_field (reading announcement) "nonce" v ≡ some "0x2a"
        → nonce_field (reading announcement) v ≡ 42)
unfolding hex_digits_of
extract-quantity_example = extract-quantity (reading announcement) 42 "0x2a" refl
