-- ===== src/Ingest/Abi.antt =====
-- `AbiDecoder`: the table of function signatures and the decoding of calldata. A slice of a text
-- inside a code point is a panic, `none` outside.
use botmev.Prelude.{ℕ, Option, none, some, List, [], ◌∷◌, String, ltb, leb, if◌then◌else◌}
use mathlib.Core.Option
use botmev.Prelude.Dict.{Dict, lookup, insert, str_eq}
use botmev.Prelude.Text.{codes, to_lowercase, codes_eq, byte_len, split_bytes, concat}
use botmev.Types.{
  DecodedParameter, DecodedInput, TargetType, uniswap_v2, uniswap_v3, sushi_swap, curve, balancer,
  unknown,
}

abbrev pub AbiDecoder : Type 0
AbiDecoder = Dict (String × TargetType)

abbrev pub add_function_signature : String → String → TargetType → AbiDecoder → AbiDecoder
add_function_signature signature name target_type d = insert signature (name, target_type) d

-- In the order of the source, the last one first.
unfoldable pub load_precompiled_abis : AbiDecoder → AbiDecoder
load_precompiled_abis d = add_function_signature "0x52bbbe29" "swap" balancer (
    add_function_signature "0xa6417ed6" "exchange_underlying" curve (
      add_function_signature "0x3df02124" "exchange" curve (
        add_function_signature "0x38ed1739" "swapExactTokensForTokens" sushi_swap (
          add_function_signature "0xc04b8d59" "exactInput" uniswap_v3 (
            add_function_signature "0x414bf389" "exactInputSingle" uniswap_v3 (
              add_function_signature "0x18cbafe5" "swapExactTokensForETH" uniswap_v2 (
                add_function_signature "0x38ed1739" "swapExactTokensForTokens" uniswap_v2 (
                  add_function_signature "0x7ff36ab5" "swapExactETHForTokens" uniswap_v2
                    (add_function_signature "0xa9059cbb" "transfer" uniswap_v2 d)))))))))

unfoldable pub new : AbiDecoder
unfolding load_precompiled_abis
new = load_precompiled_abis []

abbrev pub parameter : String → String → String → DecodedParameter
parameter name param_type value = record { name = name; param_type = param_type; value = value }

-- `&input[34..74]` and `&input[74..]`.
abbrev pub transfer_slices : String → Option (String × String)
transfer_slices input = elim (split_bytes 34 input) [ none ↦ none | some (_, l) ↦ split_bytes 40 l ]

abbrev pub transfer_parameters : String → Option (List DecodedParameter)
transfer_parameters input =
    if leb 74 (byte_len input)
    then Option.map
        (λ (s : String × String).
          parameter "to" "address" (concat "0x" s.0)
          ∷ parameter "amount" "uint256" (concat "0x" s.1)
          ∷ [])
        (transfer_slices input)
    else some []

-- `&input[10..]`.
abbrev pub data_parameter : String → Option (List DecodedParameter)
data_parameter input =
    Option.map (λ (s : String × String). parameter "data" "bytes" s.1 ∷ []) (split_bytes 10 input)

unfoldable pub decode_parameters : String → String → Option (List DecodedParameter)
decode_parameters input signature =
    if str_eq signature "0xa9059cbb"
    then transfer_parameters input
    else if str_eq signature "0x38ed1739"
    then some (
        parameter "amountIn" "uint256" "decoded_amount_in"
        ∷ parameter "amountOutMin" "uint256" "decoded_amount_out_min"
        ∷ [])
    else data_parameter input

abbrev pub decoded : String → String → List DecodedParameter → DecodedInput
decoded name signature parameters = record {
  function_name = name;
  function_signature = signature;
  parameters = parameters;
}

unfoldable pub decode_generic_function : String → Option DecodedInput
decode_generic_function input =
    Option.map (λ (s : String × String). decoded "unknown" s.0 (parameter "data" "bytes" s.1 ∷ []))
      (split_bytes 10 input)

abbrev decode_found : AbiDecoder → String → String → Option DecodedInput
decode_found d input signature = elim (lookup signature d) [
  | some (name, _) ↦ Option.map (decoded name signature) (decode_parameters input signature)
  | none ↦ decode_generic_function input
]

-- `Ok(None)` is `some none`; there is no `Err`.
unfoldable pub decode_input : AbiDecoder → String → Option (Option DecodedInput)
decode_input d input = if ltb (byte_len input) 10 then some none else elim (split_bytes 10 input) [
  | none ↦ none
  | some (signature, _) ↦ Option.map some (decode_found d input signature)
]

-- The routers that the source names.
abbrev pub by_address : List ℕ → TargetType
by_address a =
    if codes_eq a (codes "0x7a250d5630b4cf539739df2c5dacb4c659f2488d")
    then uniswap_v2
    else if codes_eq a (codes "0xe592427a0aece92de3edee1f18e0157c05861564")
    then uniswap_v3
    else if codes_eq a (codes "0xd9e1ce17f2641f24ae83637ab66a2cca9c378b9f")
    then sushi_swap
    else unknown

unfoldable pub determine_target_type : AbiDecoder → Option String → String → TargetType
determine_target_type d to_address signature = elim (lookup signature d) [
  | some (_, target_type) ↦ target_type
  | none ↦ elim to_address [ some address ↦ by_address (to_lowercase address) | none ↦ unknown ]
]
