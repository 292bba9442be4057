-- ===== src/Strategies.antt =====
-- crates/mev-strategies/src/arbitrage.rs, backrun.rs and sandwich.rs: the tests that decide whether a
-- strategy looks at a transaction. `F` is `f64`; a parameter of the configuration is `none` where it is
-- missing or no number.
use botmev.Prelude.{
  ℕ, Bool, true, false, ◌&&◌, Option, none, some, List, [], ◌∷◌, String, ltb, leb, if◌then◌else◌,
}
use botmev.Prelude.Dict.{str_eq}
use botmev.Prelude.Floats.{F64}
use botmev.Prelude.Results.{unwrap_or}
use botmev.Prelude.Text.{parse_unsigned}
use botmev.Types.{
  ParsedTransaction, DecodedInput, DecodedParameter, TargetType, uniswap_v2, uniswap_v3, sushi_swap,
  curve,
}
mod Unread
mod Tests

abbrev pub is_swap : TargetType → Bool
is_swap uniswap_v2 = true
is_swap uniswap_v3 = true
is_swap sushi_swap = true
is_swap _ = false

abbrev pub is_swap_or_curve : TargetType → Bool
is_swap_or_curve uniswap_v2 = true
is_swap_or_curve uniswap_v3 = true
is_swap_or_curve sushi_swap = true
is_swap_or_curve curve = true
is_swap_or_curve _ = false

module _ {F : Type 0} (f : F64 F) where
  abbrev wei_per_eth : F
  wei_per_eth = f.decimal 1_000_000_000_000_000_000 0

  abbrev pub value_test : (ℕ → Bool) → ParsedTransaction → Bool
  value_test test tx = elim (parse_unsigned 128 tx.transaction.value) [
    | none ↦ false
    | some value ↦ test value
  ]

  unfoldable pub is_arbitrage_candidate : ParsedTransaction → Bool
  is_arbitrage_candidate tx =
      is_swap tx.target_type
      && value_test (λ value. f.le (f.decimal 1 0) (f.div (f.of_u128 value) wei_per_eth)) tx

  -- `(min * 1e18) as u128`.
  abbrev min_wei : F → Option F → ℕ
  min_wei default min_eth = f.to_u128 (f.mul (unwrap_or default min_eth) wei_per_eth)

  unfoldable pub is_backrun_candidate : Option F → ParsedTransaction → Bool
  is_backrun_candidate min_target_value_eth tx =
      is_swap_or_curve tx.target_type
      && value_test (λ value. leb (min_wei (f.decimal 5 1) min_target_value_eth) value) tx

  abbrev slippage : ℕ → ℕ → F
  slippage out value =
      if ltb 0 value
      then f.sub (f.decimal 1 0) (f.div (f.of_u128 out) (f.of_u128 value))
      else f.decimal 1 0

  -- The first minimum that is a number decides, if the value is one.
  unfoldable pub poor_by_parameters : Option F → Option ℕ → List DecodedParameter → Bool
  poor_by_parameters max_slippage_tolerance value [] = true
  poor_by_parameters max_slippage_tolerance value (p ∷ ps) =
      let later = poor_by_parameters max_slippage_tolerance value ps in
      if str_eq p.name "amountOutMin"
      then elim (parse_unsigned 128 p.value) [
        | none ↦ later
        | some out ↦ elim value [
          | none ↦ later
          | some v ↦
              f.le (f.div (unwrap_or (f.decimal 5 0) max_slippage_tolerance) (f.decimal 100 0))
                (slippage out v)
        ]
      ]
      else later

  abbrev parameters_of : Option DecodedInput → List DecodedParameter
  parameters_of none = []
  parameters_of (some d) = d.parameters

  unfoldable pub has_poor_slippage_protection : Option F → ParsedTransaction → Bool
  has_poor_slippage_protection max_slippage_tolerance tx =
      poor_by_parameters max_slippage_tolerance (parse_unsigned 128 tx.transaction.value)
        (parameters_of tx.decoded_input)

  unfoldable pub is_sandwich_victim : Option F → Option F → ParsedTransaction → Bool
  is_sandwich_victim min_victim_value_eth max_slippage_tolerance tx =
      is_swap tx.target_type
      && value_test
          (λ value.
            leb (min_wei (f.decimal 1 0) min_victim_value_eth) value
            && has_poor_slippage_protection max_slippage_tolerance tx)
          tx
