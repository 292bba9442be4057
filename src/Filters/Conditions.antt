-- ===== src/Filters/Conditions.antt =====
-- Rules and conditions: `FilterRule`, `FilterCondition`, `FilterAction`, `evaluate_condition` and
-- `evaluate_rule`. Neither evaluation has an error branch, so each is a Boolean.
use Prim.Native.String.{len}
use botmev.Prelude.{
  ℕ, ◌-◌, ◌/◌, ◌^◌, String, Bool, true, false, not, ◌&&◌, ◌||◌, Option, none, some, List, [], ◌∷◌,
  ltb, leb, if◌then◌else◌, sub64,
}
use botmev.Prelude.Dict.{str_eq}
use botmev.Prelude.Int.{ℤ}
use botmev.Prelude.Text.{codes, to_lowercase, codes_eq, contains, parse_unsigned}
use botmev.Types.{ParsedTransaction, DecodedInput, TargetType}

pub data FilterCondition : Type 0 where
  value_range : Option String → Option String → FilterCondition
  gas_price_range : Option ℕ → Option ℕ → FilterCondition
  target_type : List String → FilterCondition
  function_signature : List String → FilterCondition
  contract_address : List String → Bool → FilterCondition
  sender_address : List String → Bool → FilterCondition
  data_size : Option ℕ → Option ℕ → FilterCondition
  time_of_day : ℕ → ℕ → FilterCondition
  data_pattern : String → Bool → FilterCondition

pub data FilterAction : Type 0 where
  accept reject : FilterAction
  tag : List String → FilterAction
  set_priority : ℕ → FilterAction
  rate_limit : ℕ → FilterAction

pub record FilterRule : Type 0 where
  pub name : String
  pub enabled : Bool
  pub priority : ℤ
  pub conditions : List FilterCondition
  pub action : FilterAction
  pub description : String

abbrev pub unwrap_or : Option ℕ → ℕ → ℕ
unwrap_or none d = d
unwrap_or (some n) d = n

abbrev pub member : String → List String → Bool
member s [] = false
member s (t ∷ ts) = str_eq t s || member s ts

-- The two early returns of a range condition.
abbrev pub below_min : ℕ → Option ℕ → Bool
below_min v none = false
below_min v (some lo) = ltb v lo

abbrev pub above_max : ℕ → Option ℕ → Bool
above_max v none = false
above_max v (some hi) = ltb hi v

unfoldable pub in_range : ℕ → Option ℕ → Option ℕ → Bool
in_range v lo hi = if below_min v lo then false else if above_max v hi then false else true

-- A bound of `ValueRange` is parsed, and a text that is no number is `d`.
abbrev pub parsed_bound : ℕ → Option String → Option ℕ
parsed_bound d none = none
parsed_bound d (some s) = some (unwrap_or (parse_unsigned 128 s) d)

-- `format!("{:?}", target_type)`.
unfoldable pub target_type_name : TargetType → String
target_type_name TargetType.uniswap_v2 = "UniswapV2"
target_type_name TargetType.uniswap_v3 = "UniswapV3"
target_type_name TargetType.sushi_swap = "SushiSwap"
target_type_name TargetType.curve = "Curve"
target_type_name TargetType.balancer = "Balancer"
target_type_name TargetType.order_book = "OrderBook"
target_type_name TargetType.unknown = "Unknown"

abbrev any_lowercase_eq : List String → String → Bool
any_lowercase_eq [] s = false
any_lowercase_eq (a ∷ as_left) s =
    codes_eq (to_lowercase a) (to_lowercase s) || any_lowercase_eq as_left s

abbrev listed : Bool → Bool → Bool
listed whitelist found = if whitelist then found else not found

abbrev signature_in : List String → Option DecodedInput → Bool
signature_in sigs none = false
signature_in sigs (some d) = member d.function_signature sigs

abbrev address_in : List String → Bool → Option String → Bool
address_in addresses whitelist none = not whitelist
address_in addresses whitelist (some to) = listed whitelist (any_lowercase_eq addresses to)

-- `input.len() / 2 - 1`, the bytes of calldata in ASCII; below two the subtraction wraps round.
abbrev pub data_size_of : String → ℕ
data_size_of input = sub64 (len input / 2) 1

unfoldable pub hour_in : ℕ → ℕ → ℕ → Bool
hour_in start stop hour =
    if leb start stop then leb start hour && leb hour stop else leb start hour || leb hour stop

abbrev holds_pattern : String → String → Bool → Bool
holds_pattern input pattern case_sensitive =
    if case_sensitive
    then contains (codes input) (codes pattern)
    else contains (to_lowercase input) (to_lowercase pattern)

-- `hour` is the hour that `chrono::Utc::now()` gives.
unfoldable pub evaluate_condition : ℕ → FilterCondition → ParsedTransaction → Bool
unfolding in_range target_type_name hour_in parse_unsigned
evaluate_condition hour (value_range min_wei max_wei) t =
    in_range (unwrap_or (parse_unsigned 128 t.transaction.value) 0) (parsed_bound 0 min_wei)
      (parsed_bound (2 ^ 128 - 1) max_wei)
evaluate_condition hour (gas_price_range min_gwei max_gwei) t =
    in_range (unwrap_or (parse_unsigned 64 t.transaction.gas_price) 0 / 1_000_000_000) min_gwei
      max_gwei
evaluate_condition hour (target_type types) t = member (target_type_name t.target_type) types
evaluate_condition hour (function_signature signatures) t = signature_in signatures t.decoded_input
evaluate_condition hour (contract_address addresses whitelist) t =
    address_in addresses whitelist t.transaction.to
evaluate_condition hour (sender_address addresses whitelist) t =
    listed whitelist (any_lowercase_eq addresses t.transaction.sender)
evaluate_condition hour (data_size min_bytes max_bytes) t =
    in_range (data_size_of t.transaction.input) min_bytes max_bytes
evaluate_condition hour (time_of_day start_hour end_hour) t = hour_in start_hour end_hour hour
evaluate_condition hour (data_pattern pattern case_sensitive) t =
    holds_pattern t.transaction.input pattern case_sensitive

-- All conditions must hold; the first that fails ends the loop.
unfoldable pub all_conditions : ℕ → List FilterCondition → ParsedTransaction → Bool
unfolding evaluate_condition
all_conditions hour [] t = true
all_conditions hour (c ∷ cs) t =
    if not (evaluate_condition hour c t) then false else all_conditions hour cs t

unfoldable pub evaluate_rule : ℕ → FilterRule → ParsedTransaction → Bool
unfolding all_conditions
evaluate_rule hour rule t = all_conditions hour rule.conditions t
