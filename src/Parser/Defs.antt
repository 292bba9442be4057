-- ===== src/Parser/Defs.antt =====
-- `TradeMessageParser`, method by method.
use botmev.Prelude.{
  ℕ, ◌-◌, ◌%◌, ◌^◌, true, Option, none, some, List, [], ◌∷◌, String, ltb, if◌then◌else◌,
}
use mathlib.Core.Option
use botmev.Prelude.Int.{ℤ, pos, negsuc}
use botmev.Prelude.Results.{Result, ok, ◌>>=◌, ok_or, and_then, or_else, unwrap_or}
use botmev.Parser.Json.{Json}
use botmev.Parser.Types.{
  from_hyperliquid, TradeData, OrderBookLevel, OrderBookData, SubscriptionResponse, ErrorData,
}

-- The texts of `ValidationFailed`, with the numbers that stand in them.
pub data Problem (F : Type 0) : Type 0 where
  empty_coin invalid_timestamp empty_trade_id empty_subscription_type empty_error : Problem F
  invalid_price invalid_size : F → Problem F
  invalid_bid invalid_ask : F → F → Problem F

pub data ParseError (F : Type 0) : Type 0 where
  invalid_json : ParseError F
  missing_field invalid_value unknown_message_type : String → ParseError F
  validation_failed : Problem F → ParseError F

abbrev pub Parsed : Type 0 → Type 0 → Type 0
Parsed F A = Result (ParseError F) A

-- `c as i32` of an `i64`.
abbrev low_word : ℤ → ℕ
low_word (pos n) = n % 2 ^ 32
low_word (negsuc n) = 2 ^ 32 - 1 - n % 2 ^ 32

unfoldable pub as_i32 : ℤ → ℤ
as_i32 c = if ltb (low_word c) (2 ^ 31) then pos (low_word c) else negsuc (2 ^ 32 - 1 - low_word c)

module _ {V N F : Type 0} (j : Json V N F) where
  -- `data.get(field).and_then(|v| v.as_str())`.
  abbrev pub str_field : String → V → Option String
  str_field field v = and_then (j.get v field) j.as_str

  unfoldable pub value_to_f64 : V → Option F
  value_to_f64 v = elim (j.as_number v) [
    | some n ↦ j.as_f64 n
    | none ↦ and_then (j.as_str v) j.parse_float
  ]

  unfoldable pub parse_f64 : V → String → Parsed F F
  parse_f64 v field = ok_or (missing_field field) (and_then (j.get v field) value_to_f64)

  -- A trade's identifier as text, whatever it is.
  unfoldable pub trade_id_text : V → String
  trade_id_text v = elim (j.as_str v) [
    | some s ↦ s
    | none ↦ elim (j.as_u64 v) [
      | some n ↦ j.show_u64 n
      | none ↦ elim (j.as_i64 v) [ some n ↦ j.show_i64 n | none ↦ "unknown" ]
    ]
  ]

  unfoldable pub parse_trade : V → Parsed F (TradeData F)
  parse_trade v = do
    coin ← ok_or (missing_field "coin") (str_field "coin" v)
    side_str ← ok_or (missing_field "side") (str_field "side" v)
    side ← ok_or (invalid_value side_str) (from_hyperliquid side_str)
    price ← parse_f64 v "px"
    size ← parse_f64 v "sz"
    timestamp ← ok_or (missing_field "time") (and_then (j.get v "time") j.as_u64)
    tid ← ok_or (missing_field "tid") (j.get v "tid")
    ok (record {
      coin = coin;
      side = side;
      price = price;
      size = size;
      timestamp = timestamp;
      trade_id = trade_id_text tid;
    })

  unfoldable pub parse_level : V → Parsed F (OrderBookLevel F)
  parse_level v = do
    price ←
        ok_or (missing_field "price in level")
          (and_then (or_else (j.get v "px") (j.get_index v 0)) value_to_f64)
    size ←
        ok_or (missing_field "size in level")
          (and_then (or_else (j.get v "sz") (j.get_index v 1)) value_to_f64)
    ok (record { price = price; size = size })

  -- `collect` ends at the first error.
  unfoldable pub parse_orderbook_levels : List V → Parsed F (List (OrderBookLevel F))
  parse_orderbook_levels [] = ok []
  parse_orderbook_levels (v ∷ vs) = do
    level ← parse_level v
    levels ← parse_orderbook_levels vs
    ok (level ∷ levels)

  unfoldable pub parse_orderbook : V → Parsed F (OrderBookData F)
  parse_orderbook v = do
    coin ← ok_or (missing_field "coin") (str_field "coin" v)
    bids_array ← ok_or (missing_field "bids") (and_then (j.get v "bids") j.as_array)
    asks_array ← ok_or (missing_field "asks") (and_then (j.get v "asks") j.as_array)
    bids ← parse_orderbook_levels bids_array
    asks ← parse_orderbook_levels asks_array
    timestamp ← ok_or (missing_field "time") (and_then (j.get v "time") j.as_u64)
    ok (record { coin = coin; bids = bids; asks = asks; timestamp = timestamp })

  unfoldable pub parse_subscription_response : V → Parsed F SubscriptionResponse
  parse_subscription_response v = do
    t ← ok_or (missing_field "type") (str_field "type" v)
    coin ← ok_or (missing_field "coin") (str_field "coin" v)
    ok (record {
      subscription_type = t;
      coin = coin;
      success = unwrap_or true (and_then (j.get v "success") j.as_bool);
      error = str_field "error" v;
    })

  unfoldable pub parse_error : V → Parsed F ErrorData
  parse_error v = do
    message ← ok_or (missing_field "message") (str_field "message" v)
    ok (record { code = Option.map as_i32 (and_then (j.get v "code") j.as_i64); message = message })
