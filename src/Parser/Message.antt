-- ===== src/Parser/Message.antt =====
-- `validate_message` and `parse_message` of the parser, and the second parser of the responses to
-- subscriptions, `try_parse_subscription_response` of websocket.rs.
use botmev.Prelude.{
  Bool, true, ◌||◌, Option, none, some, List, [], ◌∷◌, String, ◌==◌, if◌then◌else◌,
}
use botmev.Prelude.Dict.{str_eq}
use botmev.Prelude.Results.{ok, err, ◌>>=◌, ◌>>◌, ok_or, and_then, unwrap_or}
use botmev.Parser.Json.{Json}
use botmev.Parser.Types.{
  TradeData, OrderBookLevel, SubscriptionResponse, MessageData, subscription_response, trade,
  order_book, error_message, HyperLiquidMessage,
}
use botmev.Parser.Defs.{
  Problem, empty_coin, invalid_timestamp, empty_trade_id, empty_subscription_type, empty_error,
  invalid_price, invalid_size, invalid_bid, invalid_ask, invalid_json, missing_field,
  unknown_message_type, validation_failed, Parsed, str_field, parse_trade, parse_orderbook,
  parse_subscription_response, parse_error,
}

abbrev pub is_empty : String → Bool
is_empty s = str_eq s ""

abbrev pub refuse_if : {F : Type 0} → Bool → Problem F → Parsed F Unit
refuse_if c p = if c then err (validation_failed p) else ok tt

module _ {V N F : Type 0} (j : Json V N F) where
  -- The loop over the levels of a side; `problem` words the error.
  unfoldable pub check_levels : (F → F → Problem F) → List (OrderBookLevel F) → Parsed F Unit
  check_levels problem [] = ok tt
  check_levels problem (l ∷ ls) = do
    refuse_if (j.le_zero l.price || j.le_zero l.size) (problem l.price l.size)
    check_levels problem ls

  abbrev pub validate_data : MessageData F → Parsed F Unit
  validate_data (trade t) = do
    refuse_if (is_empty t.coin) empty_coin
    refuse_if (j.le_zero t.price) (invalid_price t.price)
    refuse_if (j.le_zero t.size) (invalid_size t.size)
    refuse_if (t.timestamp == 0) invalid_timestamp
    refuse_if (is_empty t.trade_id) empty_trade_id
  validate_data (order_book b) = do
    refuse_if (is_empty b.coin) empty_coin
    refuse_if (b.timestamp == 0) invalid_timestamp
    check_levels invalid_bid b.bids
    check_levels invalid_ask b.asks
  validate_data (subscription_response r) = do
    refuse_if (is_empty r.subscription_type) empty_subscription_type
    refuse_if (is_empty r.coin) empty_coin
  validate_data (error_message e) = refuse_if (is_empty e.message) empty_error

  unfoldable pub validate_message : HyperLiquidMessage F → Parsed F Unit
  validate_message m = validate_data m.data_of

  -- The end of `parse_message`.
  abbrev pub validated : String → MessageData F → Parsed F (HyperLiquidMessage F)
  validated channel d = do
    validate_message (record { channel = channel; data_of = d })
    ok (record { channel = channel; data_of = d })

  -- The channel "trades": the first trade of an array, or a trade.
  unfoldable pub parse_trades : V → Parsed F (TradeData F)
  parse_trades v = elim (j.as_array v) [
    | some (first ∷ others) ↦ parse_trade j first
    | some [] ↦ err (missing_field "empty trades array")
    | none ↦ parse_trade j v
  ]

  -- The channel "subscriptionResponse".
  unfoldable pub parse_response : V → Parsed F SubscriptionResponse
  parse_response v = elim (str_field j "method" v) [
    | some method ↦
        if str_eq method "subscribe"
        then (do
          subscription ← ok_or (missing_field "subscription") (j.get v "subscription")
          ok (record {
            subscription_type = unwrap_or "unknown" (str_field j "type" subscription);
            coin = unwrap_or "unknown" (str_field j "coin" subscription);
            success = true;
            error = none;
          }))
        else parse_subscription_response j v
    | none ↦ parse_subscription_response j v
  ]

  -- The channel "error": an error that is an object is returned at once.
  abbrev pub error_from : String → V → Option String → Parsed F (HyperLiquidMessage F)
  error_from channel v (some message) =
      validated channel (error_message (record { code = none; message = message }))
  error_from channel v none = do
    e ← parse_error j v
    ok (record { channel = channel; data_of = error_message e })

  unfoldable pub parse_error_message : String → V → Parsed F (HyperLiquidMessage F)
  parse_error_message channel v = error_from channel v (j.as_str v)

  unfoldable pub parse_channel : String → V → Parsed F (HyperLiquidMessage F)
  parse_channel channel v =
      if str_eq channel "trades"
      then (parse_trades v >>= λ t. validated channel (trade t))
      else if str_eq channel "l2Book"
      then (parse_orderbook j v >>= λ b. validated channel (order_book b))
      else if str_eq channel "subscriptionResponse"
      then (parse_response v >>= λ r. validated channel (subscription_response r))
      else if str_eq channel "error"
      then parse_error_message channel v
      else err (unknown_message_type channel)

  unfoldable pub parse_message : String → Parsed F (HyperLiquidMessage F)
  parse_message raw = do
    value ← ok_or invalid_json (j.from_str raw)
    channel ← ok_or (missing_field "channel") (str_field j "channel" value)
    data_value ← ok_or (missing_field "data") (j.get value "data")
    parse_channel channel data_value

  abbrev response_of : V → SubscriptionResponse
  response_of v = record {
    subscription_type = unwrap_or "" (str_field j "type" v);
    coin = unwrap_or "" (str_field j "coin" v);
    success = unwrap_or true (and_then (j.get v "success") j.as_bool);
    error = str_field j "error" v;
  }

  -- Every `Err` is `none`.
  unfoldable pub try_parse_subscription_response : String → Option SubscriptionResponse
  try_parse_subscription_response text = and_then (j.from_str text) λ value.
      and_then (str_field j "channel" value) λ channel.
        if str_eq channel "subscriptions" || str_eq channel "subscriptionResponse"
        then and_then (j.get value "data") (λ v. some (response_of v))
        else none
