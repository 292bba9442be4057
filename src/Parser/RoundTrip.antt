-- ===== src/Parser/RoundTrip.antt =====
-- Messages as the exchange writes them (the shapes in the tests of parser.rs), and the parser on them.
use botmev.Prelude.{
  ℕ, ◌<◌, ◌≡◌, refl, ap, ◌∙◌, Bool, true, not, ◌&&◌, none, some, List, [], ◌∷◌, map, String,
  u64_mod,
}
use botmev.Prelude.Dict.{Dict, str_eq, lookup}
use botmev.Prelude.Results.{ok, ◌>>◌}
use botmev.Parser.Json.{Json}
use botmev.Parser.Types.{
  TradeSide, buy, sell, from_hyperliquid, TradeData, OrderBookLevel, OrderBookData, MessageData,
  trade, order_book, HyperLiquidMessage,
}
use botmev.Parser.Defs.{
  value_to_f64, parse_f64, trade_id_text, parse_trade, parse_level, parse_orderbook_levels,
  parse_orderbook, Parsed,
}
use botmev.Parser.Message.{validated, parse_trades, parse_channel, parse_message}
use botmev.Parser.Checks.{IsValid, validate_message_iff}

-- The making of values, and their texts.
pub record Writer (V F : Type 0) : Type 0 where
  pub object : Dict V → V
  pub array : List V → V
  pub string : String → V
  pub number : ℕ → V
  pub show_float : F → String
  pub to_text : V → String

module _ {V : Type 0} where
  abbrev is_fresh : String → Dict V → Bool
  is_fresh k [] = true
  is_fresh k ((i, v) ∷ fs) = not (str_eq i k) && is_fresh k fs

  abbrev pub distinct_keys : Dict V → Bool
  distinct_keys [] = true
  distinct_keys ((k, v) ∷ fs) = is_fresh k fs && distinct_keys fs

-- What a value that is made is read as.
pub record Reads {V N F : Type 0} (j : Json V N F) (w : Writer V F) : Type 0 where
  pub get-object :
      (fs : Dict V) (k : String) → distinct_keys fs ≡ true → j.get (w.object fs) k ≡ lookup k fs
  pub as_array-array : (l : List V) → j.as_array (w.array l) ≡ some l
  pub as_str-string : (s : String) → j.as_str (w.string s) ≡ some s
  pub as_number-string : (s : String) → j.as_number (w.string s) ≡ none
  pub as_u64-number : (n : ℕ) → n < u64_mod → j.as_u64 (w.number n) ≡ some n
  pub parse_float-show_float : (x : F) → j.parse_float (w.show_float x) ≡ some x

abbrev side_name : TradeSide → String
side_name buy = "B"
side_name sell = "A"

from_hyperliquid-side_name : (s : TradeSide) → from_hyperliquid (side_name s) ≡ some s
unfolding from_hyperliquid
from_hyperliquid-side_name buy = refl
from_hyperliquid-side_name sell = refl

module _ {V F : Type 0} (w : Writer V F) where
  abbrev trade_fields : TradeData F → Dict V
  trade_fields t =
      ("coin", w.string t.coin)
      ∷ ("side", w.string (side_name t.side))
      ∷ ("px", w.string (w.show_float t.price))
      ∷ ("sz", w.string (w.show_float t.size))
      ∷ ("time", w.number t.timestamp)
      ∷ ("tid", w.string t.trade_id)
      ∷ []

  abbrev pub trade_json : TradeData F → V
  trade_json t = w.object (trade_fields t)

  abbrev level_fields : OrderBookLevel F → Dict V
  level_fields l =
      ("px", w.string (w.show_float l.price)) ∷ ("sz", w.string (w.show_float l.size)) ∷ []

  abbrev levels_json : List (OrderBookLevel F) → V
  levels_json ls = w.array (map (λ l. w.object (level_fields l)) ls)

  abbrev book_fields : OrderBookData F → Dict V
  book_fields b =
      ("coin", w.string b.coin)
      ∷ ("bids", levels_json b.bids)
      ∷ ("asks", levels_json b.asks)
      ∷ ("time", w.number b.timestamp)
      ∷ []

  abbrev pub book_json : OrderBookData F → V
  book_json b = w.object (book_fields b)

  abbrev message_fields : String → V → Dict V
  message_fields channel v = ("channel", w.string channel) ∷ ("data", v) ∷ []

  abbrev pub message_json : String → V → V
  message_json channel v = w.object (message_fields channel v)

module _ {V N F : Type 0} (j : Json V N F) (w : Writer V F) (r : Reads j w) where
  value_to_f64-show_float : (x : F) → value_to_f64 j (w.string (w.show_float x)) ≡ some x
  unfolding value_to_f64
  value_to_f64-show_float x =
      rw (value_to_f64, r.as_number-string (w.show_float x), r.as_str-string (w.show_float x))
        (r.parse_float-show_float x)

  parse_trade-trade_json :
      (t : TradeData F) → t.timestamp < u64_mod → parse_trade j (trade_json w t) ≡ ok t
  unfolding parse_trade parse_f64 trade_id_text lookup
  parse_trade-trade_json t fits =
      let field : (k : String) → j.get (trade_json w t) k ≡ lookup k (trade_fields w t) =
        λ k. r.get-object (trade_fields w t) k refl in
      rw
        (
          parse_trade,
          parse_f64,
          trade_id_text,
          field "coin",
          field "side",
          field "px",
          field "sz",
          field "time",
          field "tid",
          r.as_str-string t.coin,
          r.as_str-string (side_name t.side),
          from_hyperliquid-side_name t.side,
          value_to_f64-show_float t.price,
          value_to_f64-show_float t.size,
          r.as_u64-number t.timestamp fits,
          r.as_str-string t.trade_id,
        )
        refl

  parse_level-level_fields :
      (l : OrderBookLevel F) → parse_level j (w.object (level_fields w l)) ≡ ok l
  unfolding parse_level lookup
  parse_level-level_fields l =
      let field : (k : String)
          → j.get (w.object (level_fields w l)) k ≡ lookup k (level_fields w l) =
        λ k. r.get-object (level_fields w l) k refl in
      rw
        (
          parse_level,
          field "px",
          field "sz",
          value_to_f64-show_float l.price,
          value_to_f64-show_float l.size,
        )
        refl

  parse_orderbook_levels-level_fields :
      (ls : List (OrderBookLevel F))
      → parse_orderbook_levels j (map (λ l. w.object (level_fields w l)) ls) ≡ ok ls
  unfolding parse_orderbook_levels
  parse_orderbook_levels-level_fields [] = refl
  parse_orderbook_levels-level_fields (l ∷ ls) =
      rw (parse_level-level_fields l, parse_orderbook_levels-level_fields ls) refl

  parse_orderbook-book_json :
      (b : OrderBookData F) → b.timestamp < u64_mod → parse_orderbook j (book_json w b) ≡ ok b
  unfolding parse_orderbook lookup
  parse_orderbook-book_json b fits =
      let field : (k : String) → j.get (book_json w b) k ≡ lookup k (book_fields w b) =
        λ k. r.get-object (book_fields w b) k refl in
      rw
        (
          parse_orderbook,
          field "coin",
          field "bids",
          field "asks",
          field "time",
          r.as_str-string b.coin,
          r.as_array-array (map (λ l. w.object (level_fields w l)) b.bids),
          r.as_array-array (map (λ l. w.object (level_fields w l)) b.asks),
          parse_orderbook_levels-level_fields b.bids,
          parse_orderbook_levels-level_fields b.asks,
          r.as_u64-number b.timestamp fits,
        )
        refl

  parse_message-message_json :
      (channel : String) (v : V)
      → j.from_str (w.to_text (message_json w channel v)) ≡ some (message_json w channel v)
      → parse_message j (w.to_text (message_json w channel v)) ≡ parse_channel j channel v
  unfolding parse_message lookup
  parse_message-message_json channel v text =
      let field : (k : String)
          → j.get (message_json w channel v) k ≡ lookup k (message_fields w channel v) =
        λ k. r.get-object (message_fields w channel v) k refl in
      rw (parse_message, text, field "channel", field "data", r.as_str-string channel) refl

  validated-ok :
      (channel : String) (d : MessageData F)
      → IsValid j d
      → validated j channel d ≡ ok (record { channel = channel; data_of = d })
  validated-ok channel d v =
      let m : HyperLiquidMessage F = record { channel = channel; data_of = d } in
      ap (λ (u : Parsed F Unit). u >> ok m) ((validate_message_iff j m).1 v)

  -- A valid trade that the exchange writes as the first of an array is read back as it was, whatever
  -- comes after it in the array; the others are not in the message that is returned.
  pub parse_message-trade_json :
      (t : TradeData F) (others : List V)
      → t.timestamp < u64_mod
      → IsValid j (trade t)
      → (let m = message_json w "trades" (w.array (trade_json w t ∷ others)) in
          j.from_str (w.to_text m) ≡ some m)
      → parse_message j (w.to_text (message_json w "trades" (w.array (trade_json w t ∷ others))))
        ≡ ok (record { channel = "trades"; data_of = trade t })
  unfolding parse_channel parse_trades
  parse_message-trade_json t others fits v text =
      parse_message-message_json "trades" (w.array (trade_json w t ∷ others)) text
      ∙ rw
          (
            parse_channel,
            parse_trades,
            r.as_array-array (trade_json w t ∷ others),
            parse_trade-trade_json t fits,
          )
          (validated-ok "trades" (trade t) v)

  -- A valid order book that the exchange writes with named prices and sizes is read back as it was:
  -- all levels of both sides, in order.
  parse_message-book_json :
      (b : OrderBookData F)
      → b.timestamp < u64_mod
      → IsValid j (order_book b)
      → (let m = message_json w "l2Book" (book_json w b) in j.from_str (w.to_text m) ≡ some m)
      → parse_message j (w.to_text (message_json w "l2Book" (book_json w b)))
        ≡ ok (record { channel = "l2Book"; data_of = order_book b })
  unfolding parse_channel
  parse_message-book_json b fits v text =
      parse_message-message_json "l2Book" (book_json w b) text
      ∙ rw (parse_channel, parse_orderbook-book_json b fits)
          (validated-ok "l2Book" (order_book b) v)
