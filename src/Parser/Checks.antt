-- ===== src/Parser/Checks.antt =====
-- What `validate_message` accepts, and what `parse_message` returns.
use botmev.Prelude.{
  ◌≡◌, ◌≢◌, ◌↔◌, refl, Bool, true, false, Option, none, some, List, [], ◌∷◌, String, arith, All,
  if-cases,
}
use mathlib.Core.Path.{subst}
use botmev.Prelude.Dict.{str_eq, str_eq_iff}
use botmev.Prelude.Results.{ok, err, ◌>>=◌, ◌>>◌, >>=-ok, ok_or}
use botmev.Parser.Json.{Json}
use botmev.Parser.Types.{
  TradeData, OrderBookLevel, OrderBookData, MessageData, subscription_response, trade, order_book,
  error_message, HyperLiquidMessage,
}
use botmev.Parser.Defs.{
  Problem, Parsed, invalid_bid, invalid_ask, parse_orderbook, parse_error, str_field,
}
use botmev.Parser.Message.{
  refuse_if, check_levels, validate_data, validate_message, validated, parse_trades, parse_response,
  error_from, parse_error_message, parse_channel, parse_message,
}

refuse_if-ok : {F : Type 0} (c : Bool) (p : Problem F) → (refuse_if c p ≡ ok tt) ↔ (c ≡ false)
refuse_if-ok c p = ground arith

>>-ok : {F : Type 0} (a b : Parsed F Unit) → ((a >> b) ≡ ok tt) ↔ ((a ≡ ok tt) × (b ≡ ok tt))
>>-ok (ok tt) b = ((λ h. (refl, h)), λ h. h.1)
>>-ok (err e) b = ((λ h. absurd cc), λ h. absurd cc)

is_empty_iff : (s : String) → (str_eq s "" ≡ false) ↔ (s ≢ "")
is_empty_iff s = ground (arith, str_eq_iff s "")

module _ {V N F : Type 0} (j : Json V N F) where
  -- The test that the number is not above zero fails, as it also does for NaN.
  abbrev pub Passes : F → Type 0
  Passes x = j.le_zero x ≡ false

  abbrev pub IsValidLevel : OrderBookLevel F → Type 0
  IsValidLevel l = Passes l.price × Passes l.size

  abbrev pub IsValidTrade : TradeData F → Type 0
  IsValidTrade t =
      (t.coin ≢ "") × Passes t.price × Passes t.size × (t.timestamp ≢ 0) × (t.trade_id ≢ "")

  abbrev pub IsValidBook : OrderBookData F → Type 0
  IsValidBook b =
      (b.coin ≢ "") × (b.timestamp ≢ 0) × All IsValidLevel b.bids × All IsValidLevel b.asks

  abbrev pub IsValid : MessageData F → Type 0
  IsValid (trade t) = IsValidTrade t
  IsValid (order_book b) = IsValidBook b
  IsValid (subscription_response r) = (r.subscription_type ≢ "") × (r.coin ≢ "")
  IsValid (error_message e) = e.message ≢ ""

  check_levels-ok :
      (problem : F → F → Problem F) (ls : List (OrderBookLevel F))
      → (check_levels j problem ls ≡ ok tt) ↔ All IsValidLevel ls
  unfolding check_levels
  check_levels-ok problem [] = ground arith
  check_levels-ok problem (l ∷ ls) = ground (arith, check_levels-ok problem ls)

  validate_data_iff : (d : MessageData F) → (validate_data j d ≡ ok tt) ↔ IsValid d
  validate_data_iff (trade t) = ground (arith, is_empty_iff t.coin, is_empty_iff t.trade_id)
  validate_data_iff (order_book b) = ground (
    arith,
    is_empty_iff b.coin,
    check_levels-ok invalid_bid b.bids,
    check_levels-ok invalid_ask b.asks,
  )
  validate_data_iff (subscription_response r) =
      ground (arith, is_empty_iff r.coin, is_empty_iff r.subscription_type)
  validate_data_iff (error_message e) = ground (arith, is_empty_iff e.message)

  -- A message passes validation exactly when every text that it must have is there, its timestamp
  -- (of a trade or a book) is not 0, and no price or size in it, those of every level of a book
  -- included, passes the test `<= 0.0`.
  pub validate_message_iff :
      (m : HyperLiquidMessage F) → (validate_message j m ≡ ok tt) ↔ IsValid m.data_of
  unfolding validate_message
  validate_message_iff m = validate_data_iff m.data_of

  -- The channel of a message, by its data, and what is sure of its data.
  abbrev pub channel_of : MessageData F → String
  channel_of (trade t) = "trades"
  channel_of (order_book b) = "l2Book"
  channel_of (subscription_response r) = "subscriptionResponse"
  channel_of (error_message e) = "error"

  abbrev pub IsChecked : MessageData F → Type 0
  IsChecked (error_message e) = Unit
  IsChecked d = IsValid d

  abbrev pub IsSound : HyperLiquidMessage F → Type 0
  IsSound m = (m.channel ≡ channel_of m.data_of) × IsChecked m.data_of

  IsValid-IsChecked : (d : MessageData F) → IsValid d → IsChecked d
  IsValid-IsChecked (trade t) v = v
  IsValid-IsChecked (order_book b) v = v
  IsValid-IsChecked (subscription_response r) v = v
  IsValid-IsChecked (error_message e) v = tt

  validated-IsSound :
      (channel : String) (d : MessageData F) {m : HyperLiquidMessage F}
      → channel ≡ channel_of d
      → validated j channel d ≡ ok m
      → IsSound m
  unfolding validate_message
  validated-IsSound channel d c h =
      let (_, good, same) = >>=-ok (validate_data j d) _ h in
      ground (arith, same, IsValid-IsChecked d ((validate_data_iff d).0 good))

  bound-IsSound :
      {A : Type 0} (channel : String) (p : Parsed F A) (wrap : A → MessageData F)
      {m : HyperLiquidMessage F}
      → ((a : A) → channel ≡ channel_of (wrap a))
      → (p >>= λ a. validated j channel (wrap a)) ≡ ok m
      → IsSound m
  bound-IsSound channel p wrap c h =
      let (a, _, e) = >>=-ok p _ h in validated-IsSound channel (wrap a) (c a) e

  error_from-IsSound :
      (v : V) (text : Option String) {m : HyperLiquidMessage F}
      → error_from j "error" v text ≡ ok m
      → IsSound m
  error_from-IsSound v (some message) h = validated-IsSound "error" _ refl h
  error_from-IsSound v none h =
      let (e, _, same) = >>=-ok (parse_error j v) _ h in ground (arith, same)

  parse_channel-IsSound :
      (channel : String) (v : V) {m : HyperLiquidMessage F}
      → parse_channel j channel v ≡ ok m
      → IsSound m
  unfolding parse_channel parse_error_message
  parse_channel-IsSound channel v {m = m} =
      if-cases (str_eq channel "trades")
        (λ c. bound-IsSound channel (parse_trades j v) trade (λ t. is_name "trades" c))
        (λ _.
          if-cases (str_eq channel "l2Book")
            (λ c. bound-IsSound channel (parse_orderbook j v) order_book (λ t. is_name "l2Book" c))
            (λ _.
              if-cases (str_eq channel "subscriptionResponse")
                (λ c.
                  bound-IsSound channel (parse_response j v) subscription_response
                    (λ t. is_name "subscriptionResponse" c))
                (λ _.
                  if-cases (str_eq channel "error")
                    (λ c h.
                      error_from-IsSound v (j.as_str v)
                        (subst (λ x. error_from j x v (j.as_str v) ≡ ok m) (is_name "error" c) h))
                    (λ _ h. absurd cc))))
    where
      is_name : (name : String) → str_eq channel name ≡ true → channel ≡ name
      is_name name = (str_eq_iff channel name).0

  -- A message that is returned came on the channel that its data names, and its data is valid: but
  -- for an error message, which may be empty.
  pub parse_message-IsSound :
      (raw : String) {m : HyperLiquidMessage F} → parse_message j raw ≡ ok m → IsSound m
  unfolding parse_message
  parse_message-IsSound raw h =
      let (value, _, h₁) = >>=-ok (ok_or _ (j.from_str raw)) _ h in
      let (channel, _, h₂) = >>=-ok (ok_or _ (str_field j "channel" value)) _ h₁ in
      let (v, _, h₃) = >>=-ok (ok_or _ (j.get value "data")) _ h₂ in
      parse_channel-IsSound channel v h₃
