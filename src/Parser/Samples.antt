-- ===== src/Parser/Samples.antt =====
-- A small type of JSON values with its reader and writer, and messages in it.
use botmev.Prelude.{
  ℕ, ◌≡◌, ◌≢◌, refl, ap, false, Option, none, some, List, [], ◌∷◌, String, arith, ◌==◌,
  if◌then◌else◌,
}
use botmev.Prelude.Dict.{Dict, str_eq, str_eq_iff, lookup}
use botmev.Parser.Json.{Json}
use botmev.Parser.Types.{sell, TradeData, OrderBookData, trade}
use botmev.Parser.Checks.{IsValid}
use botmev.Parser.RoundTrip.{Writer, Reads, trade_json, book_json, message_json}

-- `nil` and `cons` make arrays, `end` and `field` objects.
pub data Value : Type 0 where
  text : String → Value
  num : ℕ → Value
  nil end : Value
  cons : Value → Value → Value
  field : String → Value → Value → Value

abbrev pub array : List Value → Value
array [] = nil
array (v ∷ vs) = cons v (array vs)

abbrev pub object : Dict Value → Value
object [] = end
object ((k, v) ∷ fs) = field k v (object fs)

abbrev items : Value → Option (List Value)
items nil = some []
items (cons v vs) = elim (items vs) [ some l ↦ some (v ∷ l) | none ↦ none ]
items _ = none

abbrev member : Value → String → Option Value
member (field i v fs) k = if str_eq i k then some v else member fs k
member _ k = none

abbrev text_of : Value → Option String
text_of (text s) = some s
text_of _ = none

abbrev num_of : Value → Option ℕ
num_of (num n) = some n
num_of _ = none

-- A reader of one text, with texts of digits for floating-point numbers.
abbrev pub reading : Value → Json Value ℕ String
reading v = record {
  from_str = λ s. if str_eq s "message" then some v else none;
  get = member;
  get_index = λ v n. none;
  as_str = text_of;
  as_u64 = num_of;
  as_i64 = λ v. none;
  as_bool = λ v. none;
  as_array = items;
  as_number = num_of;
  as_f64 = λ n. none;
  parse_float = λ s. some s;
  le_zero = λ s. str_eq s "0";
  show_u64 = λ n. if n == 12 then "12" else "13";
  show_i64 = λ n. "-1";
}

abbrev pub writer : Writer Value String
writer = record {
  object = object;
  array = array;
  string = text;
  number = num;
  show_float = λ s. s;
  to_text = λ v. "message";
}

member-object : (fs : Dict Value) (k : String) → member (object fs) k ≡ lookup k fs
unfolding lookup
member-object [] k = refl
member-object ((i, v) ∷ fs) k = ap (λ o. if str_eq i k then some v else o) (member-object fs k)

items-array : (l : List Value) → items (array l) ≡ some l
items-array [] = refl
items-array (v ∷ vs) = rw (items-array vs) refl

pub reads : (v : Value) → Reads (reading v) writer
reads v = record {
  get-object = λ fs k h. member-object fs k;
  as_array-array = items-array;
  as_str-string = λ s. refl;
  as_number-string = λ s. refl;
  as_u64-number = λ n h. refl;
  parse_float-show_float = λ s. refl;
}

pub not_empty : (s : String) → str_eq s "" ≡ false → s ≢ ""
not_empty s h e = ground (arith, str_eq_iff s "")

abbrev pub btc : TradeData String
btc = record {
  coin = "BTC";
  side = sell;
  price = "43250.5";
  size = "0.5";
  timestamp = 1_700_000_000_000;
  trade_id = "12";
}

abbrev pub eth : TradeData String
eth = record btc { coin = "ETH" }

pub btc-IsValid : IsValid (reading nil) (trade btc)
btc-IsValid = (not_empty "BTC" refl, refl, refl, omega arith, not_empty "12" refl)

abbrev pub trades_message : Value
trades_message =
    message_json writer "trades" (array (trade_json writer btc ∷ trade_json writer eth ∷ []))

abbrev pub book : OrderBookData String
book = record {
  coin = "BTC";
  bids = record { price = "99"; size = "1" } ∷ record { price = "98"; size = "2" } ∷ [];
  asks = record { price = "101"; size = "3" } ∷ [];
  timestamp = 7;
}

abbrev pub book_message : Value
book_message = message_json writer "l2Book" (book_json writer book)

-- A confirmation of a subscription.
abbrev pub confirmation : Value
confirmation = message_json writer "subscriptionResponse" (
    object (
      ("method", text "subscribe")
      ∷ ("subscription", object (("type", text "trades") ∷ ("coin", text "BTC") ∷ []))
      ∷ []))
