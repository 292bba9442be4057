-- ===== src/Parser/Types.antt =====
-- The messages of the exchange, of crates/mev-hyperliquid/src/types.rs. `F` is `f64`.
use botmev.Prelude.{ℕ, Bool, Option, none, some, List, String, if◌then◌else◌}
use botmev.Prelude.Int.{ℤ}
use botmev.Prelude.Dict.{str_eq}

pub data TradeSide : Type 0 where
  buy sell : TradeSide

unfoldable pub from_hyperliquid : String → Option TradeSide
from_hyperliquid s = if str_eq s "B" then some buy else if str_eq s "A" then some sell else none

pub record TradeData (F : Type 0) : Type 0 where
  pub coin : String
  pub side : TradeSide
  pub price : F
  pub size : F
  pub timestamp : ℕ
  pub trade_id : String

pub record OrderBookLevel (F : Type 0) : Type 0 where
  pub price : F
  pub size : F

pub record OrderBookData (F : Type 0) : Type 0 where
  pub coin : String
  pub bids : List (OrderBookLevel F)
  pub asks : List (OrderBookLevel F)
  pub timestamp : ℕ

pub record SubscriptionResponse : Type 0 where
  pub subscription_type : String
  pub coin : String
  pub success : Bool
  pub error : Option String

pub record ErrorData : Type 0 where
  pub code : Option ℤ
  pub message : String

pub data MessageData (F : Type 0) : Type 0 where
  subscription_response : SubscriptionResponse → MessageData F
  trade : TradeData F → MessageData F
  order_book : OrderBookData F → MessageData F
  error_message : ErrorData → MessageData F

pub record HyperLiquidMessage (F : Type 0) : Type 0 where
  pub channel : String
  pub data_of : MessageData F
