-- ===== src/Adapter/Defs.antt =====
-- `TradeDataAdapter`. Addresses are their texts, read by `from_str` of another crate; metrics are left
-- out.
use botmev.Prelude.{ℕ, ◌-◌, ◌^◌, ◌/◌, Option, none, some, [], ◌∷◌, String, if◌then◌else◌}
use botmev.Prelude.Dict.{Dict, lookup, insert}
use botmev.Prelude.Floats.{F64}
use botmev.Prelude.Results.{Result, ok, err, ◌>>=◌, ok_or, unwrap_or}
use botmev.Prelude.Text.{concat}
use botmev.Parser.Types.{TradeSide, buy, sell, TradeData}

pub record TradeDataAdapter : Type 0 where
  pub chain_id : ℕ
  pub token_mapping : Dict String
  pub token_decimals : Dict ℕ

pub record SwapData (F : Type 0) : Type 0 where
  pub dex : String
  pub token_in : String
  pub token_out : String
  pub amount_in : ℕ
  pub amount_out : ℕ
  pub price : F

pub record AdaptedTradeEvent (F : Type 0) : Type 0 where
  pub hash : String
  pub sender : String
  pub to : String
  pub value : ℕ
  pub gas_price : ℕ
  pub timestamp : ℕ
  pub swap_data : Option (SwapData F)

pub data AdaptError : Type 0 where
  invalid_address unknown_coin missing_usdc negative_value too_large : AdaptError

module _ (from_str : String → Option String) where
  -- The addresses read so far are `parsed`.
  unfoldable pub parse_mapping : Dict String → Dict String → Result AdaptError (Dict String)
  parse_mapping [] parsed = ok parsed
  parse_mapping ((coin, text) ∷ rest) parsed = elim (from_str text) [
    | none ↦ err invalid_address
    | some address ↦ parse_mapping rest (insert coin address parsed)
  ]

  unfoldable pub new : ℕ → Dict String → Result AdaptError TradeDataAdapter
  new chain_id token_mapping = do
    parsed ← parse_mapping token_mapping []
    ok (record {
      chain_id = chain_id;
      token_mapping = parsed;
      token_decimals = insert "USDT" 6 (insert "USDC" 6 []);
    })

unfoldable pub map_coin_to_address : String → TradeDataAdapter → Option String
map_coin_to_address coin a = lookup coin a.token_mapping

unfoldable pub get_token_decimals : String → TradeDataAdapter → ℕ
get_token_decimals coin a = unwrap_or 18 (lookup coin a.token_decimals)

module _ {F : Type 0} (f : F64 F) where
  -- `value * 10^decimals`.
  abbrev pub scaled_value : F → ℕ → F
  scaled_value value decimals = f.mul value (f.powi (f.decimal 10 0) decimals)

  unfoldable pub float_to_u256 : F → ℕ → Result AdaptError ℕ
  float_to_u256 value decimals =
      if f.less value (f.decimal 0 0)
      then err negative_value
      else if f.less (f.of_u128 (2 ^ 128 - 1)) (scaled_value value decimals)
      then err too_large
      else ok (f.to_u128 (scaled_value value decimals))

  abbrev pub amounts_by : TradeSide → F → ℕ → F → ℕ → Result AdaptError (ℕ × ℕ)
  amounts_by buy usdc_value usdc_decimals size coin_decimals = do
    amount_in ← float_to_u256 usdc_value usdc_decimals
    amount_out ← float_to_u256 size coin_decimals
    ok (amount_in, amount_out)
  amounts_by sell usdc_value usdc_decimals size coin_decimals = do
    amount_in ← float_to_u256 size coin_decimals
    amount_out ← float_to_u256 usdc_value usdc_decimals
    ok (amount_in, amount_out)

  unfoldable pub calculate_swap_amounts : TradeData F → TradeDataAdapter → Result AdaptError (ℕ × ℕ)
  calculate_swap_amounts t a =
      amounts_by t.side (f.mul t.price t.size) (get_token_decimals "USDC" a) t.size
        (get_token_decimals t.coin a)

  -- What goes in and what comes out.
  abbrev pub tokens_by : TradeSide → String → String → String × String
  tokens_by buy usdc coin = (usdc, coin)
  tokens_by sell usdc coin = (coin, usdc)

  abbrev pub swap_of : TradeData F → String × String → ℕ × ℕ → SwapData F
  swap_of t (token_in, token_out) (amount_in, amount_out) = record {
    dex = "HyperLiquid";
    token_in = token_in;
    token_out = token_out;
    amount_in = amount_in;
    amount_out = amount_out;
    price = t.price;
  }

  unfoldable pub create_swap_data : TradeData F → TradeDataAdapter → Result AdaptError (SwapData F)
  unfolding calculate_swap_amounts
  create_swap_data t a = do
    coin ← ok_or unknown_coin (map_coin_to_address t.coin a)
    usdc ← ok_or missing_usdc (map_coin_to_address "USDC" a)
    amounts ← calculate_swap_amounts t a
    ok (swap_of t (tokens_by t.side usdc coin) amounts)

  abbrev pub event_of : TradeData F → SwapData F → AdaptedTradeEvent F
  event_of t swap = record {
    hash = concat "hl_trade_" t.trade_id;
    sender = "0x0000000000000000000000000000000000000001";
    to = "0x0000000000000000000000000000000000000002";
    value = 0;
    gas_price = 0;
    timestamp = t.timestamp / 1000;
    swap_data = some swap;
  }

  unfoldable pub adapt_trade :
      TradeData F → TradeDataAdapter → Result AdaptError (AdaptedTradeEvent F)
  unfolding create_swap_data
  adapt_trade t a = do swap ← create_swap_data t a; ok (event_of t swap)
