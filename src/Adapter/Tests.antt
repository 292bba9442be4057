-- ===== src/Adapter/Tests.antt =====
-- Three coins sold at five dollars each, in whole numbers.
use botmev.Prelude.{ℕ, ◌≡◌, ◌↔◌, refl, some, [], ◌∷◌}
use botmev.Prelude.Dict.{lookup, insert}
use botmev.Prelude.Results.{ok}
use botmev.Prelude.Whole.{whole}
use botmev.Parser.Types.{TradeData, sell}
use botmev.Adapter.Defs.{
  TradeDataAdapter, AdaptedTradeEvent, new, parse_mapping, adapt_trade, create_swap_data,
  calculate_swap_amounts, map_coin_to_address, get_token_decimals, float_to_u256,
}
use botmev.Adapter.Swaps.{Adapted, decimals_of, adapt_trade_iff}
use botmev.Adapter.Mirror.{opposite, mirrored, adapt_trade-opposite}

abbrev adapter : TradeDataAdapter
adapter = record {
  chain_id = 998;
  token_mapping = ("BTC", "0xb") ∷ ("USDC", "0xc") ∷ [];
  token_decimals = ("USDC", 6) ∷ ("USDT", 6) ∷ [];
}

abbrev sold : TradeData ℕ
sold = record { coin = "BTC"; side = sell; price = 5; size = 3; timestamp = 7_500; trade_id = "9" }

abbrev event : AdaptedTradeEvent ℕ
event = record {
  hash = "hl_trade_9";
  sender = "0x0000000000000000000000000000000000000001";
  to = "0x0000000000000000000000000000000000000002";
  value = 0;
  gas_price = 0;
  timestamp = 7;
  swap_data = some (record {
    dex = "HyperLiquid";
    token_in = "0xb";
    token_out = "0xc";
    amount_in = 3_000_000_000_000_000_000;
    amount_out = 15_000_000;
    price = 5;
  });
}

makes : new some 998 (("BTC", "0xb") ∷ ("USDC", "0xc") ∷ []) ≡ ok adapter
unfolding new parse_mapping insert
makes = refl

adapts : adapt_trade whole sold adapter ≡ ok event
unfolding adapt_trade create_swap_data calculate_swap_amounts map_coin_to_address get_token_decimals
    float_to_u256 lookup
adapts = refl

adapt_trade_iff_example :
    (adapt_trade whole sold adapter ≡ ok event) ↔ Adapted whole decimals_of sold adapter event
adapt_trade_iff_example =
    adapt_trade_iff whole some 998 (("BTC", "0xb") ∷ ("USDC", "0xc") ∷ []) adapter makes sold event

adapt_trade-opposite_example : adapt_trade whole (opposite sold) adapter ≡ ok (mirrored event)
adapt_trade-opposite_example = adapt_trade-opposite whole sold adapter event adapts
