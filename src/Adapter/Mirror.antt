-- ===== src/Adapter/Mirror.antt =====
-- The two sides of one trade.
use botmev.Prelude.{ℕ, String, ◌≡◌, refl, ap, ◌∙◌, Option, none, some}
use botmev.Prelude.Floats.{F64}
use botmev.Prelude.Results.{ok}
use botmev.Parser.Types.{TradeSide, buy, sell, TradeData}
use botmev.Adapter.Defs.{TradeDataAdapter, AdaptedTradeEvent, SwapData, adapt_trade}
use botmev.Adapter.Swaps.{event_with, adapt_trade-Adapted, Adapted-adapt_trade}

abbrev pub other_side : TradeSide → TradeSide
other_side buy = sell
other_side sell = buy

module _ {F : Type 0} where
  abbrev pub opposite : TradeData F → TradeData F
  opposite t = record t { side = other_side t.side }

  abbrev pub reversed : Option (SwapData F) → Option (SwapData F)
  reversed none = none
  reversed (some s) = some (record s {
    token_in = s.token_out;
    token_out = s.token_in;
    amount_in = s.amount_out;
    amount_out = s.amount_in;
  })

  abbrev pub mirrored : AdaptedTradeEvent F → AdaptedTradeEvent F
  mirrored e = record e { swap_data = reversed e.swap_data }

  module _ (f : F64 F) where
    mirrored-event_with :
        (side : TradeSide) (t : TradeData F) (usdc coin : String) (m n : ℕ)
        → mirrored (event_with f side t usdc coin m n)
          ≡ event_with f (other_side side) (opposite t) usdc coin m n
    mirrored-event_with buy t usdc coin m n = refl
    mirrored-event_with sell t usdc coin m n = refl

    -- A buy and a sell that differ in nothing else: when one is adapted, so is the other, to the same event
    -- with the tokens and the amounts of the swap the other way round, although the two amounts are
    -- computed in a different order.
    pub adapt_trade-opposite :
        (t : TradeData F) (a : TradeDataAdapter) (e : AdaptedTradeEvent F)
        → adapt_trade f t a ≡ ok e
        → adapt_trade f (opposite t) a ≡ ok (mirrored e)
    adapt_trade-opposite t a e h =
        let p = adapt_trade-Adapted f t a {e = e} h in
        Adapted-adapt_trade f (opposite t) a (mirrored e) (record {
          usdc = p.usdc;
          coin = p.coin;
          usdc_mapped = p.usdc_mapped;
          coin_mapped = p.coin_mapped;
          usdc_amount = p.usdc_amount;
          coin_amount = p.coin_amount;
          usdc_scaled = p.usdc_scaled;
          coin_scaled = p.coin_scaled;
          is =
              ap mirrored p.is
              ∙ mirrored-event_with t.side t p.usdc p.coin p.usdc_amount p.coin_amount;
        })
