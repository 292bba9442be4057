-- ===== src/Strategies/Unread.antt =====
-- The mempool's parser and the strategies together: the values that the node writes in hexadecimal.
use botmev.Prelude.{ℕ, ◌≡◌, false, Option, String}
use mathlib.Core.Option
use botmev.Prelude.Floats.{F64}
use botmev.Prelude.Results.{ok}
use botmev.Types.{ParsedTransaction, order_book}
use botmev.Parser.Json.{Json}
use botmev.Opportunities.{
  MockStrategyEngine, evaluate_transaction, register_strategy, mock_backrun, no_opportunity,
}
use botmev.DecisionPath.Defs.{fast_filter}
use botmev.Strategies.{is_arbitrage_candidate, is_backrun_candidate, is_sandwich_victim}

module _ {F : Type 0} (f : F64 F) where
  -- What these strategies do not look at; with any engine, the mock backrun strategy adds nothing.
  pub record Unread (p : ParsedTransaction) : Type 0 where
    pub no_arbitrage : is_arbitrage_candidate f p ≡ false
    pub no_backrun : (min_eth : Option F) → is_backrun_candidate f min_eth p ≡ false
    pub no_sandwich :
        (min_eth slippage : Option F) → is_sandwich_victim f min_eth slippage p ≡ false
    pub no_mock_backrun :
        (id : String) (now : ℕ) → (mock_backrun f id now).evaluate p ≡ ok no_opportunity
    pub adds_nothing :
        (id : String) (now : ℕ) (e : MockStrategyEngine F)
        → evaluate_transaction (register_strategy (mock_backrun f id now) e) p
          ≡ evaluate_transaction e p
    pub no_order : p.target_type ≡ order_book → fast_filter p ≡ false
