-- ===== src/Opportunities.antt =====
-- crates/mev-core/src/strategy_types.rs: what a strategy finds, the engine that asks every strategy,
-- and the two mock strategies. `F` is `f64`; identifiers, clock readings and random numbers are
-- arguments.
use botmev.Prelude.{ℕ, ◌+◌, Bool, true, none, some, List, [], ◌∷◌, ◌++◌, String, ltb, if◌then◌else◌}
use botmev.Prelude.Dict.{Dict}
use botmev.Prelude.Floats.{F64}
use botmev.Prelude.Results.{Result, ok, err}
use botmev.Prelude.Text.{parse_unsigned}
use botmev.Types.{ParsedTransaction, uniswap_v2, uniswap_v3, sushi_swap, curve, TargetType}

pub data OpportunityType (F : Type 0) : Type 0 where
  -- The tokens, the amount, the expected profit and the path.
  arbitrage : String → String → ℕ → ℕ → List String → OpportunityType F
  -- The target's hash, the affected token, the price impact and the action.
  backrun : String → String → F → String → OpportunityType F
  -- The victim's hash, the pair, the amounts in front and behind, and the expected profit.
  sandwich : String → String × String → ℕ → ℕ → ℕ → OpportunityType F
  -- The protocol, the owner, the tokens, the amount and the bonus.
  liquidation : String → String → String → String → ℕ → F → OpportunityType F

pub record Opportunity (F : Type 0) : Type 0 where
  pub id : String
  pub strategy_name : String
  pub target_transaction : ParsedTransaction
  pub opportunity_type : OpportunityType F
  pub estimated_profit_wei : ℕ
  pub estimated_gas_cost_wei : ℕ
  pub confidence_score : F
  pub priority : ℕ
  pub expiry_timestamp : ℕ
  pub metadata : Dict String

pub data StrategyResult (F : Type 0) : Type 0 where
  opportunity : Opportunity F → StrategyResult F
  no_opportunity : StrategyResult F
  error : String → StrategyResult F

-- The trait; an `Err` is its text.
pub record Strategy (F : Type 0) : Type 0 where
  pub name : String
  pub is_enabled : Bool
  pub evaluate : ParsedTransaction → Result String (StrategyResult F)

pub record MockStrategyEngine (F : Type 0) : Type 0 where
  pub strategies : List (Strategy F)

module _ {F : Type 0} where
  unfoldable pub new : MockStrategyEngine F
  new = record { strategies = [] }

  unfoldable pub register_strategy : Strategy F → MockStrategyEngine F → MockStrategyEngine F
  register_strategy s e = record { strategies = e.strategies ++ s ∷ [] }

  abbrev pub push_found :
      Result String (StrategyResult F) → List (Opportunity F) → List (Opportunity F)
  push_found (ok (opportunity o)) rest = o ∷ rest
  push_found (ok no_opportunity) rest = rest
  push_found (ok (error e)) rest = rest
  push_found (err e) rest = rest

  unfoldable pub evaluate_all : List (Strategy F) → ParsedTransaction → List (Opportunity F)
  evaluate_all [] tx = []
  evaluate_all (s ∷ ss) tx =
      let rest = evaluate_all ss tx in
      if s.is_enabled then push_found (s.evaluate tx) rest else rest

  -- Failures of strategies are only logged, so that the engine has no `Err`.
  unfoldable pub evaluate_transaction :
      MockStrategyEngine F → ParsedTransaction → List (Opportunity F)
  unfolding evaluate_all
  evaluate_transaction e tx = evaluate_all e.strategies tx

module _ {F : Type 0} (f : F64 F) (id : String) (now : ℕ) where
  abbrev arbitrage_found : String → ParsedTransaction → Opportunity F
  arbitrage_found name tx = record {
    id = id;
    strategy_name = name;
    target_transaction = tx;
    opportunity_type =
        arbitrage "WETH" "USDC" 1_000_000_000_000_000_000 50_000_000_000_000_000
          ("UniswapV2" ∷ "SushiSwap" ∷ []);
    estimated_profit_wei = 50_000_000_000_000_000;
    estimated_gas_cost_wei = 5_000_000_000_000_000;
    confidence_score = f.decimal 75 2;
    priority = 150;
    expiry_timestamp = now + 30;
    metadata = [];
  }

  abbrev lucky : F → String → ParsedTransaction → StrategyResult F
  lucky random name tx =
      if f.less random (f.decimal 2 1)
      then opportunity (arbitrage_found name tx)
      else no_opportunity

  abbrev arbitrage_on : TargetType → F → String → ParsedTransaction → StrategyResult F
  arbitrage_on uniswap_v2 random name tx = lucky random name tx
  arbitrage_on uniswap_v3 random name tx = lucky random name tx
  arbitrage_on _ random name tx = no_opportunity

  unfoldable pub mock_arbitrage : F → Strategy F
  mock_arbitrage random = record {
    name = "mock_arbitrage";
    is_enabled = true;
    evaluate = λ tx. ok (arbitrage_on tx.target_type random "mock_arbitrage" tx);
  }

  abbrev backrun_found : String → ParsedTransaction → Opportunity F
  backrun_found name tx = record {
    id = id;
    strategy_name = name;
    target_transaction = tx;
    opportunity_type = backrun tx.transaction.hash "WETH" (f.decimal 2 2) "arbitrage";
    estimated_profit_wei = 25_000_000_000_000_000;
    estimated_gas_cost_wei = 3_000_000_000_000_000;
    confidence_score = f.decimal 85 2;
    priority = 180;
    expiry_timestamp = now + 15;
    metadata = [];
  }

  abbrev pub large : String → ParsedTransaction → StrategyResult F
  large name tx = elim (parse_unsigned 128 tx.transaction.value) [
    | none ↦ no_opportunity
    | some value ↦
        if ltb 5_000_000_000_000_000_000 value
        then opportunity (backrun_found name tx)
        else no_opportunity
  ]

  abbrev pub backrun_on : TargetType → String → ParsedTransaction → StrategyResult F
  backrun_on uniswap_v2 name tx = large name tx
  backrun_on sushi_swap name tx = large name tx
  backrun_on curve name tx = large name tx
  backrun_on _ name tx = no_opportunity

  unfoldable pub mock_backrun : Strategy F
  mock_backrun = record {
    name = "mock_backrun";
    is_enabled = true;
    evaluate = λ tx. ok (backrun_on tx.target_type "mock_backrun" tx);
  }
