-- ===== src/Detector/Types.antt =====
-- Market data, opportunities and the settings of the detector (types.rs and
-- opportunity_detector.rs). Addresses and hashes are texts; `U256` is a number.
use botmev.Prelude.{ℕ, Bool, true, false, Option, none, some, String, leb}
use botmev.Rpc.Poll.{BlockchainState}
use botmev.Parser.Types.{TradeData, OrderBookData}

pub data MarketDataEvent (F : Type 0) : Type 0 where
  trade_event : TradeData F → MarketDataEvent F
  book_event : OrderBookData F → MarketDataEvent F

unfoldable pub coin : {F : Type 0} → MarketDataEvent F → String
coin (trade_event t) = t.coin
coin (book_event b) = b.coin

unfoldable pub timestamp : {F : Type 0} → MarketDataEvent F → ℕ
timestamp (trade_event t) = t.timestamp
timestamp (book_event b) = b.timestamp

-- Arbitrage has the venues to buy from and to sell to, the token and the spread in basis points.
pub data OpportunityType : Type 0 where
  arbitrage : String → String → String → ℕ → OpportunityType
  liquidation : String → String → String → ℕ → OpportunityType
  front_run : String → String → ℕ → OpportunityType

pub record Opportunity (F : Type 0) : Type 0 where
  pub opportunity_type : OpportunityType
  pub expected_profit : ℕ
  pub market_data : MarketDataEvent F
  pub blockchain_state : BlockchainState
  pub verified : Bool
  pub detected_at : ℕ
  pub expires_at : Option ℕ

-- `now` is the reading of the clock.
unfoldable pub new_opportunity :
    {F : Type 0} → ℕ → OpportunityType → ℕ → MarketDataEvent F → BlockchainState → Opportunity F
new_opportunity now t profit data_event state = record {
  opportunity_type = t;
  expected_profit = profit;
  market_data = data_event;
  blockchain_state = state;
  verified = false;
  detected_at = now;
  expires_at = none;
}

unfoldable pub mark_verified : {F : Type 0} → Opportunity F → Opportunity F
mark_verified o = record o { verified = true }

unfoldable pub set_expiration : {F : Type 0} → ℕ → Opportunity F → Opportunity F
set_expiration at o = record o { expires_at = some at }

abbrev expired_by : ℕ → Option ℕ → Bool
expired_by now none = false
expired_by now (some at) = leb at now

unfoldable pub is_expired : {F : Type 0} → ℕ → Opportunity F → Bool
is_expired now o = expired_by now o.expires_at

pub record OpportunityDetectorConfig : Type 0 where
  pub min_arbitrage_spread_bps : ℕ
  pub max_market_data_age_ms : ℕ
  pub verify_via_rpc : Bool

abbrev pub default_config : OpportunityDetectorConfig
default_config = record {
  min_arbitrage_spread_bps = 30;
  max_market_data_age_ms = 5000;
  verify_via_rpc = true;
}
