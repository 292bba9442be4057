-- ===== src/Detector/Defs.antt =====
-- `OpportunityDetector`. A price is compared with the last trade's; what the receiver of the
-- opportunities has got is the list `opportunities`.
use botmev.Prelude.{
  ℕ, ◌-◌, Bool, true, false, Option, none, some, List, [], ◌∷◌, ◌++◌, String, ltb, ◌==◌, add64,
  if◌then◌else◌,
}
use botmev.Prelude.Dict.{Dict, lookup, insert}
use botmev.Rpc.Retry.{Outcome, ok, err}
use botmev.Rpc.Poll.{
  BlockchainState, new_state, StateUpdateEvent, block_number_update, token_price, balance_update,
  contract_state, state_snapshot, transaction_confirmed, transaction_failed, Node, Service, Times,
  poll_blockchain_state,
}
use botmev.Parser.Types.{OrderBookLevel, OrderBookData}
use botmev.Detector.Floats.{Floats}
use botmev.Detector.Types.{
  MarketDataEvent, trade_event, book_event, OpportunityType, arbitrage, liquidation, front_run,
  Opportunity, new_opportunity, mark_verified, set_expiration, is_expired,
  OpportunityDetectorConfig,
}

pub record OpportunityDetector (F W : Type 0) : Type 0 where
  pub config : OpportunityDetectorConfig
  pub rpc_service : Service W
  pub opportunities : List (Opportunity F)
  pub current_state : BlockchainState
  pub market_prices : Dict F
  pub order_books : Dict (OrderBookData F)

unfoldable pub with_config :
    {F W : Type 0} → Service W → OpportunityDetectorConfig → OpportunityDetector F W
with_config s c = record {
  config = c;
  rpc_service = s;
  opportunities = [];
  current_state = new_state 0 0;
  market_prices = [];
  order_books = [];
}

-- The readings of the clock while one event is processed: by the test of the age, by `new`, by
-- `is_expired`, and by the circuit breaker; and whether somebody receives the opportunities.
pub record Readings : Type 0 where
  pub now : ℕ
  pub made : ℕ
  pub checked : ℕ
  pub polled : Times
  pub alive : Bool

abbrev pub first_price : {F : Type 0} → List (OrderBookLevel F) → Option F
first_price [] = none
first_price (l ∷ ls) = some l.price

unfoldable pub best_bid : {F : Type 0} → OrderBookData F → Option F
best_bid b = first_price b.bids

unfoldable pub best_ask : {F : Type 0} → OrderBookData F → Option F
best_ask b = first_price b.asks

-- The update of the cached state; the other events change nothing.
unfoldable pub apply_update : StateUpdateEvent → BlockchainState → BlockchainState
apply_update (block_number_update n) s = record s { block_number = n }
apply_update (token_price token price) s = record s {
  token_prices = insert token price s.token_prices;
}
apply_update (contract_state address bytes) s = record s {
  contract_states = insert address bytes s.contract_states;
}
apply_update (state_snapshot t) s = t
apply_update (balance_update address balance) s = s
apply_update (transaction_confirmed hash number gas status) s = s
apply_update (transaction_failed hash reason) s = s

unfoldable pub process_state_update :
    {F W : Type 0} → StateUpdateEvent → OpportunityDetector F W → OpportunityDetector F W
process_state_update u d = record d { current_state = apply_update u d.current_state }

-- `Ok(true)`, `Ok(false)`, `Err(_)`.
pub data Verification : Type 0 where
  still_valid no_longer_valid unknown : Verification

abbrev price_is_zero : Option ℕ → Bool
price_is_zero none = false
price_is_zero (some price) = price == 0

-- The tests on the state that the poll has returned: `token` is the opportunity's.
abbrev pub judge : {E : Type 0} → String → ℕ → Outcome BlockchainState E → Verification
judge token detected (err e) = unknown
judge token detected (ok s) =
    if ltb 5 (s.block_number - detected)
    then no_longer_valid
    else if price_is_zero (lookup token s.token_prices)
    then no_longer_valid
    else still_valid

module _ {W E : Type 0} (listening : Bool) (timeout_secs : ℕ) (node : Node W E) where
  abbrev pub verify_type : Times → ℕ → OpportunityType → Service W → Verification × Service W
  verify_type t detected (arbitrage buy sell token spread) s =
      let (o, s') = poll_blockchain_state listening timeout_secs node t s in
      (judge token detected o, s')
  verify_type t detected (liquidation position collateral debt profit) s = (no_longer_valid, s)
  verify_type t detected (front_run target token impact) s = (no_longer_valid, s)

  unfoldable pub verify_opportunity_via_rpc :
      {F : Type 0} → Readings → Opportunity F → Service W → Verification × Service W
  verify_opportunity_via_rpc r o s =
      if is_expired r.checked o
      then (no_longer_valid, s)
      else verify_type r.polled o.blockchain_state.block_number o.opportunity_type s

abbrev pub send :
    {F W : Type 0} → Bool → Opportunity F → OpportunityDetector F W → OpportunityDetector F W
send true o d = record d { opportunities = d.opportunities ++ o ∷ [] }
send false o d = d

abbrev pub send_if_valid :
    {F W : Type 0}
    → Bool
    → Opportunity F
    → Verification
    → OpportunityDetector F W
    → OpportunityDetector F W
send_if_valid alive o still_valid d = send alive (mark_verified o) d
send_if_valid alive o _ d = d

module _ {F : Type 0} (f : Floats F) where
  -- The price that the market data gives: the trade's, or the middle of the book.
  abbrev mid_price : Option F → Option F → Option F
  mid_price (some bid) (some ask) = some (f.div (f.add bid ask) (f.of_u64 2))
  mid_price _ _ = none

  unfoldable pub hl_price : MarketDataEvent F → Option F
  hl_price (trade_event t) = some t.price
  hl_price (book_event b) = mid_price (best_bid b) (best_ask b)

  unfoldable pub spread_of : F → F → ℕ
  spread_of price previous =
      f.to_u64 (f.mul (f.div (f.abs (f.sub price previous)) previous) (f.of_u64 10_000))

  unfoldable pub arbitrage_of :
      Readings → MarketDataEvent F → F → F → BlockchainState → Opportunity F
  arbitrage_of r m price previous state =
      let spread = spread_of price previous in
      let kind =
        if f.less price previous
        then arbitrage "HyperLiquid" "External" "0x0000000000000000000000000000000000000000" spread
        else arbitrage "External" "HyperLiquid" "0x0000000000000000000000000000000000000000"
            spread in
      set_expiration (add64 r.now 10_000)
        (new_opportunity r.made kind (f.to_u64 (f.mul (f.of_u64 spread) (f.of_u64 1000))) m state)
