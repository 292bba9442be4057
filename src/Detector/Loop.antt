-- ===== src/Detector/Loop.antt =====
-- The detector's handling of events, and the loop of `start`, which ends when both channels are
-- closed: the events of a list, in the order in which `select` takes them.
use botmev.Prelude.{ℕ, ◌-◌, Bool, ◌||◌, Option, none, some, List, [], ◌∷◌, ltb, leb, if◌then◌else◌}
use botmev.Prelude.Dict.{lookup, insert}
use botmev.Rpc.Poll.{StateUpdateEvent, Node}
use botmev.Parser.Types.{TradeData, OrderBookData}
use botmev.Detector.Floats.{Floats}
use botmev.Detector.Types.{MarketDataEvent, trade_event, book_event, coin, timestamp, Opportunity}
use botmev.Detector.Defs.{
  OpportunityDetector, Readings, process_state_update, verify_opportunity_via_rpc, send,
  send_if_valid, hl_price, spread_of, arbitrage_of,
}

pub data DetectorEvent (F : Type 0) : Type 0 where
  market_data : Readings → MarketDataEvent F → DetectorEvent F
  state_update : StateUpdateEvent → DetectorEvent F

module _ {F W E : Type 0} (f : Floats F) (listening : Bool) (timeout_secs : ℕ)
    (node : Node W E) where
  -- An opportunity is sent, after the check where the settings ask for it.
  unfoldable pub emit_opportunity :
      Readings → Opportunity F → OpportunityDetector F W → OpportunityDetector F W
  emit_opportunity r o d =
      let (v, s) = verify_opportunity_via_rpc listening timeout_secs node r o d.rpc_service in
      if d.config.verify_via_rpc
      then send_if_valid r.alive o v (record d { rpc_service = s })
      else send r.alive o d

  abbrev pub compare_prices :
      Readings
      → MarketDataEvent F
      → F
      → Option F
      → OpportunityDetector F W
      → OpportunityDetector F W
  compare_prices r m price none d = d
  compare_prices r m price (some previous) d =
      if f.equal previous (f.of_u64 0) || f.equal price (f.of_u64 0)
      then d
      else if leb d.config.min_arbitrage_spread_bps (spread_of f price previous)
      then emit_opportunity r (arbitrage_of f r m price previous d.current_state) d
      else d

  abbrev pub check_price :
      Readings → MarketDataEvent F → Option F → OpportunityDetector F W → OpportunityDetector F W
  check_price r m none d = d
  check_price r m (some price) d = compare_prices r m price (lookup (coin m) d.market_prices) d

  unfoldable pub check_arbitrage_opportunity :
      Readings → MarketDataEvent F → OpportunityDetector F W → OpportunityDetector F W
  check_arbitrage_opportunity r m d =
      if ltb d.config.max_market_data_age_ms (r.now - timestamp m)
      then d
      else check_price r m (hl_price f m) d

  -- The opportunity is looked for before the price is stored.
  unfoldable pub process_trade :
      Readings → TradeData F → OpportunityDetector F W → OpportunityDetector F W
  process_trade r t d =
      let d' = check_arbitrage_opportunity r (trade_event t) d in
      record d' { market_prices = insert t.coin t.price d'.market_prices }

  unfoldable pub process_orderbook :
      Readings → OrderBookData F → OpportunityDetector F W → OpportunityDetector F W
  process_orderbook r b d =
      check_arbitrage_opportunity r (book_event b)
        (record d { order_books = insert b.coin b d.order_books })

  unfoldable pub process_market_data :
      Readings → MarketDataEvent F → OpportunityDetector F W → OpportunityDetector F W
  process_market_data r (trade_event t) d = process_trade r t d
  process_market_data r (book_event b) d = process_orderbook r b d

  unfoldable pub process_event : OpportunityDetector F W → DetectorEvent F → OpportunityDetector F W
  process_event d (market_data r m) = process_market_data r m d
  process_event d (state_update u) = process_state_update u d

  unfoldable pub run : List (DetectorEvent F) → OpportunityDetector F W → OpportunityDetector F W
  run [] d = d
  run (e ∷ es) d = run es (process_event d e)
