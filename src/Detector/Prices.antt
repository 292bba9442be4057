-- ===== src/Detector/Prices.antt =====
-- What the detector remembers: for each coin the last trade's price and the last order book, and the
-- chain's state.
use botmev.Prelude.{
  ℕ, ◌-◌, ◌≡◌, refl, ap, ◌∙◌, Bool, true, false, ◌||◌, Option, none, some, List, [], ◌∷◌, String,
  ltb, leb, if◌then◌else◌, if-holds,
}
use botmev.Prelude.Dict.{str_eq, lookup, insert, lookup-insert}
use botmev.Rpc.Poll.{Node, BlockchainState}
use botmev.Parser.Types.{OrderBookData}
use botmev.Detector.Floats.{Floats}
use botmev.Detector.Types.{MarketDataEvent, trade_event, book_event, timestamp, Opportunity}
use botmev.Detector.Defs.{
  OpportunityDetector, Readings, apply_update, process_state_update, Verification, still_valid,
  no_longer_valid, unknown, send, send_if_valid, hl_price, spread_of, arbitrage_of,
}
use botmev.Detector.Loop.{
  DetectorEvent, market_data, state_update, emit_opportunity, compare_prices, check_price,
  check_arbitrage_opportunity, process_trade, process_orderbook, process_market_data, process_event,
  run,
}

module _ {F : Type 0} where
  -- The price of the coin after an event, and after a list of them.
  abbrev pub price_after : String → DetectorEvent F → Option F → Option F
  price_after k (market_data r (trade_event t)) p = if str_eq t.coin k then some t.price else p
  price_after k _ p = p

  abbrev pub last_price : String → List (DetectorEvent F) → Option F → Option F
  last_price k [] p = p
  last_price k (e ∷ es) p = last_price k es (price_after k e p)

  abbrev book_after : String → DetectorEvent F → Option (OrderBookData F) → Option (OrderBookData F)
  book_after k (market_data r (book_event b)) p = if str_eq b.coin k then some b else p
  book_after k _ p = p

  abbrev pub last_book :
      String → List (DetectorEvent F) → Option (OrderBookData F) → Option (OrderBookData F)
  last_book k [] p = p
  last_book k (e ∷ es) p = last_book k es (book_after k e p)

  abbrev state_after : DetectorEvent F → BlockchainState → BlockchainState
  state_after (state_update u) s = apply_update u s
  state_after _ s = s

  abbrev pub last_state : List (DetectorEvent F) → BlockchainState → BlockchainState
  last_state [] s = s
  last_state (e ∷ es) s = last_state es (state_after e s)

  -- The same prices, books and state.
  abbrev Remembers : {W : Type 0} → OpportunityDetector F W → OpportunityDetector F W → Type 0
  Remembers d d' =
      (d'.market_prices ≡ d.market_prices)
      × (d'.order_books ≡ d.order_books)
      × (d'.current_state ≡ d.current_state)

  send-Remembers :
      {W : Type 0} (alive : Bool) (o : Opportunity F) (d : OpportunityDetector F W)
      → Remembers d (send alive o d)
  send-Remembers true o d = (refl, refl, refl)
  send-Remembers false o d = (refl, refl, refl)

  send_if_valid-Remembers :
      {W : Type 0} (alive : Bool) (o : Opportunity F) (v : Verification)
      (d : OpportunityDetector F W)
      → Remembers d (send_if_valid alive o v d)
  send_if_valid-Remembers alive o still_valid d = send-Remembers alive _ d
  send_if_valid-Remembers alive o no_longer_valid d = (refl, refl, refl)
  send_if_valid-Remembers alive o unknown d = (refl, refl, refl)

module _ {F W E : Type 0} (f : Floats F) (listening : Bool) (timeout_secs : ℕ)
    (node : Node W E) where
  emit_opportunity-Remembers :
      (r : Readings) (o : Opportunity F) (d : OpportunityDetector F W)
      → Remembers d (emit_opportunity f listening timeout_secs node r o d)
  unfolding emit_opportunity
  emit_opportunity-Remembers r o d =
      if-holds (Remembers d) d.config.verify_via_rpc (send_if_valid-Remembers r.alive o _ _)
        (send-Remembers r.alive o d)

  compare_prices-Remembers :
      (r : Readings) (m : MarketDataEvent F) (price : F) (known : Option F)
      (d : OpportunityDetector F W)
      → Remembers d (compare_prices f listening timeout_secs node r m price known d)
  compare_prices-Remembers r m price none d = (refl, refl, refl)
  compare_prices-Remembers r m price (some previous) d =
      if-holds (Remembers d) (f.equal previous (f.of_u64 0) || f.equal price (f.of_u64 0))
        (refl, refl, refl)
        (if-holds (Remembers d) (leb d.config.min_arbitrage_spread_bps (spread_of f price previous))
          (emit_opportunity-Remembers r (arbitrage_of f r m price previous d.current_state) d)
          (refl, refl, refl))

  check_price-Remembers :
      (r : Readings) (m : MarketDataEvent F) (price : Option F) (d : OpportunityDetector F W)
      → Remembers d (check_price f listening timeout_secs node r m price d)
  check_price-Remembers r m none d = (refl, refl, refl)
  check_price-Remembers r m (some price) d = compare_prices-Remembers r m price _ d

  check-Remembers :
      (r : Readings) (m : MarketDataEvent F) (d : OpportunityDetector F W)
      → Remembers d (check_arbitrage_opportunity f listening timeout_secs node r m d)
  unfolding check_arbitrage_opportunity
  check-Remembers r m d =
      if-holds (Remembers d) (ltb d.config.max_market_data_age_ms (r.now - timestamp m))
        (refl, refl, refl) (check_price-Remembers r m (hl_price f m) d)

  -- What is known of a coin, and the state.
  abbrev Known :
      String
      → Option F
      → Option (OrderBookData F)
      → BlockchainState
      → OpportunityDetector F W
      → Type 0
  Known k p b s d =
      (lookup k d.market_prices ≡ p) × (lookup k d.order_books ≡ b) × (d.current_state ≡ s)

  pub process_event-Known :
      (k : String) (d : OpportunityDetector F W) (e : DetectorEvent F)
      → Known k
          (price_after k e (lookup k d.market_prices))
          (book_after k e (lookup k d.order_books))
          (state_after e d.current_state)
          (process_event f listening timeout_secs node d e)
  unfolding process_event process_market_data process_trade process_orderbook process_state_update
  process_event-Known k d (market_data r (trade_event t)) =
      let (prices, books, state) = check-Remembers r (trade_event t) d in
      (
        ap (λ m. lookup k (insert t.coin t.price m)) prices
            ∙ lookup-insert t.coin k t.price d.market_prices,
        ap (lookup k) books,
        state,
      )
  process_event-Known k d (market_data r (book_event b)) =
      let d' : OpportunityDetector F W = record d { order_books = insert b.coin b d.order_books } in
      let (prices, books, state) = check-Remembers r (book_event b) d' in
      (ap (lookup k) prices, ap (lookup k) books ∙ lookup-insert b.coin k b d.order_books, state)
  process_event-Known k d (state_update u) = (refl, refl, refl)

  -- Whatever it finds and sends, and however the verification ends, the detector remembers of each
  -- coin the price of its last trade (order books set no price) and its last order book, and the
  -- chain's state after all updates.
  pub run-Known :
      (k : String) (es : List (DetectorEvent F)) (d : OpportunityDetector F W)
      → let d' = run f listening timeout_secs node es d in
        (lookup k d'.market_prices ≡ last_price k es (lookup k d.market_prices))
        × (lookup k d'.order_books ≡ last_book k es (lookup k d.order_books))
        × (d'.current_state ≡ last_state es d.current_state)
  unfolding run
  run-Known k [] d = (refl, refl, refl)
  run-Known k (e ∷ es) d =
      let (prices, books, state) = process_event-Known k d e in
      let (p, b, s) = run-Known k es (process_event f listening timeout_secs node d e) in
      (p ∙ ap (last_price k es) prices, b ∙ ap (last_book k es) books, s ∙ ap (last_state es) state)
