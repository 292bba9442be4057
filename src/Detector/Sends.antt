-- ===== src/Detector/Sends.antt =====
-- What the detector sends at one event: for a property of opportunities that all those have which are
-- found soundly at that event, it keeps being so of all that was sent.
use botmev.Prelude.{
  ℕ, ◌-◌, ◌≤◌, ◌≡◌, refl, sym, ap, ◌∙◌, Bool, true, false, ◌||◌, Option, none, some, [], ◌∷◌, tests,
  All, All-append, ltb, leb, add64, if◌then◌else◌, if-holds, if-holds_by, String,
}
use botmev.Prelude.Dict.{lookup}
use botmev.Rpc.Poll.{Node, BlockchainState}
use botmev.Detector.Floats.{Floats}
use botmev.Detector.Types.{
  MarketDataEvent, trade_event, book_event, coin, timestamp, OpportunityType, arbitrage,
  Opportunity, new_opportunity, mark_verified, set_expiration, OpportunityDetectorConfig,
}
use botmev.Detector.Defs.{
  OpportunityDetector, Readings, process_state_update, Verification, still_valid, no_longer_valid,
  unknown, send, send_if_valid, hl_price, spread_of, arbitrage_of,
}
use botmev.Detector.Loop.{
  DetectorEvent, market_data, state_update, emit_opportunity, compare_prices, check_price,
  check_arbitrage_opportunity, process_trade, process_orderbook, process_market_data, process_event,
}

-- An arbitrage between the two venues, bought where it is cheaper.
abbrev Venues : OpportunityType → Bool → ℕ → Type 0
Venues (arbitrage buy sell token spread) cheaper expected =
    (spread ≡ expected)
    × (buy ≡ (if cheaper then "HyperLiquid" else "External"))
    × (sell ≡ (if cheaper then "External" else "HyperLiquid"))
Venues _ cheaper expected = ⊥

arbitrage-Venues :
    (cheaper : Bool) (token : String) (spread : ℕ)
    → Venues
        (if cheaper
          then arbitrage "HyperLiquid" "External" token spread
          else arbitrage "External" "HyperLiquid" token spread)
        cheaper
        spread
arbitrage-Venues true token spread = (refl, refl, refl)
arbitrage-Venues false token spread = (refl, refl, refl)

module _ {F : Type 0} (f : Floats F) (c : OpportunityDetectorConfig) where
  -- What is so, but for its verification, of an opportunity that is found on the data `m` at the
  -- readings `r`, when `known` is the price that the detector has of the coin.
  abbrev pub Found : Readings → MarketDataEvent F → Option F → Opportunity F → Type 0
  Found r m known o =
      (price : F) × (previous : F) × (o.market_data ≡ m)
      × (hl_price f m ≡ some price)
      × (known ≡ some previous)
      × (r.now - timestamp m ≤ c.max_market_data_age_ms)
      × (c.min_arbitrage_spread_bps ≤ spread_of f price previous)
      × (o.expires_at ≡ some (add64 r.now 10_000))
      × Venues o.opportunity_type (f.less price previous) (spread_of f price previous)

  abbrev pub IsSoundAt : Readings → MarketDataEvent F → Option F → Opportunity F → Type 0
  IsSoundAt r m known o = (o.verified ≡ c.verify_via_rpc) × Found r m known o

  arbitrage_of-Found :
      (r : Readings) (m : MarketDataEvent F) (price previous : F) (known : Option F)
      (state : BlockchainState)
      → known ≡ some previous
      → r.now - timestamp m ≤ c.max_market_data_age_ms
      → hl_price f m ≡ some price
      → c.min_arbitrage_spread_bps ≤ spread_of f price previous
      → let o = arbitrage_of f r m price previous state in (o.verified ≡ false) × Found r m known o
  unfolding arbitrage_of new_opportunity set_expiration
  arbitrage_of-Found r m price previous known state last young has wide = (
    refl,
    (
      price,
      previous,
      refl,
      has,
      last,
      young,
      wide,
      refl,
      arbitrage-Venues (f.less price previous) _ (spread_of f price previous),
    ),
  )

  module _ (P : Opportunity F → Type 0) where
    -- The settings, and a property of what was sent.
    abbrev pub Sends : {W : Type 0} → OpportunityDetector F W → Type 0
    Sends d = (d.config ≡ c) × All P d.opportunities

    send-Sends :
        {W : Type 0} (alive : Bool) (o : Opportunity F) (d : OpportunityDetector F W)
        → P o
        → Sends d
        → Sends (send alive o d)
    send-Sends true o d s (same, all) = (same, All-append P d.opportunities (o ∷ []) all (s, tt))
    send-Sends false o d s v = v

    send_if_valid-Sends :
        {W : Type 0} (alive : Bool) (o : Opportunity F) (v : Verification)
        (d : OpportunityDetector F W)
        → P (mark_verified o)
        → Sends d
        → Sends (send_if_valid alive o v d)
    send_if_valid-Sends alive o still_valid d s v = send-Sends alive (mark_verified o) d s v
    send_if_valid-Sends alive o no_longer_valid d s v = v
    send_if_valid-Sends alive o unknown d s v = v

    module _ {W E : Type 0} (listening : Bool) (timeout_secs : ℕ) (node : Node W E) where
      emit_opportunity-Sends :
          (r : Readings) (m : MarketDataEvent F) (known : Option F) (o : Opportunity F)
          (d : OpportunityDetector F W)
          → ((x : Opportunity F) → IsSoundAt r m known x → P x)
          → o.verified ≡ false
          → Found r m known o
          → Sends d
          → Sends (emit_opportunity f listening timeout_secs node r o d)
      unfolding emit_opportunity mark_verified
      emit_opportunity-Sends r m known o d into fresh found v =
          let asked : d.config.verify_via_rpc ≡ c.verify_via_rpc = ap (λ k. k.verify_via_rpc) v.0 in
          if-holds_by Sends d.config.verify_via_rpc
            (λ on.
              send_if_valid-Sends r.alive o _ _ (into (mark_verified o) (sym on ∙ asked, found)) v)
            (λ off. send-Sends r.alive o d (into o (fresh ∙ sym off ∙ asked, found)) v)

      compare_prices-Sends :
          (r : Readings) (m : MarketDataEvent F) (price : F) (known : Option F)
          (d : OpportunityDetector F W)
          → ((x : Opportunity F) → IsSoundAt r m known x → P x)
          → r.now - timestamp m ≤ c.max_market_data_age_ms
          → hl_price f m ≡ some price
          → Sends d
          → Sends (compare_prices f listening timeout_secs node r m price known d)
      compare_prices-Sends r m price none d into young has v = v
      compare_prices-Sends r m price (some previous) d into young has v =
          if-holds Sends (f.equal previous (f.of_u64 0) || f.equal price (f.of_u64 0)) v (
            if-holds_by Sends (leb d.config.min_arbitrage_spread_bps (spread_of f price previous))
              (λ wide.
                let least : d.config.min_arbitrage_spread_bps ≡ c.min_arbitrage_spread_bps =
                  ap (λ k. k.min_arbitrage_spread_bps) v.0 in
                let (fresh, found) =
                  arbitrage_of-Found r m price previous (some previous) d.current_state refl young
                    has (omega tests) in
                emit_opportunity-Sends r m (some previous)
                  (arbitrage_of f r m price previous d.current_state) d into fresh found v)
              (λ _. v))

      check_price-Sends :
          (r : Readings) (m : MarketDataEvent F) (price : Option F) (d : OpportunityDetector F W)
          → ((x : Opportunity F) → IsSoundAt r m (lookup (coin m) d.market_prices) x → P x)
          → r.now - timestamp m ≤ c.max_market_data_age_ms
          → hl_price f m ≡ price
          → Sends d
          → Sends (check_price f listening timeout_secs node r m price d)
      check_price-Sends r m none d into young has v = v
      check_price-Sends r m (some price) d into young has v =
          compare_prices-Sends r m price (lookup (coin m) d.market_prices) d into young has v

      check_arbitrage_opportunity-Sends :
          (r : Readings) (m : MarketDataEvent F) (d : OpportunityDetector F W)
          → ((x : Opportunity F) → IsSoundAt r m (lookup (coin m) d.market_prices) x → P x)
          → Sends d
          → Sends (check_arbitrage_opportunity f listening timeout_secs node r m d)
      unfolding check_arbitrage_opportunity
      check_arbitrage_opportunity-Sends r m d into v =
          if-holds_by Sends (ltb d.config.max_market_data_age_ms (r.now - timestamp m)) (λ _. v)
            (λ young.
              let most : d.config.max_market_data_age_ms ≡ c.max_market_data_age_ms =
                ap (λ k. k.max_market_data_age_ms) v.0 in
              check_price-Sends r m (hl_price f m) d into (omega tests) refl v)

      pub process_event-Sends :
          (d : OpportunityDetector F W) (e : DetectorEvent F)
          → ((r : Readings) (m : MarketDataEvent F)
              → e ≡ market_data r m
              → (x : Opportunity F) → IsSoundAt r m (lookup (coin m) d.market_prices) x
              → P x)
          → Sends d
          → Sends (process_event f listening timeout_secs node d e)
      unfolding process_event process_market_data process_trade process_orderbook
          process_state_update
      process_event-Sends d (market_data r (trade_event t)) into v =
          check_arbitrage_opportunity-Sends r (trade_event t) d (into r (trade_event t) refl) v
      process_event-Sends d (market_data r (book_event b)) into v =
          check_arbitrage_opportunity-Sends r (book_event b) _ (into r (book_event b) refl) v
      process_event-Sends d (state_update u) into v = v
