-- ===== src/Detector/Soundness.antt =====
-- What the opportunities that the detector sends have in common, over any events.
use botmev.Prelude.{ℕ, ◌≡◌, refl, sym, ap, ◌∙◌, Bool, Option, List, [], ◌∷◌, ◌++◌, All, String}
use mathlib.Core.Path.{subst}
use mathlib.Core.List.{append_assoc}
use botmev.Prelude.Dict.{Dict, lookup}
use botmev.Detector.Prices.{price_after, last_price, process_event-Known}
use botmev.Rpc.Poll.{Node}
use botmev.Detector.Floats.{Floats}
use botmev.Detector.Types.{MarketDataEvent, coin, Opportunity, OpportunityDetectorConfig}
use botmev.Detector.Defs.{OpportunityDetector, Readings}
use botmev.Detector.Loop.{DetectorEvent, market_data, process_event, run}
use botmev.Detector.Sends.{Found, IsSoundAt, Sends, process_event-Sends}

last_price-append :
    {F : Type 0} (k : String) (es : List (DetectorEvent F)) (e : DetectorEvent F) (p : Option F)
    → last_price k (es ++ e ∷ []) p ≡ price_after k e (last_price k es p)
last_price-append k [] e p = refl
last_price-append k (x ∷ es) e p = last_price-append k es e (price_after k x p)

module _ {F : Type 0} (f : Floats F) (c : OpportunityDetectorConfig) where
  -- It is found at one of the events, and the known price is that of the coin's last trade among the
  -- events before it (or the one known at the start, if there was none).
  abbrev pub IsSound : List (DetectorEvent F) → Dict F → Opportunity F → Type 0
  IsSound es prices o =
      (before : List (DetectorEvent F)) × (r : Readings) × (m : MarketDataEvent F) × (after : List
        (DetectorEvent F))
      × (es ≡ before ++ market_data r m ∷ after)
      × IsSoundAt f c r m (last_price (coin m) before (lookup (coin m) prices)) o

module _ {F W E : Type 0} (f : Floats F) (c : OpportunityDetectorConfig) (listening : Bool)
    (timeout_secs : ℕ) (node : Node W E) where
  abbrev AllSound : List (DetectorEvent F) → Dict F → OpportunityDetector F W → Type 0
  AllSound es prices d = Sends f c (IsSound f c es prices) d

  -- The run of the events `es` after `before`.
  later-AllSound :
      (whole : List (DetectorEvent F)) (prices : Dict F) (before es : List (DetectorEvent F))
      (d : OpportunityDetector F W)
      → whole ≡ before ++ es
      → ((k : String) → lookup k d.market_prices ≡ last_price k before (lookup k prices))
      → AllSound whole prices d
      → AllSound whole prices (run f listening timeout_secs node es d)
  unfolding run
  later-AllSound whole prices before [] d split known v = v
  later-AllSound whole prices before (e ∷ es) d split known v =
      later-AllSound whole prices (before ++ e ∷ []) es
        (process_event f listening timeout_secs node d e)
        (split ∙ sym (append_assoc before (e ∷ []) es))
        (λ k.
          (process_event-Known f listening timeout_secs node k d e).0
          ∙ ap (price_after k e) (known k)
          ∙ sym (last_price-append k before e (lookup k prices)))
        (process_event-Sends f c (IsSound f c whole prices) listening timeout_secs node d e
          (λ r m at x (marked, found). (
            before,
            r,
            m,
            es,
            split ∙ ap (λ y. before ++ y ∷ es) at,
            (marked, subst (λ p. Found f c r m p x) (known (coin m)) found),
          ))
          v)

  -- Every opportunity that a detector with these settings sends, when it has sent none before, is an
  -- arbitrage found at one of the events, on market data that was no older than the settings allow.
  -- Its spread, which is at least what they ask for, is that between the data's price and the price
  -- of the same coin's last trade among the events before (or the price known at the start, if there
  -- was none); it buys on the exchange exactly if the data's price is the lower one; it expires ten
  -- seconds after it was found; and it is marked as verified exactly if the settings ask for
  -- verification.
  pub run-AllSound :
      (es : List (DetectorEvent F)) (d : OpportunityDetector F W)
      → d.config ≡ c
      → d.opportunities ≡ []
      → All (IsSound f c es d.market_prices) (run f listening timeout_secs node es d).opportunities
  run-AllSound es d same none_sent =
      (later-AllSound es d.market_prices [] es d refl (λ k. refl)
        (same, subst (All (IsSound f c es d.market_prices)) (sym none_sent) tt)).1
