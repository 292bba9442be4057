-- ===== src/Manager/Feed.antt =====
-- `process_ws_messages`, which turns the messages of the feed into the events of the detector.
use botmev.Prelude.{◌≡◌, refl, ap, Bool, true, false, Option, none, some, List, [], ◌∷◌, map, All}
use botmev.Parser.Json.{Json}
use botmev.Parser.Types.{
  MessageData, subscription_response, trade, order_book, error_message, HyperLiquidMessage,
}
use botmev.WebSocket.Handler.{
  Frame, Handler, handle_messages, AllOf, IsMarketData, handle_messages-AllOf,
}
use botmev.Detector.Types.{MarketDataEvent, trade_event, book_event}

unfoldable pub to_market_event : {F : Type 0} → MessageData F → Option (MarketDataEvent F)
to_market_event (trade t) = some (trade_event t)
to_market_event (order_book b) = some (book_event b)
to_market_event (subscription_response r) = none
to_market_event (error_message e) = none

-- The first event that finds no receiver ends the loop.
abbrev pub forward :
    {F : Type 0}
    → Bool
    → Option (MarketDataEvent F)
    → List (MarketDataEvent F)
    → List (MarketDataEvent F)
forward alive none later = later
forward true (some e) later = e ∷ later
forward false (some e) later = []

-- The events that are received; each message comes with whether there is a receiver then.
unfoldable pub process_ws_messages :
    {F : Type 0} → List (Bool × HyperLiquidMessage F) → List (MarketDataEvent F)
process_ws_messages [] = []
process_ws_messages ((alive, m) ∷ ms) =
    forward alive (to_market_event m.data_of) (process_ws_messages ms)

-- The message that an event stands for.
abbrev pub data_of_event : {F : Type 0} → MarketDataEvent F → MessageData F
data_of_event (trade_event t) = trade t
data_of_event (book_event b) = order_book b

abbrev pub received :
    {F : Type 0} → List (HyperLiquidMessage F) → List (Bool × HyperLiquidMessage F)
received = map (λ m. (true, m))

module _ {V N F : Type 0} (j : Json V N F) where
  forward-data :
      (d : MessageData F) (m : HyperLiquidMessage F) (later : List (MarketDataEvent F))
      (rest : List (MessageData F))
      → m.data_of ≡ d
      → IsMarketData j (record m { data_of = d })
      → map data_of_event later ≡ rest
      → map data_of_event (forward true (to_market_event d) later) ≡ d ∷ rest
  unfolding to_market_event
  forward-data (trade t) m later rest same v h = ap (◌∷◌ (trade t)) h
  forward-data (order_book b) m later rest same v h = ap (◌∷◌ (order_book b)) h
  forward-data (subscription_response r) m later rest same v h = absurd v
  forward-data (error_message e) m later rest same v h = absurd v

  process_ws_messages-data :
      (ms : List (HyperLiquidMessage F))
      → All (IsMarketData j) ms
      → map data_of_event (process_ws_messages (received ms)) ≡ map (λ m. m.data_of) ms
  unfolding process_ws_messages
  process_ws_messages-data [] all = refl
  process_ws_messages-data (m ∷ ms) (v, all) =
      forward-data m.data_of m (process_ws_messages (received ms)) (map (λ n. n.data_of) ms) refl v
        (process_ws_messages-data ms all)

  -- From the sockets to the detector: whatever frames come, the messages that the feed has sent, all
  -- of them trades or order books that pass validation (if those before were), reach a detector that
  -- listens one for one, in order and unchanged.
  pub handle_messages-received :
      (fs : List (Bool × Frame)) (h : Handler F)
      → AllOf (IsMarketData j) h.delivery
      → (let sent = (handle_messages j fs h).delivery.sent in
          All (IsMarketData j) sent
          × (map data_of_event (process_ws_messages (received sent)) ≡ map (λ m. m.data_of) sent))
  handle_messages-received fs h all =
      let v = (handle_messages-AllOf j fs h all).1 in
      (v, process_ws_messages-data (handle_messages j fs h).delivery.sent v)
