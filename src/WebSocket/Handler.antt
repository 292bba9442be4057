-- ===== src/WebSocket/Handler.antt =====
-- `handle_message`: what the service does with a frame that it receives. The service's state here
-- is the queue with its receiver, the map of the subscriptions, and two counters.
use botmev.Prelude.{
  ℕ, ◌≡◌, refl, Bool, true, false, List, [], ◌∷◌, String, All, All-append, add64, leb, length,
  if-holds,
}
use botmev.Prelude.Dict.{Dict, modify}
use botmev.Prelude.Results.{ok, err}
use botmev.Parser.Json.{Json}
use botmev.Parser.Types.{
  SubscriptionResponse, MessageData, subscription_response, trade, order_book, error_message,
  HyperLiquidMessage,
}
use botmev.Parser.Defs.{Parsed}
use botmev.Parser.Message.{parse_message}
use botmev.Parser.Checks.{IsValidTrade, IsValidBook, IsChecked, parse_message-IsSound}
use botmev.WebSocket.Queue.{
  MessageQueue, Delivery, push, deliver, process_message_queue, send_all, tail,
}
use botmev.WebSocket.Subscription.{SubscriptionState, handle_subscription_response}

-- tungstenite's `Message`, with the contents that are read.
pub data Frame : Type 0 where
  text_frame : String → Frame
  binary_frame ping_frame pong_frame close_frame raw_frame : Frame

pub record Handler (F : Type 0) : Type 0 where
  pub delivery : Delivery (HyperLiquidMessage F)
  pub subscription_states : Dict SubscriptionState
  pub total_messages_received : ℕ
  pub total_parse_errors : ℕ

abbrev pub confirm : {F : Type 0} → SubscriptionResponse → Handler F → Handler F
confirm r h = record h {
  subscription_states =
      modify r.coin (handle_subscription_response r.subscription_type r.success)
        h.subscription_states;
}

-- `alive`: whether the receiver of the channel is there.
abbrev pub dispatch :
    {F : Type 0} → Bool → HyperLiquidMessage F → MessageData F → Handler F → Handler F
dispatch alive m (subscription_response r) h = confirm r h
dispatch alive m (error_message e) h = h
dispatch alive m (trade t) h = record h { delivery = deliver alive h.delivery m }
dispatch alive m (order_book b) h = record h { delivery = deliver alive h.delivery m }

abbrev pub after_parse :
    {F : Type 0} → Bool → Parsed F (HyperLiquidMessage F) → Handler F → Handler F
after_parse alive (ok m) h = dispatch alive m m.data_of h
after_parse alive (err e) h = record h { total_parse_errors = add64 h.total_parse_errors 1 }

module _ {V N F : Type 0} (j : Json V N F) where
  -- `false` is the error that ends the connection.
  unfoldable pub handle_message : Bool → Frame → Handler F → Bool × Handler F
  handle_message alive (text_frame text) h = (
    true,
    after_parse alive (parse_message j text)
        (record h { total_messages_received = add64 h.total_messages_received 1 }),
  )
  handle_message alive close_frame h = (false, h)
  handle_message alive _ h = (true, h)

  -- The frames one after another, over however many connections; each comes with what is true of the receiver then.
  unfoldable pub handle_messages : List (Bool × Frame) → Handler F → Handler F
  handle_messages [] h = h
  handle_messages ((alive, f) ∷ fs) h = handle_messages fs (handle_message alive f h).1

module _ {M : Type 0} (P : M → Type 0) where
  abbrev pub AllOf : Delivery M → Type 0
  AllOf d = All P d.messages.queue × All P d.sent

  All-tail : (l : List M) → All P l → All P (tail l)
  All-tail [] h = h
  All-tail (m ∷ l) h = h.1

  send_all-All :
      (alive : Bool) (ms sent : List M) (n : ℕ)
      → All P ms
      → All P sent
      → All P (send_all alive ms sent n).0 × All P (send_all alive ms sent n).1
  unfolding send_all
  send_all-All alive [] sent n h k = (tt, k)
  send_all-All true (m ∷ ms) sent n h k =
      send_all-All true ms _ _ h.1 (All-append P sent _ k (h.0, tt))
  send_all-All false (m ∷ ms) sent n h k = (h.1, k)

  push-All : (q : MessageQueue M) (m : M) → All P q.queue → P m → All P (push q m).queue
  unfolding push
  push-All q m h p =
      if-holds (λ (r : MessageQueue M). All P r.queue) (leb q.max_size (length q.queue))
        (All-append P (tail q.queue) (m ∷ []) (All-tail q.queue h) (p, tt))
        (All-append P q.queue (m ∷ []) h (p, tt))

  deliver-AllOf :
      (alive : Bool) (d : Delivery M) (m : M) → AllOf d → P m → AllOf (deliver alive d m)
  unfolding deliver process_message_queue
  deliver-AllOf alive d m h p =
      send_all-All alive (push d.messages m).queue d.sent d.processed (push-All d.messages m h.0 p)
        h.1

module _ {V N F : Type 0} (j : Json V N F) where
  -- What may be in front of the opportunity detector.
  abbrev IsValidEvent : MessageData F → Type 0
  IsValidEvent (trade t) = IsValidTrade j t
  IsValidEvent (order_book b) = IsValidBook j b
  IsValidEvent _ = ⊥

  abbrev pub IsMarketData : HyperLiquidMessage F → Type 0
  IsMarketData m = IsValidEvent m.data_of

  dispatch-AllOf :
      (alive : Bool) (m : HyperLiquidMessage F) (d : MessageData F) (h : Handler F)
      → IsChecked j d
      → (IsValidEvent d → IsMarketData m)
      → AllOf IsMarketData h.delivery
      → AllOf IsMarketData (dispatch alive m d h).delivery
  dispatch-AllOf alive m (subscription_response r) h v same all = all
  dispatch-AllOf alive m (error_message e) h v same all = all
  dispatch-AllOf alive m (trade t) h v same all =
      deliver-AllOf IsMarketData alive h.delivery m all (same v)
  dispatch-AllOf alive m (order_book b) h v same all =
      deliver-AllOf IsMarketData alive h.delivery m all (same v)

  after_parse-AllOf :
      (alive : Bool) (r : Parsed F (HyperLiquidMessage F)) (h : Handler F)
      → ((m : HyperLiquidMessage F) → r ≡ ok m → IsChecked j m.data_of)
      → AllOf IsMarketData h.delivery
      → AllOf IsMarketData (after_parse alive r h).delivery
  after_parse-AllOf alive (ok m) h sound all =
      dispatch-AllOf alive m m.data_of h (sound m refl) (λ v. v) all
  after_parse-AllOf alive (err e) h sound all = all

  handle_message-AllOf :
      (alive : Bool) (f : Frame) (h : Handler F)
      → AllOf IsMarketData h.delivery
      → AllOf IsMarketData (handle_message j alive f h).1.delivery
  unfolding handle_message
  handle_message-AllOf alive (text_frame text) h all =
      after_parse-AllOf alive (parse_message j text) _ (λ m e. (parse_message-IsSound j text e).1)
        all
  handle_message-AllOf alive binary_frame h all = all
  handle_message-AllOf alive ping_frame h all = all
  handle_message-AllOf alive pong_frame h all = all
  handle_message-AllOf alive close_frame h all = all
  handle_message-AllOf alive raw_frame h all = all

  -- Whatever frames come, over however many connections: if all messages that wait in the queue or
  -- have been sent are trades and order books that pass validation, all are afterwards.
  pub handle_messages-AllOf :
      (fs : List (Bool × Frame)) (h : Handler F)
      → AllOf IsMarketData h.delivery
      → AllOf IsMarketData (handle_messages j fs h).delivery
  unfolding handle_messages
  handle_messages-AllOf [] h all = all
  handle_messages-AllOf ((alive, f) ∷ fs) h all =
      handle_messages-AllOf fs (handle_message j alive f h).1 (handle_message-AllOf alive f h all)
