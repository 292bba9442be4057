-- ===== src/WebSocket/Subscription.antt =====
-- `SubscriptionState`, and what a connection does with the entry of one coin in
-- `subscription_states`: the entry is reset and subscribed when the connection starts
-- (`run_message_loop`, `subscribe_with_retry`), tried again every five seconds
-- (`retry_failed_subscriptions`), and confirmed by responses. Every operation of the map treats its
-- entries one by one, so that the model follows the entry of one coin, which the configuration
-- lists once. Sending is tokio-tungstenite's: whether it works is an argument. Attempts are `u32`.
use botmev.Prelude.{
  ℕ, ◌-◌, Bool, true, false, not, ◌&&◌, ◌||◌, Option, none, some, List, [], ◌∷◌, String, leb,
  if◌then◌else◌, add32,
}
use botmev.Prelude.Dict.{str_eq}
use botmev.WebSocket.Reconnection.{seconds}

pub record TradingPair : Type 0 where
  pub coin : String
  pub subscribe_trades : Bool
  pub subscribe_orderbook : Bool

pub record SubscriptionState : Type 0 where
  pub pair : TradingPair
  pub trades_attempts : ℕ
  pub orderbook_attempts : ℕ
  pub trades_confirmed : Bool
  pub orderbook_confirmed : Bool
  pub last_attempt : Option ℕ

unfoldable pub new_subscription : TradingPair → SubscriptionState
new_subscription p = record {
  pair = p;
  trades_attempts = 0;
  orderbook_attempts = 0;
  trades_confirmed = false;
  orderbook_confirmed = false;
  last_attempt = none;
}

unfoldable pub is_fully_subscribed : SubscriptionState → Bool
is_fully_subscribed s =
    (not s.pair.subscribe_trades || s.trades_confirmed)
    && (not s.pair.subscribe_orderbook || s.orderbook_confirmed)

waited : ℕ → Option ℕ → Bool
waited now none = true
waited now (some last) = leb (seconds 5) (now - last)

unfoldable pub should_retry : ℕ → String → SubscriptionState → Bool
unfolding waited
should_retry now t s =
    if str_eq t "trades"
    then not (leb 3 s.trades_attempts) && waited now s.last_attempt
    else if str_eq t "l2Book"
    then not (leb 3 s.orderbook_attempts) && waited now s.last_attempt
    else false

unfoldable pub record_attempt : ℕ → String → SubscriptionState → SubscriptionState
record_attempt now t s =
    if str_eq t "trades"
    then record s { trades_attempts = add32 s.trades_attempts 1; last_attempt = some now }
    else if str_eq t "l2Book"
    then record s { orderbook_attempts = add32 s.orderbook_attempts 1; last_attempt = some now }
    else record s { last_attempt = some now }

unfoldable pub record_confirmation : String → SubscriptionState → SubscriptionState
record_confirmation t s =
    if str_eq t "trades"
    then record s { trades_confirmed = true }
    else if str_eq t "l2Book"
    then record s { orderbook_confirmed = true }
    else s

unfoldable pub reset : SubscriptionState → SubscriptionState
reset s = record s {
  trades_attempts = 0;
  orderbook_attempts = 0;
  trades_confirmed = false;
  orderbook_confirmed = false;
  last_attempt = none;
}

-- `send_subscription` records the attempt before it sends. `subscribe_with_retry` ends at the first
-- message that cannot be sent: `trades_sent` says whether that of the trades is.
unfoldable pub subscribe_with_retry : ℕ → Bool → SubscriptionState → SubscriptionState
subscribe_with_retry now trades_sent s =
    let tried = if s.pair.subscribe_trades then record_attempt now "trades" s else s in
    if (not s.pair.subscribe_trades || trades_sent) && s.pair.subscribe_orderbook
    then record_attempt now "l2Book" tried
    else tried

-- Both tests are made at `now`, before either attempt is recorded.
unfoldable pub retry_failed_subscriptions : ℕ → ℕ → SubscriptionState → SubscriptionState
retry_failed_subscriptions now later s =
    let trades = s.pair.subscribe_trades && not s.trades_confirmed && should_retry now "trades" s in
    let orderbook =
      s.pair.subscribe_orderbook && not s.orderbook_confirmed && should_retry now "l2Book" s in
    let tried = if trades then record_attempt later "trades" s else s in
    if orderbook then record_attempt later "l2Book" tried else tried

unfoldable pub handle_subscription_response : String → Bool → SubscriptionState → SubscriptionState
handle_subscription_response t success s = if success then record_confirmation t s else s

-- What happens to the entry: a connection starts, the interval ticks, a response comes.
pub data Event : Type 0 where
  connects : ℕ → Bool → Event
  ticks : ℕ → ℕ → Event
  responds : String → Bool → Event

unfoldable pub handle_event : SubscriptionState → Event → SubscriptionState
handle_event s (connects now trades_sent) = subscribe_with_retry now trades_sent (reset s)
handle_event s (ticks now later) = retry_failed_subscriptions now later s
handle_event s (responds t success) = handle_subscription_response t success s

unfoldable pub handle_events : SubscriptionState → List Event → SubscriptionState
handle_events s [] = s
handle_events s (e ∷ es) = handle_events (handle_event s e) es
