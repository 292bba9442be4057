-- ===== src/WebSocket/Attempts.antt =====
-- How often a coin's subscriptions are tried.
use botmev.Prelude.{ℕ, ◌≤◌, ◌≡◌, ◌⊎◌, inl, refl, ◌∙◌, Bool, true, List, [], ◌∷◌, String, arith}
use botmev.WebSocket.Subscription.{
  TradingPair, SubscriptionState, new_subscription, is_fully_subscribed, should_retry,
  record_attempt, record_confirmation, reset, subscribe_with_retry, retry_failed_subscriptions,
  handle_subscription_response, Event, connects, ticks, responds, handle_event, handle_events,
}

-- At most three attempts of each kind, and none of a kind that is not configured.
abbrev pub IsBounded : TradingPair → SubscriptionState → Type 0
IsBounded p s =
    (s.pair ≡ p)
    × (s.trades_attempts ≤ 3)
    × (s.orderbook_attempts ≤ 3)
    × (s.trades_attempts ≡ 0 ⊎ p.subscribe_trades ≡ true)
    × (s.orderbook_attempts ≡ 0 ⊎ p.subscribe_orderbook ≡ true)

connects-IsBounded :
    (p : TradingPair) (s : SubscriptionState) (now : ℕ) (b : Bool)
    → s.pair ≡ p
    → IsBounded p (handle_event s (connects now b))
unfolding handle_event subscribe_with_retry record_attempt reset
connects-IsBounded p s now b h = ground arith

ticks-IsBounded :
    (p : TradingPair) (s : SubscriptionState) (now later : ℕ)
    → IsBounded p s
    → IsBounded p (handle_event s (ticks now later))
unfolding handle_event retry_failed_subscriptions record_attempt should_retry
ticks-IsBounded p s now later h = ground arith

responds-IsBounded :
    (p : TradingPair) (s : SubscriptionState) (t : String) (b : Bool)
    → IsBounded p s
    → IsBounded p (handle_event s (responds t b))
unfolding handle_event handle_subscription_response record_confirmation
responds-IsBounded p s t b h = ground arith

event-IsBounded :
    (p : TradingPair) (s : SubscriptionState) (e : Event)
    → IsBounded p s
    → IsBounded p (handle_event s e)
event-IsBounded p s (connects now b) h = connects-IsBounded p s now b h.0
event-IsBounded p s (ticks now later) h = ticks-IsBounded p s now later h
event-IsBounded p s (responds t b) h = responds-IsBounded p s t b h

run-IsBounded :
    (p : TradingPair) (s : SubscriptionState) (es : List Event)
    → IsBounded p s
    → IsBounded p (handle_events s es)
unfolding handle_events
run-IsBounded p s [] h = h
run-IsBounded p s (e ∷ es) h = run-IsBounded p (handle_event s e) es (event-IsBounded p s e h)

-- Whatever happens to a coin's entry, in any order: since its connection started each kind of
-- subscription has been tried at most three times, one that `p` does not ask for never, and the
-- entry is still that of `p`.
handle_events-IsBounded :
    (p : TradingPair) (es : List Event)
    → let s = handle_events (new_subscription p) es in
      (s.pair ≡ p)
      × (s.trades_attempts ≤ 3)
      × (s.orderbook_attempts ≤ 3)
      × (s.trades_attempts ≡ 0 ⊎ p.subscribe_trades ≡ true)
      × (s.orderbook_attempts ≡ 0 ⊎ p.subscribe_orderbook ≡ true)
unfolding new_subscription
handle_events-IsBounded p es =
    run-IsBounded p (new_subscription p) es (refl, omega arith, omega arith, inl refl, inl refl)

-- No new connection starts.
abbrev pub SameConnection : List Event → Type 0
SameConnection [] = Unit
SameConnection (connects now trades_sent ∷ es) = ⊥
SameConnection (e ∷ es) = SameConnection es

ticks-idle :
    (s : SubscriptionState) (now later : ℕ)
    → is_fully_subscribed s ≡ true
    → let s' = handle_event s (ticks now later) in
      (is_fully_subscribed s' ≡ true)
      × (s'.trades_attempts ≡ s.trades_attempts)
      × (s'.orderbook_attempts ≡ s.orderbook_attempts)
unfolding handle_event retry_failed_subscriptions is_fully_subscribed
ticks-idle s now later h = ground arith

responds-idle :
    (s : SubscriptionState) (t : String) (b : Bool)
    → is_fully_subscribed s ≡ true
    → let s' = handle_event s (responds t b) in
      (is_fully_subscribed s' ≡ true)
      × (s'.trades_attempts ≡ s.trades_attempts)
      × (s'.orderbook_attempts ≡ s.orderbook_attempts)
unfolding handle_event handle_subscription_response record_confirmation is_fully_subscribed
responds-idle s t b h = ground arith

-- Once a coin is fully subscribed it stays so, and nothing more is sent for it, whatever ticks and
-- responses come, as long as no new connection starts.
handle_events-idle :
    (s : SubscriptionState) (es : List Event)
    → SameConnection es
    → is_fully_subscribed s ≡ true
    → let s' = handle_events s es in
      (is_fully_subscribed s' ≡ true)
      × (s'.trades_attempts ≡ s.trades_attempts)
      × (s'.orderbook_attempts ≡ s.orderbook_attempts)
unfolding handle_events
handle_events-idle s [] same h = (h, refl, refl)
handle_events-idle s (connects now b ∷ es) same h = absurd same
handle_events-idle s (ticks now later ∷ es) same h =
    let (still, trades, orders) = ticks-idle s now later h in
    let (end, trades', orders') =
      handle_events-idle (handle_event s (ticks now later)) es same still in
    (end, trades' ∙ trades, orders' ∙ orders)
handle_events-idle s (responds t b ∷ es) same h =
    let (still, trades, orders) = responds-idle s t b h in
    let (later, trades', orders') =
      handle_events-idle (handle_event s (responds t b)) es same still in
    (later, trades' ∙ trades, orders' ∙ orders)
