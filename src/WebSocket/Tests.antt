-- ===== src/WebSocket/Tests.antt =====
-- Rounds, messages and subscriptions of a service for BTC, and the theorems at concrete inputs.
use botmev.Prelude.{
  ℕ, some, zero, suc, ◌+◌, ◌≡◌, refl, true, false, ◌&&◌, List, [], ◌∷◌, arith, All, leb,
}
use botmev.WebSocket.Reconnection
use botmev.WebSocket.Reconnection.{
  ReconnectConfig, ReconnectionState, calculate_backoff, get_backoff, seconds, pow_two,
  record_success, record_failure,
}
use botmev.WebSocket.Failures.{
  Round, succeeds, fails, Prompt, rounds, failures_in, ends_failed, rounds_lem,
}
use botmev.WebSocket.Queue
use botmev.WebSocket.Queue.{
  MessageQueue, Delivery, push, pushes, last, process_message_queue, deliver, deliver_all,
}
use botmev.WebSocket.Subscription.{
  SubscriptionState, TradingPair, Event, connects, ticks, responds, new_subscription, handle_event,
  handle_events, subscribe_with_retry, retry_failed_subscriptions, handle_subscription_response,
  record_attempt, record_confirmation, reset, should_retry, is_fully_subscribed,
}

abbrev config : ReconnectConfig
config = record { min_backoff_secs = 1; max_backoff_secs = 60; max_consecutive_failures = 10 }

abbrev start : ReconnectionState
start = Reconnection.new 0

abbrev history : List Round
history = fails 5 ∷ fails 10 ∷ succeeds (seconds 20) (seconds 20) ∷ fails (seconds 30) ∷ []

-- Two failures, a success and a failure count as three failures in a row.
success_keeps_count : (rounds config start history).consecutive_failures ≡ 3
unfolding rounds record_success record_failure Reconnection.new
success_keeps_count = refl

abbrev fail_times : ℕ → List Round
fail_times zero = []
fail_times (suc n) = fails 1 ∷ fail_times n

rounds_lem_example :
    let s' = rounds config start history in
    (s'.consecutive_failures ≡ start.consecutive_failures + failures_in history)
    × (s'.degraded ≡ (
        ends_failed false history && leb config.max_consecutive_failures s'.consecutive_failures))
unfolding Reconnection.new
rounds_lem_example =
    rounds_lem config false start history (tt, (tt, (omega arith, (tt, tt)))) (omega arith) refl

abbrev many_failures : List Round
many_failures = fail_times 64

All-Prompt : All Prompt many_failures
All-Prompt = refl_all 64
  where
    refl_all : (n : ℕ) → All Prompt (fail_times n)
    refl_all zero = tt
    refl_all (suc n) = (tt, refl_all n)

abbrev sizes : List ℕ
sizes = 4 ∷ 5 ∷ 6 ∷ []

-- The queue of size 2 drops the oldest of three messages.
drops_oldest : (pushes (Queue.new 2) sizes).queue ≡ 5 ∷ 6 ∷ []
unfolding pushes push Queue.new
drops_oldest = refl

abbrev btc : TradingPair
btc = record { coin = "BTC"; subscribe_trades = true; subscribe_orderbook = false }

abbrev quiet_feed : List Event
quiet_feed =
    connects 0 true
    ∷ ticks (seconds 5) (seconds 5)
    ∷ responds "l2Book" false
    ∷ ticks (seconds 10) (seconds 10)
    ∷ ticks (seconds 15) (seconds 15)
    ∷ []

-- Without a response the trades are asked for three times, and the service gives up.
gives_up : (handle_events (new_subscription btc) quiet_feed).trades_attempts ≡ 3
unfolding handle_events handle_event subscribe_with_retry retry_failed_subscriptions
    handle_subscription_response record_attempt reset should_retry new_subscription
gives_up = refl

-- A confirmed pair that asks for trades alone is fully subscribed.
confirmed :
    is_fully_subscribed (handle_event (new_subscription btc) (responds "trades" true)) ≡ true
unfolding is_fully_subscribed handle_event handle_subscription_response record_confirmation
    new_subscription
confirmed = refl

abbrev subscribed : SubscriptionState
subscribed = record {
  pair = btc;
  trades_attempts = 1;
  orderbook_attempts = 0;
  trades_confirmed = true;
  orderbook_confirmed = false;
  last_attempt = some 0;
}
