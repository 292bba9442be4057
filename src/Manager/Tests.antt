-- ===== src/Manager/Tests.antt =====
-- A manager that is started and stopped, polls after an outage, and the theorems at concrete inputs.
use botmev.Prelude.{
  ℕ, Bool, String, ◌≡◌, ◌≢◌, refl, true, false, some, List, [], ◌∷◌, map, arith, All,
}
use botmev.Parser.Samples.{reading, trades_message}
use botmev.WebSocket.Handler.{text_frame, Frame, Handler, handle_messages, IsMarketData}
use botmev.Rpc.Breaker.{closed, get_state}
use botmev.Rpc.Poll.{answered, Node, Service, Times}
use botmev.Manager.Feed.{process_ws_messages, received, data_of_event, handle_messages-received}
use botmev.Manager.Polling.{run_rpc_polling, run_rpc_polling-recovers}
use botmev.Manager.Stopping.{
  HyperLiquidServiceManager, running, finished, awaits_ws, returned, new, start, stop, ws_turn,
  rpc_turn, stop_turn, turn, turns, stop-hangs,
}

abbrev started : HyperLiquidServiceManager
started = record new { ws_task = some running; rpc_task = some running }

-- The call of `stop` gets as far as the feed.
stops_polling :
    (turns (stop started) (rpc_turn ∷ stop_turn ∷ ws_turn ∷ stop_turn ∷ [])).caller ≡ awaits_ws
unfolding turns turn stop new
stops_polling = refl

-- It would return if the feed's service were told.
would_return :
    (turns
      (record (stop started) { ws_shutdown = true })
      (rpc_turn ∷ stop_turn ∷ ws_turn ∷ stop_turn ∷ [])).caller
    ≡ returned
unfolding turns turn stop new
would_return = refl

stop-hangs_example :
    let s = turns (stop (turns started (rpc_turn ∷ []))) (rpc_turn ∷ stop_turn ∷ stop_turn ∷ []) in
    (s.caller ≢ returned)
    × (s.ws_task ≡ some running)
    × ((turn s rpc_turn).rpc_task ≡ some finished)
unfolding start new
stop-hangs_example =
    stop-hangs new started (rpc_turn ∷ []) (rpc_turn ∷ stop_turn ∷ stop_turn ∷ []) refl refl

-- A node that is up again; the breaker opened at second 100.
abbrev node : Node ℕ ℕ
node = record {
  get_block_number = λ w. (answered 7, w);
  get_block = λ n w. (answered (some 1), w);
  not_found = 404;
}

abbrev broken : Service ℕ
broken = record {
  circuit_breaker = record { state = 1; consecutive_failures = 9; opened_at = 100 };
  world = record { world = 3; events = [] };
}

abbrev later : Times
later = record { asked = 130; failed = 130 }

run_rpc_polling-recovers_example :
    let b = (run_rpc_polling true 10 node ((false, later) ∷ []) broken).circuit_breaker in
    (get_state b ≡ closed) × (b.consecutive_failures ≡ 0)
unfolding run_rpc_polling
run_rpc_polling-recovers_example =
    run_rpc_polling-recovers true 10 node [] later broken 7 1 3 3 (omega arith) (omega arith) refl
      refl

abbrev handler : Handler String
handler = record {
  delivery = record {
    messages = record { queue = []; max_size = 10; dropped_count = 0 };
    sent = [];
    processed = 0;
  };
  subscription_states = [];
  total_messages_received = 0;
  total_parse_errors = 0;
}

abbrev frames : List (Bool × Frame)
frames = (true, text_frame "message") ∷ (true, text_frame "message") ∷ []

handle_messages-received_example :
    let sent = (handle_messages (reading trades_message) frames handler).delivery.sent in
    All (IsMarketData (reading trades_message)) sent
    × (map data_of_event (process_ws_messages (received sent)) ≡ map (λ m. m.data_of) sent)
handle_messages-received_example =
    handle_messages-received (reading trades_message) frames handler (tt, tt)
