-- ===== src/Detector/Tests.antt =====
-- A detector with fractions for `f64`, and the theorems at concrete inputs.
use botmev.Prelude.{
  ℕ, ◌+◌, ◌-◌, ◌*◌, ◌/◌, ◌≡◌, refl, true, none, some, List, [], ◌∷◌, length, All, ltb, ◌==◌,
}
use botmev.Prelude.Dict.{lookup, insert}
use botmev.Rpc.Breaker.{new, get_state, should_allow_request, record_success}
use botmev.Rpc.Retry.{execute_with_retry, try_attempts}
use botmev.Rpc.Poll.{
  answered, Node, Service, Times, block_number_update, poll_once, poll_blockchain_state,
}
use botmev.Parser.Types.{buy}
use botmev.Detector.Floats.{Floats}
use botmev.Detector.Types.{
  trade_event, default_config, coin, timestamp, new_opportunity, mark_verified, set_expiration,
  is_expired,
}
use botmev.Detector.Defs.{
  OpportunityDetector, Readings, process_state_update, apply_update, verify_opportunity_via_rpc,
  hl_price, spread_of, arbitrage_of,
}
use botmev.Detector.Loop.{
  DetectorEvent, market_data, state_update, emit_opportunity, check_arbitrage_opportunity,
  process_trade, process_market_data, process_event, run,
}
use botmev.Detector.Soundness.{IsSound, run-AllSound}
use botmev.Detector.Prices.{last_price, last_book, last_state, run-Known}

abbrev Fraction : Type 0
Fraction = ℕ × ℕ

-- The signs of differences are not needed here.
abbrev fractions : Floats Fraction
fractions = record {
  add = λ x y. (x.0 * y.1 + y.0 * x.1, x.1 * y.1);
  sub = λ x y. ((x.0 * y.1 - y.0 * x.1) + (y.0 * x.1 - x.0 * y.1), x.1 * y.1);
  mul = λ x y. (x.0 * y.0, x.1 * y.1);
  div = λ x y. (x.0 * y.1, x.1 * y.0);
  abs = λ x. x;
  less = λ x y. ltb (x.0 * y.1) (y.0 * x.1);
  equal = λ x y. (x.0 * y.1) == (y.0 * x.1);
  of_u64 = λ n. (n, 1);
  to_u64 = λ x. x.0 / x.1;
}

abbrev node : Node ℕ ℕ
node = record {
  get_block_number = λ w. (answered 7, w);
  get_block = λ n w. (answered (some 1), w);
  not_found = 404;
}

abbrev at_ten : Times
at_ten = record { asked = 10; failed = 10 }

abbrev readings : Readings
readings = record { now = 9000; made = 9001; checked = 9002; polled = at_ten; alive = true }

abbrev trade_at : ℕ → DetectorEvent Fraction
trade_at price = market_data readings (
    trade_event (record {
      coin = "BTC";
      side = buy;
      price = (price, 1);
      size = (1, 1);
      timestamp = 8000;
      trade_id = "1";
    }))

abbrev events : List (DetectorEvent Fraction)
events = state_update (block_number_update 5) ∷ trade_at 100 ∷ trade_at 101 ∷ []

abbrev service : Service ℕ
service = record { circuit_breaker = new; world = record { world = 0; events = [] } }

abbrev detector : OpportunityDetector Fraction ℕ
detector = record {
  config = default_config;
  rpc_service = service;
  opportunities = [];
  current_state = record {
    block_number = 0;
    timestamp = 0;
    token_prices = [];
    contract_states = [];
  };
  market_prices = [];
  order_books = [];
}

-- One per cent is an opportunity, and it is verified.
finds_one : length (run fractions true 30 node events detector).opportunities ≡ 1
unfolding run process_event process_market_data process_trade process_state_update apply_update
    check_arbitrage_opportunity coin timestamp hl_price spread_of emit_opportunity
    verify_opportunity_via_rpc arbitrage_of new_opportunity set_expiration is_expired mark_verified
    lookup insert poll_blockchain_state poll_once execute_with_retry try_attempts
    should_allow_request record_success get_state new
finds_one = refl

run-AllSound_example :
    All
      (IsSound fractions default_config events [])
      (run fractions true 30 node events detector).opportunities
run-AllSound_example = run-AllSound fractions default_config true 30 node events detector refl refl

run-Known_example :
    let d' = run fractions true 30 node events detector in
    (lookup "BTC" d'.market_prices ≡ last_price "BTC" events none)
    × (lookup "BTC" d'.order_books ≡ last_book "BTC" events none)
    × (d'.current_state ≡ last_state events detector.current_state)
unfolding lookup
run-Known_example = run-Known fractions true 30 node "BTC" events detector
