-- ===== src/Rpc/Tests.antt =====
-- Operations under the circuit breaker, polls and confirmations, and the theorems at concrete inputs.
use botmev.Prelude.{
  ℕ, zero, suc, ◌<◌, ◌≡◌, ◌↔◌, refl, true, none, some, List, [], ◌∷◌, ◌++◌, arith, ◌==◌,
  if◌then◌else◌,
}
use botmev.Rpc.Breaker.{
  closed, new, get_state, set_state, should_allow_request, record_success, record_failure,
}
use botmev.Rpc.Retry.{Attempt, succeeds, fails, times_out, ok, try_attempts, execute_with_retry}
use botmev.Rpc.Poll.{
  Reply, answered, refused, Node, World, Service, Times, poll_once, poll_blockchain_state,
  polling_tick, start_polling,
}
use botmev.Rpc.Confirm.{
  Receipt, ReceiptReply, mined, not_mined, Confirmation, confirmed, ConfirmationEvent,
  transaction_confirmed, wait_rounds, wait_for_confirmation, nanos,
}
use botmev.Rpc.History.{execute_all, since_success, circuit_breaker_lem}
use botmev.Rpc.Polling.{polls, started, start_polling-stops}
use botmev.Rpc.Waiting.{AllGoOn, Ends, wait_for_confirmation-Ends}

-- An operation that fails twice and then succeeds; the state counts its calls.
abbrev flaky : ℕ → Attempt ℕ ℕ × ℕ
flaky n = (if n == 2 then succeeds 7 else fails n, suc n)

abbrev failing : ℕ → Attempt ℕ ℕ × ℕ
failing n = (times_out, suc n)

-- The third attempt succeeds, after waits of 100 and 200 milliseconds.
flaky_run : execute_with_retry flaky 30 1000 1000 new 0 ≡ (ok 7, 100 ∷ 200 ∷ [], new, 3)
unfolding execute_with_retry try_attempts should_allow_request record_success get_state new
flaky_run = refl

abbrev calls : List ((ℕ → Attempt ℕ ℕ × ℕ) × ℕ × ℕ)
calls =
    (failing, 10, 11)
    ∷ (failing, 20, 21)
    ∷ (failing, 30, 31)
    ∷ (failing, 40, 41)
    ∷ (failing, 50, 51)
    ∷ (failing, 60, 61)
    ∷ []

-- Five operations fail; the sixth is blocked.
breaker_opens :
    (execute_all 30 calls [] new 0).1
    ≡ record { state = 1; consecutive_failures = 5; opened_at = 51 }
unfolding execute_all execute_with_retry try_attempts should_allow_request record_success
    record_failure get_state set_state new
breaker_opens = refl

-- Half a minute later one operation is let through.
breaker_half_opens :
    should_allow_request 81 (execute_all 30 calls [] new 0).1
    ≡ (true, record { state = 2; consecutive_failures = 5; opened_at = 51 })
unfolding execute_all execute_with_retry try_attempts should_allow_request record_success
    record_failure get_state set_state new
breaker_half_opens = refl

circuit_breaker_lem_example :
    let (h, b, _) = execute_all 30 calls [] new 0 in
    (b.consecutive_failures ≡ since_success h) × ((get_state b ≡ closed) ↔ (since_success h < 5))
circuit_breaker_lem_example = circuit_breaker_lem 30 calls 0 (omega arith)

-- A node that is down for its first fifteen queries.
abbrev block_number_at : ℕ → Reply ℕ ℕ × ℕ
block_number_at w = (if w == 15 then answered 100 else refused w, suc w)

abbrev node : Node ℕ ℕ
node = record {
  get_block_number = block_number_at;
  get_block = λ n w. (answered (some 5), w);
  not_found = 404;
}

abbrev turn : ℕ → Times
turn n = record { asked = n; failed = n }

abbrev early : List Times
early = turn 1 ∷ turn 2 ∷ turn 3 ∷ turn 4 ∷ turn 5 ∷ []

abbrev much_later : List Times
much_later = turn 1000 ∷ turn 2000 ∷ []

abbrev world : World ℕ
world = record { world = 0; events = [] }

start_polling-stops_example :
    start_polling true 30 node (early ++ much_later) (started true 30 node world)
    ≡ start_polling true 30 node early (started true 30 node world)
unfolding polls polling_tick poll_blockchain_state poll_once execute_with_retry try_attempts
    should_allow_request record_success record_failure get_state set_state new
start_polling-stops_example =
    start_polling-stops true 30 node world early much_later (omega arith) (omega arith)

-- The node is back when the first poll after the failures would be made.
abbrev up_again : Service ℕ
up_again = record { circuit_breaker = new; world = record { world = 15; events = [] } }

abbrev receipt : Receipt
receipt = record { block_number = some 100; gas_used = some 21_000; status = some 1 }

abbrev reply_at : ℕ → ReceiptReply
reply_at n = if n == 2 then mined receipt else not_mined

abbrev elapsed : ℕ → ℕ
elapsed zero = 0
elapsed (suc i) = nanos i

-- The third round finds the receipt.
confirms :
    wait_for_confirmation elapsed reply_at none 5
    ≡ some (confirmed receipt, transaction_confirmed 100 21_000 true ∷ [])
unfolding wait_for_confirmation wait_rounds
confirms = refl

wait_for_confirmation-Ends_example :
    (k : ℕ) × (k < 62)
    × (o : Confirmation × List ConfirmationEvent) × (wait_for_confirmation elapsed reply_at none 62
        ≡ some o)
    × AllGoOn elapsed reply_at 60 0 k
    × Ends elapsed reply_at 60 k o
wait_for_confirmation-Ends_example =
    wait_for_confirmation-Ends elapsed reply_at none (λ i. omega arith)
