-- ===== src/Rpc/Breaker.antt =====
-- `CircuitBreaker`. Its three atomics are numbers; the instants are the seconds since 1970 that
-- `SystemTime::now()` gives. `u64` arithmetic wraps round, also where the clock is set back.
use botmev.Prelude.{ℕ, Bool, true, false, leb, ◌==◌, if◌then◌else◌, add64, sub64}

abbrev pub circuit_breaker_threshold : ℕ
circuit_breaker_threshold = 5

abbrev pub circuit_breaker_cooldown_secs : ℕ
circuit_breaker_cooldown_secs = 30

pub data CircuitBreakerState : Type 0 where
  closed opened half_open : CircuitBreakerState

pub record CircuitBreaker : Type 0 where
  pub state : ℕ
  pub consecutive_failures : ℕ
  pub opened_at : ℕ

unfoldable pub new : CircuitBreaker
new = record { state = 0; consecutive_failures = 0; opened_at = 0 }

unfoldable pub get_state : CircuitBreaker → CircuitBreakerState
get_state b = if b.state == 1 then opened else if b.state == 2 then half_open else closed

abbrev pub state_code : CircuitBreakerState → ℕ
state_code closed = 0
state_code opened = 1
state_code half_open = 2

unfoldable pub set_state : CircuitBreaker → CircuitBreakerState → CircuitBreaker
set_state b s = record b { state = state_code s }

abbrev allow_in : ℕ → CircuitBreaker → CircuitBreakerState → Bool × CircuitBreaker
allow_in now b closed = (true, b)
allow_in now b opened =
    if leb circuit_breaker_cooldown_secs (sub64 now b.opened_at)
    then (true, set_state b half_open)
    else (false, b)
allow_in now b half_open = (true, b)

unfoldable pub should_allow_request : ℕ → CircuitBreaker → Bool × CircuitBreaker
should_allow_request now b = allow_in now b (get_state b)

abbrev success_in : CircuitBreaker → CircuitBreakerState → CircuitBreaker
success_in b closed = record b { consecutive_failures = 0 }
success_in b half_open = record (set_state b closed) { consecutive_failures = 0 }
success_in b opened = record (set_state b closed) { consecutive_failures = 0 }

unfoldable pub record_success : CircuitBreaker → CircuitBreaker
record_success b = success_in b (get_state b)

-- `b` has the failure counted already.
abbrev failure_in : ℕ → CircuitBreaker → CircuitBreakerState → CircuitBreaker
failure_in now b closed =
    if leb circuit_breaker_threshold b.consecutive_failures
    then record (set_state b opened) { opened_at = now }
    else b
failure_in now b half_open = record (set_state b opened) { opened_at = now }
failure_in now b opened = b

unfoldable pub record_failure : ℕ → CircuitBreaker → CircuitBreaker
record_failure now b =
    failure_in now (record b { consecutive_failures = add64 b.consecutive_failures 1 })
      (get_state b)
