-- ===== src/Rpc/Retry.antt =====
-- `execute_with_retry`. The operation that is tried is a function on a state, which holds whatever
-- it reads and changes; each call of it ends in one of three ways. The waits between the calls are
-- part of the result, in milliseconds.
use botmev.Prelude.{ℕ, zero, suc, min, if◌then◌else◌, Option, none, some, List, [], ◌∷◌, mul64}
use botmev.Rpc.Breaker.{CircuitBreaker, should_allow_request, record_success, record_failure}

abbrev pub max_retry_attempts : ℕ
max_retry_attempts = 3

abbrev pub initial_backoff_ms : ℕ
initial_backoff_ms = 100

abbrev pub max_backoff_ms : ℕ
max_backoff_ms = 10_000

-- `time::timeout(d, operation()).await`: `Ok(Ok(v))`, `Ok(Err(e))`, `Err(_)`.
pub data Attempt (T E : Type 0) : Type 0 where
  succeeds : T → Attempt T E
  fails : E → Attempt T E
  times_out : Attempt T E

-- The errors that are returned; the timeout's has the seconds in its text.
pub data RpcError (E : Type 0) : Type 0 where
  breaker_open all_failed : RpcError E
  operation_error : E → RpcError E
  timed_out : ℕ → RpcError E

pub data Outcome (T E : Type 0) : Type 0 where
  ok : T → Outcome T E
  err : RpcError E → Outcome T E

abbrev pub last_or : {E : Type 0} → Option (RpcError E) → RpcError E
last_or none = all_failed
last_or (some e) = e

abbrev pub attempt_error : {T E : Type 0} → ℕ → Attempt T E → Option (RpcError E)
attempt_error timeout_secs (succeeds v) = none
attempt_error timeout_secs (fails e) = some (operation_error e)
attempt_error timeout_secs times_out = some (timed_out timeout_secs)

-- There is no wait after the last attempt.
abbrev pub slept : ℕ → ℕ → List ℕ → List ℕ
slept zero backoff_ms sleeps = sleeps
slept (suc k) backoff_ms sleeps = backoff_ms ∷ sleeps

abbrev pub next_backoff : ℕ → ℕ
next_backoff backoff_ms = min (mul64 backoff_ms 2) max_backoff_ms

-- A success returns; after an error the loop goes on with `later`.
abbrev pub unless_success :
    {T E S : Type 0} → ℕ → ℕ → S → Attempt T E → Outcome T E × List ℕ × S → Outcome T E × List ℕ × S
unless_success k backoff_ms s (succeeds v) later = (ok v, [], s)
unless_success k backoff_ms s _ (o, sleeps, s') = (o, slept k backoff_ms sleeps, s')

-- The loop, with `k` attempts left.
unfoldable pub try_attempts :
    {T E S : Type 0}
    → (S → Attempt T E × S)
    → ℕ
    → ℕ
    → ℕ
    → Option (RpcError E)
    → S
    → Outcome T E × List ℕ × S
try_attempts operation timeout_secs zero backoff_ms last_error s = (err (last_or last_error), [], s)
try_attempts operation timeout_secs (suc k) backoff_ms last_error s =
    let (attempt, s') = operation s in
    unless_success k backoff_ms s' attempt (
      try_attempts operation timeout_secs k (next_backoff backoff_ms)
        (attempt_error timeout_secs attempt) s')

abbrev pub record_outcome : {T E : Type 0} → ℕ → Outcome T E → CircuitBreaker → CircuitBreaker
record_outcome now (ok v) b = record_success b
record_outcome now (err e) b = record_failure now b

-- `asked` and `failed` are the readings of the clock by the circuit breaker.
unfoldable pub execute_with_retry :
    {T E S : Type 0}
    → (S → Attempt T E × S)
    → ℕ
    → ℕ
    → ℕ
    → CircuitBreaker
    → S
    → Outcome T E × List ℕ × CircuitBreaker × S
execute_with_retry operation timeout_secs asked failed b s =
    let (allowed, b') = should_allow_request asked b in
    let (o, sleeps, s') =
      try_attempts operation timeout_secs max_retry_attempts initial_backoff_ms none s in
    if allowed then (o, sleeps, record_outcome failed o b', s') else (err breaker_open, [], b', s)
