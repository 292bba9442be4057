-- ===== src/WebSocket/Reconnection.antt =====
-- `ReconnectionState` and `ReconnectConfig`. Instants are nanoseconds, back-offs whole seconds. An
-- operation that reads the clock twice takes both readings. Counters are `u32`, and powers and
-- products `u64`; they wrap round.
use botmev.Prelude.{
  ℕ, ◌-◌, ◌*◌, ◌%◌, ◌^◌, Bool, true, false, not, ◌&&◌, Option, none, some, min, leb, ◌==◌,
  if◌then◌else◌, add32, mul64, u64_mod,
}

pub record ReconnectConfig : Type 0 where
  pub min_backoff_secs : ℕ
  pub max_backoff_secs : ℕ
  pub max_consecutive_failures : ℕ

-- `2_u64.pow(n)`.
unfoldable pub pow_two : ℕ → ℕ
pow_two n = 2 ^ n % u64_mod

-- `attempt.saturating_sub(1)` is the subtraction of ℕ.
unfoldable pub calculate_backoff : ReconnectConfig → ℕ → ℕ
calculate_backoff c attempt =
    min (mul64 c.min_backoff_secs (pow_two (attempt - 1))) c.max_backoff_secs

pub record ReconnectionState : Type 0 where
  pub consecutive_failures : ℕ
  pub last_success : ℕ
  pub degraded : Bool
  pub last_degraded_warning : Option ℕ

unfoldable pub new : ℕ → ReconnectionState
new now = record {
  consecutive_failures = 0;
  last_success = now;
  degraded = false;
  last_degraded_warning = none;
}

abbrev pub seconds : ℕ → ℕ
seconds n = n * 1_000_000_000

-- `last_success` is set to `now`; `elapsed()` of it is then read at `later`.
unfoldable pub record_success : ℕ → ℕ → ReconnectionState → ReconnectionState
record_success now later s =
    let failures = if leb (seconds 300) (later - now) then 0 else s.consecutive_failures in
    let warning = if s.degraded then none else s.last_degraded_warning in
    record s {
      consecutive_failures = failures;
      last_success = now;
      degraded = false;
      last_degraded_warning = warning;
    }

unfoldable pub record_failure : ℕ → ℕ → ReconnectionState → ReconnectionState
record_failure now max_failures s =
    let failures = add32 s.consecutive_failures 1 in
    if leb max_failures failures && not s.degraded
    then record s {
      consecutive_failures = failures;
      degraded = true;
      last_degraded_warning = some now;
    }
    else record s { consecutive_failures = failures }

warn_after : ℕ → ℕ → ReconnectionState → Option ℕ → Bool × ReconnectionState
warn_after now later s none = (true, record s { last_degraded_warning = some now })
warn_after now later s (some last) =
    if leb (seconds 1800) (now - last)
    then (true, record s { last_degraded_warning = some later })
    else (false, s)

unfoldable pub should_log_degraded_warning : ℕ → ℕ → ReconnectionState → Bool × ReconnectionState
unfolding warn_after
should_log_degraded_warning now later s =
    if not s.degraded then (false, s) else warn_after now later s s.last_degraded_warning

unfoldable pub get_backoff : ReconnectConfig → ReconnectionState → ℕ
get_backoff c s =
    if s.degraded
    then 300
    else if s.consecutive_failures == 0
    then c.min_backoff_secs
    else min (mul64 c.min_backoff_secs (pow_two s.consecutive_failures)) c.max_backoff_secs
