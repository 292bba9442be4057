-- ===== src/Rpc/History.antt =====
-- The circuit breaker against the history of the operations that it was asked for.
use botmev.Prelude.{
  if-holds, ℕ, zero, suc, ◌+◌, ◌≤◌, ◌<◌, ◌≡◌, ◌≢◌, ◌⊎◌, ◌↔◌, inl, inr, refl, Option, none, some,
  List, [], ◌∷◌, arith, length, u64_mod,
}
use botmev.Rpc.Breaker.{
  CircuitBreaker, closed, new, get_state, set_state, should_allow_request, record_success,
  record_failure,
}
use botmev.Rpc.Retry.{
  Attempt, succeeds, fails, times_out, RpcError, breaker_open, all_failed, operation_error,
  timed_out, Outcome, ok, err, last_or, attempt_error, next_backoff, try_attempts,
  execute_with_retry, record_outcome, max_retry_attempts, initial_backoff_ms,
}

-- How an operation ended: it was carried out, it failed for good, or it was not tried.
pub data Ending : Type 0 where
  done failed blocked : Ending

abbrev pub ending : {T E : Type 0} → Outcome T E → Ending
ending (ok v) = done
ending (err breaker_open) = blocked
ending (err _) = failed

-- The failures since the last success; the history has the latest ending first.
abbrev pub since_success : List Ending → ℕ
since_success [] = 0
since_success (done ∷ h) = 0
since_success (failed ∷ h) = 1 + since_success h
since_success (blocked ∷ h) = since_success h

-- The breaker as the history determines it.
abbrev pub Follows : List Ending → CircuitBreaker → Type 0
Follows h b =
    (b.consecutive_failures ≡ since_success h)
    × ((get_state b ≡ closed) × (since_success h < 5)
        ⊎ (get_state b ≢ closed) × (5 ≤ since_success h))

allow-Follows :
    (now : ℕ) (h : List Ending) (b : CircuitBreaker)
    → Follows h b
    → Follows h (should_allow_request now b).1
unfolding should_allow_request get_state set_state
allow-Follows now h b v = ground arith

success-Follows :
    (h : List Ending) (b : CircuitBreaker) → Follows h b → Follows (done ∷ h) (record_success b)
unfolding record_success get_state set_state
success-Follows h b v = ground arith

failure-Follows :
    (now : ℕ) (h : List Ending) (b : CircuitBreaker)
    → since_success h + 1 < u64_mod
    → Follows h b
    → Follows (failed ∷ h) (record_failure now b)
unfolding record_failure get_state set_state
failure-Follows now h b few v = ground arith

-- The error that the loop keeps is never that of the breaker.
abbrev NotOpen : {E : Type 0} → Option (RpcError E) → Type 0
NotOpen (some breaker_open) = ⊥
NotOpen _ = Unit

attempt_error-NotOpen :
    {T E : Type 0} (timeout_secs : ℕ) (a : Attempt T E) → NotOpen (attempt_error timeout_secs a)
attempt_error-NotOpen timeout_secs (succeeds v) = tt
attempt_error-NotOpen timeout_secs (fails e) = tt
attempt_error-NotOpen timeout_secs times_out = tt

last_or-ending :
    {E : Type 0} (T : Type 0) (last : Option (RpcError E))
    → NotOpen last
    → ending {T = T} (err (last_or last)) ≡ failed
last_or-ending T none h = refl
last_or-ending T (some breaker_open) h = absurd h
last_or-ending T (some all_failed) h = refl
last_or-ending T (some (operation_error e)) h = refl
last_or-ending T (some (timed_out n)) h = refl

try_attempts-tried :
    {T E S : Type 0} (operation : S → Attempt T E × S) (timeout_secs k backoff_ms : ℕ)
    (last : Option (RpcError E)) (s : S)
    → NotOpen last
    → (ending (try_attempts operation timeout_secs k backoff_ms last s).0 ≡ done)
      ⊎ (ending (try_attempts operation timeout_secs k backoff_ms last s).0 ≡ failed)
unfolding try_attempts
try_attempts-tried {T = T} operation timeout_secs zero backoff_ms last s h =
    inr (last_or-ending T last h)
try_attempts-tried operation timeout_secs (suc k) backoff_ms last s h =
    let (attempt, s') = operation s in
    let e = attempt_error timeout_secs attempt in
    let later =
      try_attempts-tried operation timeout_secs k (next_backoff backoff_ms) e s'
        (attempt_error-NotOpen timeout_secs attempt) in
    ground (arith, later)

outcome-Follows :
    {T E : Type 0} (at : ℕ) (h : List Ending) (b : CircuitBreaker) (o : Outcome T E)
    → (ending o ≡ done) ⊎ (ending o ≡ failed)
    → since_success h + 1 < u64_mod
    → Follows h b
    → Follows (ending o ∷ h) (record_outcome at o b)
outcome-Follows at h b (ok v) tried few f = success-Follows h b f
outcome-Follows at h b (err breaker_open) (inl e) few f = absurd (ground arith)
outcome-Follows at h b (err breaker_open) (inr e) few f = absurd (ground arith)
outcome-Follows at h b (err all_failed) tried few f = failure-Follows at h b few f
outcome-Follows at h b (err (operation_error e)) tried few f = failure-Follows at h b few f
outcome-Follows at h b (err (timed_out n)) tried few f = failure-Follows at h b few f

-- An operation takes the breaker from its history to the one with the ending added.
pub execute_with_retry-Follows :
    {T E S : Type 0} (operation : S → Attempt T E × S) (timeout_secs asked at : ℕ) (h : List Ending)
    (b : CircuitBreaker) (s : S)
    → since_success h + 1 < u64_mod
    → Follows h b
    → let (o, _, b', _) = execute_with_retry operation timeout_secs asked at b s in
      Follows (ending o ∷ h) b'
unfolding execute_with_retry
execute_with_retry-Follows {T = T} {E = E} {S = S} operation timeout_secs asked at h b s few v =
    let b' = (should_allow_request asked b).1 in
    let allowed = allow-Follows asked h b v in
    let tried =
      try_attempts-tried operation timeout_secs max_retry_attempts initial_backoff_ms none s tt in
    let recorded =
      outcome-Follows at h b'
        (try_attempts operation timeout_secs max_retry_attempts initial_backoff_ms none s).0 tried
        few allowed in
    if-holds (λ (r : Outcome T E × List ℕ × CircuitBreaker × S). Follows (ending r.0 ∷ h) r.2)
      (should_allow_request asked b).0 recorded allowed

-- One operation after another, each with its readings of the clock; the latest ending first.
unfoldable pub execute_all :
    {T E S : Type 0}
    → ℕ
    → List ((S → Attempt T E × S) × ℕ × ℕ)
    → List Ending
    → CircuitBreaker
    → S
    → List Ending × CircuitBreaker × S
execute_all timeout_secs [] h b s = (h, b, s)
execute_all timeout_secs ((operation, asked, at) ∷ calls) h b s =
    let (o, _, b', s') = execute_with_retry operation timeout_secs asked at b s in
    execute_all timeout_secs calls (ending o ∷ h) b' s'

pub since_success-ending :
    (e : Ending) (h : List Ending) → since_success (e ∷ h) ≤ since_success h + 1
since_success-ending done h = omega arith
since_success-ending failed h = omega arith
since_success-ending blocked h = omega arith

execute_all-Follows :
    {T E S : Type 0} (timeout_secs : ℕ) (calls : List ((S → Attempt T E × S) × ℕ × ℕ))
    (h : List Ending) (b : CircuitBreaker) (s : S)
    → since_success h + length calls < u64_mod
    → Follows h b
    → let (h', b', _) = execute_all timeout_secs calls h b s in Follows h' b'
unfolding execute_all
execute_all-Follows timeout_secs [] h b s few v = v
execute_all-Follows timeout_secs ((operation, asked, at) ∷ calls) h b s few v =
    let (o, _, b', s') = execute_with_retry operation timeout_secs asked at b s in
    let one = since_success-ending (ending o) h in
    execute_all-Follows timeout_secs calls (ending o ∷ h) b' s' (omega arith)
      (execute_with_retry-Follows operation timeout_secs asked at h b s (omega arith) v)

pub new-Follows : Follows [] new
unfolding new get_state
new-Follows = (refl, inl (refl, omega arith))

-- After any operations on a new circuit breaker (fewer than 2^64), with whatever clock: it has
-- counted the operations that failed since the last one that succeeded, not those it blocked; and
-- it is closed exactly while these are fewer than five.
pub circuit_breaker_lem :
    {T E S : Type 0} (timeout_secs : ℕ) (calls : List ((S → Attempt T E × S) × ℕ × ℕ)) (s : S)
    → length calls < u64_mod
    → let (h, b, _) = execute_all timeout_secs calls [] new s in
      (b.consecutive_failures ≡ since_success h) × ((get_state b ≡ closed) ↔ (since_success h < 5))
circuit_breaker_lem timeout_secs calls s few =
    let v = execute_all-Follows timeout_secs calls [] new s (omega arith) new-Follows in
    ground (arith, v)
