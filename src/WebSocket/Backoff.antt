-- ===== src/WebSocket/Backoff.antt =====
-- The delay before the next connection.
use native.Mathlib.Nat.{pow-suc, pow-le-pow_right}
use botmev.Prelude.{
  ℕ, zero, suc, ◌+◌, ◌-◌, ◌*◌, ◌^◌, ◌≤◌, ◌<◌, ◌≡◌, refl, ap, false, min, max, arith, mul64, u64_mod,
  u32_mod, List, All, ◌==◌, Bool-cases, inl, inr, ==_iff,
}
use botmev.WebSocket.Reconnection.{
  ReconnectConfig, ReconnectionState, pow_two, calculate_backoff, get_backoff, new, seconds,
}
use botmev.WebSocket.Failures.{
  Round, succeeds, rounds, round, Prompt, failures_in, rounds_lem, round-success,
}

pow_add_64 : (k : ℕ) → 2 ^ (k + 64) ≡ 2 ^ k * 2 ^ 64
pow_add_64 zero = refl
pow_add_64 (suc k) =
    let shift : suc k + 64 ≡ suc (k + 64) = omega arith in
    rw (shift, pow-suc 2 (k + 64), pow-suc 2 k) (omega (arith, pow_add_64 k))

-- From 64 on the power wraps to 0.
pow_two_wraps : (k : ℕ) → 64 ≤ k → pow_two k ≡ 0
unfolding pow_two
pow_two_wraps k h =
    let split : k ≡ k - 64 + 64 = omega arith in rw split (omega (arith, pow_add_64 (k - 64)))

pow_two_exact : (n : ℕ) → n < 64 → pow_two n ≡ 2 ^ n
unfolding pow_two
pow_two_exact n h =
    let below : 2 ^ n ≤ 2 ^ 63 = pow-le-pow_right (omega arith) {j = 63} (omega arith) in
    omega arith

-- In the degraded state five minutes; else at most the larger of the two configured limits.
get_backoff-le :
    (c : ReconnectConfig) (s : ReconnectionState)
    → get_backoff c s ≤ max 300 (max c.min_backoff_secs c.max_backoff_secs)
unfolding get_backoff
get_backoff-le c s = ground arith

-- Outside the degraded state the delay after `n > 0` failures is that of `calculate_backoff` for
-- attempt `n + 1`: one doubling more than attempt `n` is given.
get_backoff-calculate :
    (c : ReconnectConfig) (s : ReconnectionState)
    → s.degraded ≡ false
    → 0 < s.consecutive_failures
    → get_backoff c s ≡ calculate_backoff c (s.consecutive_failures + 1)
unfolding get_backoff calculate_backoff
get_backoff-calculate c s off some_failures =
    let same : s.consecutive_failures + 1 - 1 ≡ s.consecutive_failures = omega arith in
    rw same (ground arith)

-- It is the configured minimum doubled for every failure, up to the configured maximum, as long as
-- that product fits into 64 bits and the minimum is within the maximum.
get_backoff-doubles :
    (c : ReconnectConfig) (s : ReconnectionState)
    → s.degraded ≡ false
    → s.consecutive_failures < 64
    → c.min_backoff_secs * 2 ^ s.consecutive_failures < u64_mod
    → c.min_backoff_secs ≤ c.max_backoff_secs
    → get_backoff c s ≡ min (c.min_backoff_secs * 2 ^ s.consecutive_failures) c.max_backoff_secs
unfolding get_backoff
get_backoff-doubles c s off few fits ordered =
    let n = s.consecutive_failures in
    let exact = ap (λ t. mul64 c.min_backoff_secs t) (pow_two_exact n few) in
    elim (Bool-cases (n == 0)) [
      | inl none_yet ↦
          let single : c.min_backoff_secs * 2 ^ n ≡ c.min_backoff_secs * 1 =
            ap (λ k. c.min_backoff_secs * 2 ^ k) ((==_iff n 0).0 none_yet) in
          ground (arith, single)
      | inr some_yet ↦ ground (arith, exact)
    ]

new-fresh : (start : ℕ) → ((new start).consecutive_failures ≡ 0) × ((new start).degraded ≡ false)
unfolding new
new-fresh start = (refl, refl)

-- A service that has seen 64 failures or more since it was started, and whose last round was a
-- success, waits 0 seconds before it connects again: the power has wrapped.
rounds-no_backoff :
    (start : ℕ) (c : ReconnectConfig) (rs : List Round) (now later : ℕ)
    → All Prompt rs
    → later < now + seconds 300
    → 64 ≤ failures_in rs
    → failures_in rs < u32_mod
    → get_backoff c (round c (rounds c (new start) rs) (succeeds now later)) ≡ 0
unfolding get_backoff
rounds-no_backoff start c rs now later h prompt many few =
    let s = rounds c (new start) rs in
    let (none_yet, fine) = new-fresh start in
    let (count, _) = rounds_lem c false (new start) rs h (omega arith) fine in
    let (same, off) = round-success c now later s prompt in
    let failed : 64 ≤ (round c s (succeeds now later)).consecutive_failures = omega arith in
    let power = pow_two_wraps (round c s (succeeds now later)).consecutive_failures failed in
    ground (arith, ap (λ t. c.min_backoff_secs * t) power)
