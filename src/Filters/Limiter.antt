-- ===== src/Filters/Limiter.antt =====
-- `RateLimiter`: a bucket of tokens that is filled up once a second. Instants are nanoseconds, and
-- `elapsed.as_secs_f64() >= 1.0` holds exactly from 1_000_000_000 on; `duration_since` stops at 0.
use botmev.Prelude.{ℕ, ◌-◌, Bool, true, false, ltb, leb, if◌then◌else◌}

pub record RateLimiter : Type 0 where
  pub max_per_second : ℕ
  pub tokens : ℕ
  pub last_refill : ℕ

abbrev pub second : ℕ
second = 1_000_000_000

unfoldable pub new : ℕ → ℕ → RateLimiter
new now max_per_second = record {
  max_per_second = max_per_second;
  tokens = max_per_second;
  last_refill = now;
}

unfoldable pub refill_tokens : ℕ → RateLimiter → RateLimiter
refill_tokens now l =
    if leb second (now - l.last_refill)
    then record l { tokens = l.max_per_second; last_refill = now }
    else l

unfoldable pub allow : ℕ → RateLimiter → Bool × RateLimiter
unfolding refill_tokens
allow now l =
    let l' = refill_tokens now l in
    if ltb 0 l'.tokens then (true, record l' { tokens = l'.tokens - 1 }) else (false, l')
