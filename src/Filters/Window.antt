-- ===== src/Filters/Window.antt =====
-- How many transactions a rate limiter lets through in a window of one second.
use botmev.Prelude.{ℕ, ◌+◌, ◌-◌, ◌*◌, ◌≤◌, ◌<◌, List, [], ◌∷◌, arith, All, if◌then◌else◌}
use botmev.Filters.Limiter.{RateLimiter, second, allow}

-- The calls of `allow` that answer true, among calls at the given instants.
unfoldable pub allowed_count : RateLimiter → List ℕ → ℕ
allowed_count l [] = 0
allowed_count l (now ∷ nows) =
    let (ok, l') = allow now l in (if ok then 1 else 0) + allowed_count l' nows

-- The instants lie in the second from `start` on.
abbrev pub InSecond : ℕ → List ℕ → Type 0
InSecond start = All (λ now. (start ≤ now) × (now < start + second))

-- Until the next refill no more calls pass than there are tokens.
before_refill :
    (nows : List ℕ) (l : RateLimiter) (start : ℕ)
    → start ≤ l.last_refill
    → InSecond start nows
    → allowed_count l nows ≤ l.tokens
unfolding allowed_count allow
before_refill [] l start h w = omega arith
before_refill (now ∷ nows) l start h w = ground (
  arith,
  before_refill nows (record l { tokens = l.tokens - 1 }) start h w.1,
  before_refill nows l start h w.1,
)

any_second :
    (nows : List ℕ) (l : RateLimiter) (start : ℕ)
    → InSecond start nows
    → allowed_count l nows ≤ l.tokens + l.max_per_second
unfolding allowed_count allow
any_second [] l start w = omega arith
any_second (now ∷ nows) l start w =
    let full = record l { tokens = l.max_per_second; last_refill = now } in
    ground (
      arith,
      any_second nows (record l { tokens = l.tokens - 1 }) start w.1,
      any_second nows l start w.1,
      before_refill nows (record full { tokens = l.max_per_second - 1 }) start w.0.0 w.1,
      before_refill nows full start w.0.0 w.1,
    )

-- Of the calls at instants within one second, in any order, a limiter that holds at most its
-- maximum of tokens lets at most twice the maximum through.
allowed_count-le :
    (nows : List ℕ) (l : RateLimiter) (start : ℕ)
    → l.tokens ≤ l.max_per_second
    → InSecond start nows
    → allowed_count l nows ≤ 2 * l.max_per_second
allowed_count-le nows l start h w = omega (arith, any_second nows l start w)
