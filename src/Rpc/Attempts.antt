-- ===== src/Rpc/Attempts.antt =====
-- What `execute_with_retry` calls, waits for and returns.
use botmev.Prelude.{ℕ, zero, suc, ◌≤◌, ◌≡◌, Bool, true, false, some, List, [], ◌∷◌}
use botmev.Rpc.Breaker.{CircuitBreaker}
use botmev.Rpc.Retry.{
  Attempt, succeeds, breaker_open, Outcome, ok, err, attempt_error, next_backoff, record_outcome,
}

module _ {T E S : Type 0} (operation : S → Attempt T E × S) where
  -- The state after `n` calls.
  abbrev pub after : ℕ → S → S
  after zero s = s
  after (suc n) s = after n (operation s).1

  abbrev pub is_success : Attempt T E → Bool
  is_success (succeeds v) = true
  is_success _ = false

  -- The first `n` calls fail or time out.
  abbrev pub FailFirst : ℕ → S → Type 0
  FailFirst zero s = Unit
  FailFirst (suc n) s = (is_success (operation s).0 ≡ false) × FailFirst n (operation s).1

-- The waits after `n` failed attempts that are not the last.
abbrev pub waits : ℕ → ℕ → List ℕ
waits zero backoff_ms = []
waits (suc n) backoff_ms = backoff_ms ∷ waits n (next_backoff backoff_ms)

module _ {T E S : Type 0} (operation : S → Attempt T E × S) (timeout_secs : ℕ) where
  -- What the loop does with `k + 1` attempts left.
  abbrev pub Tried : ℕ → ℕ → S → Outcome T E × List ℕ × S → Type 0
  Tried k backoff_ms s (ok v, sleeps, s') =
      (n : ℕ) × (n ≤ k)
      × FailFirst operation n s
      × ((operation (after operation n s)).0 ≡ succeeds v)
      × (s' ≡ after operation (suc n) s)
      × (sleeps ≡ waits n backoff_ms)
  Tried k backoff_ms s (err e, sleeps, s') =
      FailFirst operation (suc k) s
      × (some e ≡ attempt_error timeout_secs (operation (after operation k s)).0)
      × (s' ≡ after operation (suc k) s)
      × (sleeps ≡ waits k backoff_ms)

-- What an operation comes to, by whether the breaker allows it and leaves `b`.
abbrev pub Executed :
    {T E S : Type 0}
    → (S → Attempt T E × S)
    → ℕ
    → ℕ
    → CircuitBreaker
    → S
    → Bool
    → Outcome T E × List ℕ × CircuitBreaker × S
    → Type 0
Executed operation timeout_secs at b s false r = r ≡ (err breaker_open, [], b, s)
Executed operation timeout_secs at b s true (o, sleeps, b', s') =
    Tried operation timeout_secs 2 100 s (o, sleeps, s') × (b' ≡ record_outcome at o b)
