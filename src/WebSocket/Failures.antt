-- ===== src/WebSocket/Failures.antt =====
-- The failure count and the degraded state over the rounds of `start`.
use botmev.Prelude.{
  ℕ, ◌+◌, ◌<◌, ◌≡◌, Bool, true, false, ◌&&◌, List, [], ◌∷◌, arith, All, leb, u32_mod,
}
use botmev.WebSocket.Reconnection.{
  ReconnectionState, ReconnectConfig, seconds, record_success, record_failure,
}

-- How one round of the loop of `start` (or a call of `reconnect`) ends, with the clock readings
-- that it makes: `connect_and_run` returns `Ok` or `Err`.
pub data Round : Type 0 where
  succeeds : ℕ → ℕ → Round
  fails : ℕ → Round

unfoldable pub round : ReconnectConfig → ReconnectionState → Round → ReconnectionState
round c s (succeeds now later) = record_success now later s
round c s (fails now) = record_failure now c.max_consecutive_failures s

unfoldable pub rounds : ReconnectConfig → ReconnectionState → List Round → ReconnectionState
unfolding round
rounds c s [] = s
rounds c s (r ∷ rs) = rounds c (round c s r) rs

-- The two readings of a success follow one another within five minutes.
abbrev pub Prompt : Round → Type 0
Prompt (succeeds now later) = later < now + seconds 300
Prompt (fails now) = Unit

abbrev pub failures_in : List Round → ℕ
failures_in [] = 0
failures_in (succeeds now later ∷ rs) = failures_in rs
failures_in (fails now ∷ rs) = 1 + failures_in rs

-- Whether the last round failed; `b` says so of the one before the list.
abbrev pub ends_failed : Bool → List Round → Bool
ends_failed b [] = b
ends_failed b (succeeds now later ∷ rs) = ends_failed false rs
ends_failed b (fails now ∷ rs) = ends_failed true rs

-- Degraded exactly if the last round failed and the failures reach the limit.
abbrev pub DegradedBy : ReconnectConfig → Bool → ReconnectionState → Type 0
DegradedBy c b s = s.degraded ≡ (b && leb c.max_consecutive_failures s.consecutive_failures)

pub round-success :
    (c : ReconnectConfig) (now later : ℕ) (s : ReconnectionState)
    → later < now + seconds 300
    → let s' = round c s (succeeds now later) in
      (s'.consecutive_failures ≡ s.consecutive_failures) × DegradedBy c false s'
unfolding round record_success
round-success c now later s h = ground arith

round-failure :
    (c : ReconnectConfig) (now : ℕ) (b : Bool) (s : ReconnectionState)
    → s.consecutive_failures + 1 < u32_mod
    → DegradedBy c b s
    → let s' = round c s (fails now) in
      (s'.consecutive_failures ≡ s.consecutive_failures + 1) × DegradedBy c true s'
unfolding round record_failure
round-failure c now b s h d = ground arith

-- Over any rounds in which each success reads the clock twice within five minutes, and fewer than
-- 2^32 failures: no success resets the count, which is of all failures and not of consecutive
-- ones; and the service is degraded exactly when its last round failed and all failures together
-- reach the limit. `b` says whether the round before failed.
pub rounds_lem :
    (c : ReconnectConfig) (b : Bool) (s : ReconnectionState) (rs : List Round)
    → All Prompt rs
    → s.consecutive_failures + failures_in rs < u32_mod
    → s.degraded ≡ (b && leb c.max_consecutive_failures s.consecutive_failures)
    → let s' = rounds c s rs in
      (s'.consecutive_failures ≡ s.consecutive_failures + failures_in rs)
      × (s'.degraded ≡ (ends_failed b rs && leb c.max_consecutive_failures s'.consecutive_failures))
unfolding rounds
rounds_lem c b s [] h few d = (omega arith, d)
rounds_lem c b s (succeeds now later ∷ rs) h few d =
    let (same, off) = round-success c now later s h.0 in
    let (count, state) =
      rounds_lem c false (round c s (succeeds now later)) rs h.1 (omega arith) off in
    (omega arith, state)
rounds_lem c b s (fails now ∷ rs) h few d =
    let (more, on) = round-failure c now b s (omega arith) d in
    let (count, state) = rounds_lem c true (round c s (fails now)) rs h.1 (omega arith) on in
    (omega arith, state)
