-- ===== src/Rpc/Polling.antt =====
-- The polling over time: its events, and where it ends.
use botmev.Prelude.{
  ℕ, ◌+◌, ◌≤◌, ◌<◌, ◌≡◌, ◌≢◌, ◌⊎◌, inl, inr, refl, ap, ◌∙◌, Bool, Option, none, some, List, [], ◌∷◌,
  ◌++◌, arith, length, u64_mod,
}
use botmev.Rpc.Breaker.{
  CircuitBreakerState, closed, opened, half_open, new, get_state, set_state, should_allow_request,
  record_success, record_failure,
}
use botmev.Rpc.Retry.{Outcome, execute_with_retry}
use botmev.Rpc.History.{
  Ending, ending, since_success, Follows, execute_with_retry-Follows, new-Follows,
  since_success-ending,
}
use botmev.Rpc.Poll.{
  Node, World, Service, Times, BlockchainState, poll_once, poll_blockchain_state, polling_tick,
  start_polling,
}

abbrev add_ending : {T E : Type 0} → Option (Outcome T E) → List Ending → List Ending
add_ending none h = h
add_ending (some o) h = ending o ∷ h

module _ {W E : Type 0} (listening : Bool) (timeout_secs : ℕ) (node : Node W E) where
  -- The endings of the polls in these turns, the latest first, in front of those before.
  unfoldable pub polls : List Times → Service W → List Ending → List Ending
  polls [] s h = h
  polls (t ∷ ts) s h =
      let (o, s') = polling_tick listening timeout_secs node t s in polls ts s' (add_ending o h)

  -- The polling alone never sees the breaker half open.
  abbrev Steady : List Ending → Service W → Type 0
  Steady h s = Follows h s.circuit_breaker × (get_state s.circuit_breaker ≢ half_open)

  breaker_steady :
      (asked at : ℕ) (s : Service W)
      → get_state s.circuit_breaker ≡ closed
      → get_state
          (poll_blockchain_state listening timeout_secs node
            (record { asked = asked; failed = at })
            s).1.circuit_breaker
        ≢ half_open
  unfolding poll_blockchain_state execute_with_retry should_allow_request get_state set_state
      record_success record_failure
  breaker_steady asked at s h = ground arith

  -- Where the breaker is open a turn does nothing.
  opened_tick :
      (t : Times) (s : Service W)
      → get_state s.circuit_breaker ≡ opened
      → polling_tick listening timeout_secs node t s ≡ (none, s)
  unfolding polling_tick
  opened_tick t s h = rw h refl

  opened_stays :
      (ts : List Times) (s : Service W)
      → get_state s.circuit_breaker ≡ opened
      → start_polling listening timeout_secs node ts s ≡ s
  unfolding start_polling
  opened_stays [] s h = refl
  opened_stays (t ∷ ts) s h =
      ap (λ r. start_polling listening timeout_secs node ts r.1) (opened_tick t s h)
      ∙ opened_stays ts s h

  poll-Follows :
      (t : Times) (s : Service W) (h : List Ending)
      → since_success h + 1 < u64_mod
      → Follows h s.circuit_breaker
      → let (o, s') = poll_blockchain_state listening timeout_secs node t s in
        Follows (ending o ∷ h) s'.circuit_breaker
  unfolding poll_blockchain_state
  poll-Follows t s h few v =
      execute_with_retry-Follows (poll_once listening node) timeout_secs t.asked t.failed h
        s.circuit_breaker s.world few v

  closed_tick :
      (t : Times) (s : Service W)
      → get_state s.circuit_breaker ≡ closed
      → let (o, s') = poll_blockchain_state listening timeout_secs node t s in
        polling_tick listening timeout_secs node t s ≡ (some o, s')
  unfolding polling_tick
  closed_tick t s h = rw h refl

  state-cases : (x : CircuitBreakerState) → (x ≡ closed) ⊎ (x ≡ opened) ⊎ (x ≡ half_open)
  state-cases closed = inl refl
  state-cases opened = inr (inl refl)
  state-cases half_open = inr (inr refl)

  tick-Steady :
      (t : Times) (s : Service W) (h : List Ending)
      → since_success h + 1 < u64_mod
      → Steady h s
      → let (o, s') = polling_tick listening timeout_secs node t s in Steady (add_ending o h) s'
  tick-Steady t s h few (v, never) = elim (state-cases (get_state s.circuit_breaker)) [
    | inl shut ↦
        rw (closed_tick t s shut) (poll-Follows t s h few v, breaker_steady t.asked t.failed s shut)
    | inr (inl open_now) ↦ rw (opened_tick t s open_now) (v, never)
    | inr (inr half) ↦ absurd (never half)
  ]

  since_success-add :
      (o : Option (Outcome BlockchainState E)) (h : List Ending)
      → since_success (add_ending o h) ≤ since_success h + 1
  since_success-add none h = omega arith
  since_success-add (some o) h = since_success-ending (ending o) h

  run-Steady :
      (ts : List Times) (s : Service W) (h : List Ending)
      → since_success h + length ts < u64_mod
      → Steady h s
      → Steady (polls ts s h) (start_polling listening timeout_secs node ts s)
  unfolding start_polling polls
  run-Steady [] s h few v = v
  run-Steady (t ∷ ts) s h few v =
      let (o, s') = polling_tick listening timeout_secs node t s in
      run-Steady ts s' (add_ending o h) (omega (arith, since_success-add o h))
        (tick-Steady t s h (omega arith) v)

  start_polling-append :
      (ts us : List Times) (s : Service W)
      → start_polling listening timeout_secs node (ts ++ us) s
        ≡ start_polling listening timeout_secs node us
            (start_polling listening timeout_secs node ts s)
  unfolding start_polling
  start_polling-append [] us s = refl
  start_polling-append (t ∷ ts) us s =
      start_polling-append ts us (polling_tick listening timeout_secs node t s).1

  -- A service whose circuit breaker is new.
  abbrev pub started : World W → Service W
  started w = record { circuit_breaker = new; world = w }

  started-Steady : (w : World W) → Steady [] (started w)
  unfolding new get_state
  started-Steady w = (new-Follows, λ e. cc)

  -- Polling with a new circuit breaker (fewer than 2^64 turns): once five polls have failed since
  -- the last good one, no later turn does anything, however late it comes, and the node is not
  -- asked again.
  pub start_polling-stops :
      (w : World W) (before later : List Times)
      → length before < u64_mod
      → 5 ≤ since_success (polls before (started w) [])
      → start_polling listening timeout_secs node (before ++ later) (started w)
        ≡ start_polling listening timeout_secs node before (started w)
  start_polling-stops w before later few five =
      let s = start_polling listening timeout_secs node before (started w) in
      let v = run-Steady before (started w) [] (omega arith) (started-Steady w) in
      let open_now : get_state s.circuit_breaker ≡ opened =
        elim (state-cases (get_state s.circuit_breaker)) [
          | inl shut ↦ absurd (ground (arith, v))
          | inr (inl e) ↦ e
          | inr (inr half) ↦ absurd (v.1 half)
        ] in
      start_polling-append before later (started w) ∙ opened_stays later s open_now
