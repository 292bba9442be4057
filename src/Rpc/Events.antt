-- ===== src/Rpc/Events.antt =====
-- The events that a poll sends.
use botmev.Prelude.{
  ℕ, zero, suc, ◌≡◌, refl, sym, ap, ◌∙◌, Bool, true, false, Option, none, some, List, [], ◌∷◌, ◌++◌,
  if-holds,
}
use mathlib.Core.List.{append-nil}
use botmev.Rpc.Breaker.{CircuitBreaker, should_allow_request}
use botmev.Rpc.Retry.{
  Attempt, succeeds, fails, times_out, RpcError, Outcome, ok, err, attempt_error, next_backoff,
  try_attempts, execute_with_retry, unless_success, max_retry_attempts, initial_backoff_ms,
}
use botmev.Rpc.Poll.{
  new_state, Reply, answered, refused, silent, Node, World, Service, Times, BlockchainState,
  StateUpdateEvent, block_number_update, state_snapshot, poll_once, emit, finish_poll, after_number,
  poll_blockchain_state,
}

-- The two events of a snapshot, where somebody listens.
abbrev pub announced : Bool → BlockchainState → List StateUpdateEvent
announced true s = block_number_update s.block_number ∷ state_snapshot s ∷ []
announced false s = []

abbrev pub Announces :
    {E : Type 0}
    → Bool
    → List StateUpdateEvent
    → Outcome BlockchainState E
    → List StateUpdateEvent
    → Type 0
Announces listening before (ok s) after = after ≡ before ++ announced listening s
Announces listening before (err e) after = after ≡ before

emit-events :
    {W : Type 0} (listening : Bool) (s : BlockchainState) (w : World W)
    → (emit listening s w).events ≡ w.events ++ announced listening s
emit-events true s w = refl
emit-events false s w = sym (append-nil w.events)

module _ {W E : Type 0} (listening : Bool) where
  abbrev AttemptAnnounces : List StateUpdateEvent → Attempt BlockchainState E × World W → Type 0
  AttemptAnnounces before (succeeds s, w') = w'.events ≡ before ++ announced listening s
  AttemptAnnounces before (_, w') = w'.events ≡ before

  finish_poll-Announces :
      (node : Node W E) (number : ℕ) (w : World W) (r : Reply (Option ℕ) E × W)
      → AttemptAnnounces w.events (finish_poll listening node number w r)
  finish_poll-Announces node number w (answered (some timestamp), x) =
      emit-events listening (new_state number timestamp) (record w { world = x })
  finish_poll-Announces node number w (answered none, x) = refl
  finish_poll-Announces node number w (refused e, x) = refl
  finish_poll-Announces node number w (silent, x) = refl

  after_number-Announces :
      (node : Node W E) (w : World W) (r : Reply ℕ E × W)
      → AttemptAnnounces w.events (after_number listening node w r)
  after_number-Announces node w (answered number, x) =
      finish_poll-Announces node number w (node.get_block number x)
  after_number-Announces node w (refused e, x) = refl
  after_number-Announces node w (silent, x) = refl

  unless_success-Announces :
      (k backoff_ms : ℕ) (before : List StateUpdateEvent) (a : Attempt BlockchainState E × World W)
      (r : Outcome BlockchainState E × List ℕ × World W)
      → AttemptAnnounces before a
      → Announces listening a.1.events r.0 r.2.events
      → let u = unless_success k backoff_ms a.1 a.0 r in Announces listening before u.0 u.2.events
  unless_success-Announces k backoff_ms before (succeeds s, w') r now later = now
  unless_success-Announces k backoff_ms before (fails e, w') (ok s, x, y) now later =
      later ∙ ap (λ l. l ++ announced listening s) now
  unless_success-Announces k backoff_ms before (fails e, w') (err e', x, y) now later = later ∙ now
  unless_success-Announces k backoff_ms before (times_out, w') (ok s, x, y) now later =
      later ∙ ap (λ l. l ++ announced listening s) now
  unless_success-Announces k backoff_ms before (times_out, w') (err e', x, y) now later =
      later ∙ now

  try_attempts-Announces :
      (node : Node W E) (timeout_secs k backoff_ms : ℕ) (last : Option (RpcError E)) (w : World W)
      → let r = try_attempts (poll_once listening node) timeout_secs k backoff_ms last w in
        Announces listening w.events r.0 r.2.events
  unfolding try_attempts poll_once
  try_attempts-Announces node timeout_secs zero backoff_ms last w = refl
  try_attempts-Announces node timeout_secs (suc k) backoff_ms last w =
      let a = poll_once listening node w in
      let e = attempt_error timeout_secs a.0 in
      unless_success-Announces k backoff_ms w.events a
        (try_attempts (poll_once listening node) timeout_secs k (next_backoff backoff_ms) e a.1)
        (after_number-Announces node w (node.get_block_number w.world))
        (try_attempts-Announces node timeout_secs k (next_backoff backoff_ms) e a.1)

  -- A poll that succeeds, after however many failed attempts, announces the block number and then
  -- the snapshot that it returns, once each, where somebody listens; one that fails, or is blocked by
  -- the circuit breaker, announces nothing.
  poll_blockchain_state-Announces :
      (timeout_secs : ℕ) (node : Node W E) (t : Times) (s : Service W)
      → let (o, s') = poll_blockchain_state listening timeout_secs node t s in
        Announces listening s.world.events o s'.world.events
  unfolding poll_blockchain_state execute_with_retry
  poll_blockchain_state-Announces timeout_secs node t s =
      if-holds
        (λ (r : Outcome BlockchainState E × List ℕ × CircuitBreaker × World W).
          Announces listening s.world.events r.0 r.3.events)
        (should_allow_request t.asked s.circuit_breaker).0
        (try_attempts-Announces node timeout_secs max_retry_attempts initial_backoff_ms none
          s.world)
        refl
