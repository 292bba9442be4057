-- ===== src/Manager/Polling.antt =====
-- `run_rpc_polling`: the polls until the shutdown signal, whatever they come to.
use botmev.Prelude.{
  map, ℕ, suc, ap, ◌∙◌, ◌+◌, ◌≤◌, ◌<◌, ◌≡◌, refl, Bool, true, false, Option, none, some, List, [],
  ◌∷◌, ◌++◌, arith, u64_mod, if◌then◌else◌,
}
use botmev.Rpc.Breaker.{
  CircuitBreaker, closed, get_state, set_state, should_allow_request, record_success,
}
use botmev.Rpc.Retry.{Attempt, succeeds, RpcError, ok, execute_with_retry, try_attempts}
use botmev.Rpc.Poll.{
  answered, emit, Node, World, Service, Times, new_state, poll_once, poll_blockchain_state,
}

module _ {W E : Type 0} (listening : Bool) (timeout_secs : ℕ) (node : Node W E) where
  -- The turns, each with what the loop reads of the shutdown signal and of the clock.
  unfoldable pub run_rpc_polling : List (Bool × Times) → Service W → Service W
  run_rpc_polling [] s = s
  run_rpc_polling ((shutdown, t) ∷ ts) s =
      let s' = (poll_blockchain_state listening timeout_secs node t s).1 in
      let later = run_rpc_polling ts s' in if shutdown then s else later

  poll_once-answered :
      (w : World W) (number timestamp : ℕ) (x y : W)
      → node.get_block_number w.world ≡ (answered number, x)
      → node.get_block number x ≡ (answered (some timestamp), y)
      → poll_once listening node w ≡ (
        succeeds (new_state number timestamp),
        emit listening (new_state number timestamp) (record w { world = y }),
      )
  unfolding poll_once
  poll_once-answered w number timestamp x y one two = rw (one, two) refl

allowed_again :
    (now : ℕ) (b : CircuitBreaker)
    → b.opened_at + 30 ≤ now
    → now < u64_mod
    → (should_allow_request now b).0 ≡ true
unfolding should_allow_request get_state
allowed_again now b late fits = ground arith

closes :
    (now : ℕ) (b : CircuitBreaker)
    → (let b' = record_success (should_allow_request now b).1 in
        (get_state b' ≡ closed) × (b'.consecutive_failures ≡ 0))
unfolding should_allow_request record_success get_state set_state
closes now b = ground arith

succeeds_at_once :
    {T E S : Type 0} (operation : S → Attempt T E × S) (timeout_secs k backoff_ms : ℕ)
    (last : Option (RpcError E)) (s s' : S) (v : T)
    → operation s ≡ (succeeds v, s')
    → try_attempts operation timeout_secs (suc k) backoff_ms last s ≡ (ok v, [], s')
unfolding try_attempts
succeeds_at_once operation timeout_secs k backoff_ms last s s' v e = rw e refl

module _ {W E : Type 0} (listening : Bool) (timeout_secs : ℕ) (node : Node W E) where
  poll_blockchain_state-recovers :
      (t : Times) (s : Service W) (number timestamp : ℕ) (x y : W)
      → s.circuit_breaker.opened_at + 30 ≤ t.asked
      → t.asked < u64_mod
      → node.get_block_number s.world.world ≡ (answered number, x)
      → node.get_block number x ≡ (answered (some timestamp), y)
      → poll_blockchain_state listening timeout_secs node t s ≡ (
        ok (new_state number timestamp),
        record {
          circuit_breaker = record_success (should_allow_request t.asked s.circuit_breaker).1;
          world = emit listening (new_state number timestamp) (record (s.world) { world = y });
        },
      )
  unfolding poll_blockchain_state execute_with_retry
  poll_blockchain_state-recovers t s number timestamp x y late fits one two =
      rw
        (
          allowed_again t.asked s.circuit_breaker late fits,
          succeeds_at_once (poll_once listening node) timeout_secs 2 100 none s.world _ _
              (poll_once-answered listening timeout_secs node s.world number timestamp x y one two),
        )
        refl

  -- Turns that read no shutdown signal.
  abbrev pub running : List Times → List (Bool × Times)
  running = map (λ t. (false, t))

  run_rpc_polling-append :
      (before ts : List Times) (s : Service W)
      → run_rpc_polling listening timeout_secs node (running (before ++ ts)) s
        ≡ run_rpc_polling listening timeout_secs node
            (running ts)
            (run_rpc_polling listening timeout_secs node (running before) s)
  unfolding run_rpc_polling
  run_rpc_polling-append [] ts s = refl
  run_rpc_polling-append (t ∷ before) ts s =
      run_rpc_polling-append before ts (poll_blockchain_state listening timeout_secs node t s).1

  -- Unlike `start_polling`, this loop comes back: after any turns, whatever failed in them and
  -- however long the circuit breaker has been open, a turn at least thirty seconds after the breaker
  -- opened, whose two queries the node answers, closes the breaker and clears its count.
  pub run_rpc_polling-recovers :
      (before : List Times) (t : Times) (start : Service W) (number timestamp : ℕ) (x y : W)
      → (run_rpc_polling listening timeout_secs node
            (running before)
            start).circuit_breaker.opened_at
          + 30
        ≤ t.asked
      → t.asked < u64_mod
      → node.get_block_number
          (run_rpc_polling listening timeout_secs node (running before) start).world.world
        ≡ (answered number, x)
      → node.get_block number x ≡ (answered (some timestamp), y)
      → (let b =
            (run_rpc_polling listening timeout_secs node
              (running (before ++ t ∷ []))
              start).circuit_breaker in
          (get_state b ≡ closed) × (b.consecutive_failures ≡ 0))
  unfolding run_rpc_polling
  run_rpc_polling-recovers before t start number timestamp x y late fits one two =
      let s = run_rpc_polling listening timeout_secs node (running before) start in
      let r = poll_blockchain_state-recovers t s number timestamp x y late fits one two in
      let last = run_rpc_polling-append before (t ∷ []) start ∙ ap (λ p. p.1) r in
      rw last (closes t.asked s.circuit_breaker)
