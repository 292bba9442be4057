-- ===== src/DecisionPath/Workers.antt =====
-- The loop that the workers of the three stages share: `while !shutdown { match rx.recv_timeout(..) }`.
-- A turn of a worker is the part between two places where others may come in between.
use botmev.Prelude.{
  ℕ, zero, suc, Bool, Option, none, some, List, [], ◌∷◌, ◌++◌, length, ltb, if◌then◌else◌,
}

pub data Worker (A : Type 0) : Type 0 where
  -- Before the test of `shutdown`; in `recv_timeout`; with an item received; after the loop.
  idle waiting stopped : Worker A
  holding : A → Worker A

module _ {A : Type 0} (shutdown : Bool) where
  -- One turn, with what is left in the channel and the item whose work is done in this turn.
  -- A wait on an empty channel ends by its timeout.
  unfoldable pub turn : Worker A → List A → Worker A × List A × Option A
  turn idle q = (if shutdown then stopped else waiting, q, none)
  turn waiting [] = (idle, [], none)
  turn waiting (a ∷ q) = (holding a, q, none)
  turn stopped q = (stopped, q, none)
  turn (holding a) q = (idle, q, some a)

  abbrev pub front :
      Worker A × List A × Option A → List (Worker A) → List (Worker A) × List A × Option A
  front (w, q, done) ws = (w ∷ ws, q, done)

  abbrev pub behind :
      Worker A → List (Worker A) × List A × Option A → List (Worker A) × List A × Option A
  behind w (ws, q, done) = (w ∷ ws, q, done)

  -- A turn of the worker with the number `i`, if there is one.
  unfoldable pub turn_at : ℕ → List (Worker A) → List A → List (Worker A) × List A × Option A
  turn_at i [] q = ([], q, none)
  turn_at zero (w ∷ ws) q = front (turn w q) ws
  turn_at (suc i) (w ∷ ws) q = behind w (turn_at i ws q)

-- `tokio::spawn`, as often as there are workers.
unfoldable pub spawn : {A : Type 0} → ℕ → List (Worker A)
spawn zero = []
spawn (suc n) = idle ∷ spawn n

-- `try_send` to a bounded channel: `none` when it is full.
unfoldable pub try_send : {A : Type 0} → ℕ → A → List A → Option (List A)
try_send capacity a q = if ltb (length q) capacity then some (q ++ a ∷ []) else none
