-- ===== src/DecisionPath/Channels.antt =====
-- What a turn of a worker and `try_send` keep of the items in a channel, and of their number.
use botmev.Prelude.{
  ℕ, zero, suc, ◌≤◌, Bool, true, false, Option, none, some, List, [], ◌∷◌, length, arith, ltb, All,
  All-append, length-append, if-holds_by, ltb→lt,
}
use botmev.DecisionPath.Workers.{
  Worker, idle, waiting, stopped, holding, turn, turn_at, spawn, try_send,
}

module _ {A : Type 0} (P : A → Type 0) where
  abbrev pub Holds : Worker A → Type 0
  Holds (holding a) = P a
  Holds idle = Unit
  Holds waiting = Unit
  Holds stopped = Unit

  abbrev pub Done : Option A → Type 0
  Done none = Unit
  Done (some a) = P a

  turn-All :
      (down : Bool) (w : Worker A) (q : List A)
      → Holds w
      → All P q
      → let (w', q', done) = turn down w q in Holds w' × All P q' × Done done
  unfolding turn
  turn-All true idle q h k = (tt, k, tt)
  turn-All false idle q h k = (tt, k, tt)
  turn-All down waiting [] h k = (tt, tt, tt)
  turn-All down waiting (a ∷ q) h k = (k.0, k.1, tt)
  turn-All down stopped q h k = (tt, k, tt)
  turn-All down (holding a) q h k = (tt, k, h)

  pub turn_at-All :
      (down : Bool) (i : ℕ) (ws : List (Worker A)) (q : List A)
      → All Holds ws
      → All P q
      → let (ws', q', done) = turn_at down i ws q in All Holds ws' × All P q' × Done done
  unfolding turn_at
  turn_at-All down i [] q h k = (tt, k, tt)
  turn_at-All down zero (w ∷ ws) q h k =
      let (w', q', done) = turn-All down w q h.0 k in ((w', h.1), q', done)
  turn_at-All down (suc i) (w ∷ ws) q h k =
      let (ws', q', done) = turn_at-All down i ws q h.1 k in ((h.0, ws'), q', done)

  pub All-spawn : (n : ℕ) → All Holds (spawn n)
  unfolding spawn
  All-spawn zero = tt
  All-spawn (suc n) = (tt, All-spawn n)

-- A channel only gets shorter by a turn of a worker that reads it.
turn-le :
    {A : Type 0} (down : Bool) (w : Worker A) (q : List A) → length (turn down w q).1 ≤ length q
unfolding turn
turn-le down idle q = omega arith
turn-le down waiting [] = omega arith
turn-le down waiting (a ∷ q) = omega arith
turn-le down stopped q = omega arith
turn-le down (holding a) q = omega arith

pub turn_at-le :
    {A : Type 0} (down : Bool) (i : ℕ) (ws : List (Worker A)) (q : List A)
    → length (turn_at down i ws q).1 ≤ length q
unfolding turn_at
turn_at-le down i [] q = omega arith
turn_at-le down zero (w ∷ ws) q = turn-le down w q
turn_at-le down (suc i) (w ∷ ws) q = turn_at-le down i ws q

-- What `try_send` leaves in a channel: nothing but such items, and no more than its capacity.
abbrev pub Sent : {A : Type 0} → (A → Type 0) → ℕ → Option (List A) → Type 0
Sent P capacity none = Unit
Sent P capacity (some q) = All P q × (length q ≤ capacity)

pub try_send-Sent :
    {A : Type 0} (P : A → Type 0) (capacity : ℕ) (a : A) (q : List A)
    → P a
    → All P q
    → Sent P capacity (try_send capacity a q)
unfolding try_send
try_send-Sent P capacity a q h k =
    if-holds_by (Sent P capacity) (ltb (length q) capacity)
      (λ room. (
        All-append P q (a ∷ []) k (h, tt),
        omega (arith, length-append q (a ∷ []), ltb→lt (length q) capacity room),
      ))
      (λ full. tt)

pub All-Unit : {A : Type 0} (q : List A) → All (λ _. Unit {0}) q
All-Unit [] = tt
All-Unit (a ∷ q) = (tt, All-Unit q)
