-- ===== src/DecisionPath/Turns.antt =====
-- How soon a worker stops once `shutdown` is set.
use botmev.Prelude.{
  ℕ, zero, suc, ◌-◌, ◌≤◌, ◌≡◌, refl, true, Option, none, some, List, [], ◌∷◌, arith,
}
use mathlib.Core.Path.{subst}
use botmev.DecisionPath.Workers.{Worker, idle, waiting, stopped, holding, turn, turn_at}

-- How many turns a worker takes at most until it stops.
abbrev left : {A : Type 0} → Worker A → ℕ
left stopped = 0
left idle = 1
left (holding a) = 2
left waiting = 3

abbrev pub left_at : {A : Type 0} → ℕ → List (Worker A) → ℕ
left_at i [] = 0
left_at zero (w ∷ ws) = left w
left_at (suc i) (w ∷ ws) = left_at i ws

-- The worker with the number `i`.
abbrev pub worker_at : {A : Type 0} → ℕ → List (Worker A) → Option (Worker A)
worker_at i [] = none
worker_at zero (w ∷ ws) = some w
worker_at (suc i) (w ∷ ws) = worker_at i ws

-- One if the numbers are the same.
abbrev pub hit : ℕ → ℕ → ℕ
hit zero zero = 1
hit zero (suc j) = 0
hit (suc i) zero = 0
hit (suc i) (suc j) = hit i j

module _ {A : Type 0} where
  turn-left : (w : Worker A) (q : List A) → left (turn true w q).0 ≤ left w - 1
  unfolding turn
  turn-left idle q = omega arith
  turn-left waiting [] = omega arith
  turn-left waiting (a ∷ q) = omega arith
  turn-left stopped q = omega arith
  turn-left (holding a) q = omega arith

  pub turn_at-left :
      (i j : ℕ) (ws : List (Worker A)) (q : List A)
      → left_at j (turn_at true i ws q).0 ≤ left_at j ws - hit i j
  unfolding turn_at
  turn_at-left i j [] q = omega arith
  turn_at-left zero zero (w ∷ ws) q = turn-left w q
  turn_at-left zero (suc j) (w ∷ ws) q = omega arith
  turn_at-left (suc i) zero (w ∷ ws) q = omega arith
  turn_at-left (suc i) (suc j) (w ∷ ws) q = turn_at-left i j ws q

  left-stopped : (w : Worker A) → left w ≡ 0 → w ≡ stopped
  left-stopped stopped h = refl
  left-stopped idle h = absurd (omega arith)
  left-stopped waiting h = absurd (omega arith)
  left-stopped (holding a) h = absurd (omega arith)

  pub left_at-stopped :
      (i : ℕ) (ws : List (Worker A)) {w : Worker A}
      → left_at i ws ≡ 0
      → worker_at i ws ≡ some w
      → w ≡ stopped
  left_at-stopped i [] h e = cc
  left_at-stopped zero (v ∷ ws) {w} h e =
      let same : v ≡ w = cc in subst (λ x. x ≡ stopped) same (left-stopped v h)
  left_at-stopped (suc i) (v ∷ ws) {w} h e = left_at-stopped i ws {w = w} h e

  pub left_at-le : (i : ℕ) (ws : List (Worker A)) → left_at i ws ≤ 3
  left_at-le i [] = omega arith
  left_at-le zero (idle ∷ ws) = omega arith
  left_at-le zero (waiting ∷ ws) = omega arith
  left_at-le zero (stopped ∷ ws) = omega arith
  left_at-le zero (holding a ∷ ws) = omega arith
  left_at-le (suc i) (w ∷ ws) = left_at-le i ws
