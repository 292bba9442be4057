-- ===== src/RingBuffer/Interface.antt =====
-- `crossbeam::queue::ArrayQueue<T>` (not in the repository): its operations as ring_buffer.rs calls
-- them, and their documented behaviour as a bounded first-in first-out queue.
use botmev.Prelude.{ℕ, ◌<◌, ◌≤◌, ◌≡◌, List, [], ◌∷◌, ◌++◌, Option, none, some, length}

pub record ArrayQueue (A : Type 0) : Type 1 where
  pub Queue : Type 0
  -- `new` panics at capacity 0.
  pub new : ℕ → Option Queue
  -- `Result<(), T>`: `none` is `Ok(())`, and a full queue hands the value back.
  pub push : Queue → A → Option A × Queue
  pub pop : Queue → Option A × Queue
  pub len : Queue → ℕ
  -- The items, oldest first, and the capacity: what the documentation speaks of.
  pub contents : Queue → List A
  pub bound : Queue → ℕ
  pub new_pos : (c : ℕ) {q : Queue} → new c ≡ some q → (contents q ≡ []) × (bound q ≡ c)
  pub new_zero : new 0 ≡ none
  pub push_room :
      (q : Queue) (a : A)
      → length (contents q) < bound q
      → ((push q a).0 ≡ none)
        × (contents (push q a).1 ≡ contents q ++ a ∷ [])
        × (bound (push q a).1 ≡ bound q)
  pub push_full : (q : Queue) (a : A) → length (contents q) ≡ bound q → push q a ≡ (some a, q)
  pub pop_some :
      (q : Queue) (a : A) (xs : List A)
      → contents q ≡ a ∷ xs
      → ((pop q).0 ≡ some a) × (contents (pop q).1 ≡ xs) × (bound (pop q).1 ≡ bound q)
  pub pop_empty : (q : Queue) → contents q ≡ [] → pop q ≡ (none, q)
  pub len_contents : (q : Queue) → len q ≡ length (contents q)
  pub within : (q : Queue) → length (contents q) ≤ bound q
