-- ===== src/Backpressure/Interface.antt =====
-- `tokio::sync::mpsc` with a bound (not in the repository), both ends as one value: the operations
-- that backpressure.rs calls, and their documented behaviour. And the floating-point operations
-- on `utilization`.
use botmev.Prelude.{
  ℕ, ◌+◌, ◌<◌, ◌≡◌, List, [], ◌∷◌, ◌++◌, Bool, Option, none, some, length, u64_mod,
}

-- `Result<(), TrySendError<T>>`.
pub data SendResult : Type 0 where
  sent full closed : SendResult

-- What a send does to the messages in the channel.
abbrev pub Sends {ℓ} : {A : Type ℓ} → SendResult → List A → A → List A → Type ℓ
Sends sent before a after = after ≡ before ++ a ∷ []
Sends _ before a after = after ≡ before

-- What a receive does to them: both errors of `try_recv` are `none`.
abbrev pub Receives {ℓ} : {A : Type ℓ} → Option A → List A → List A → Type ℓ
Receives none before after = (before ≡ []) × (after ≡ [])
Receives (some a) before after = before ≡ a ∷ after

pub record Channel (A : Type 0) : Type 1 where
  pub Chan : Type 0
  pub try_send : Chan → A → SendResult × Chan
  pub try_recv : Chan → Option A × Chan
  -- The room that is left, and the room of an empty channel.
  pub capacity : Chan → ℕ
  pub max_capacity : Chan → ℕ
  -- The messages in the channel, oldest first.
  pub contents : Chan → List A
  pub sends : (c : Chan) (a : A) → Sends (try_send c a).0 (contents c) a (contents (try_send c a).1)
  pub receives : (c : Chan) → Receives (try_recv c).0 (contents c) (contents (try_recv c).1)
  pub room : (c : Chan) → capacity c + length (contents c) ≡ max_capacity c
  pub max_small : (c : Chan) → max_capacity c < u64_mod

-- `a as f64 / b as f64`, and the comparison `>=`.
pub record Floats : Type 1 where
  pub F64 : Type 0
  pub ratio : ℕ → ℕ → F64
  pub at_least : F64 → F64 → Bool
