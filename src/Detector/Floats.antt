-- ===== src/Detector/Floats.antt =====
-- Rust's `f64`, which is no code of the repository: its operations on a type `F`. Literals are
-- whole numbers, which `f64` represents as they are up to 2^53.
use botmev.Prelude.{ℕ, Bool}

pub record Floats (F : Type 0) : Type 0 where
  pub add : F → F → F
  pub sub : F → F → F
  pub mul : F → F → F
  pub div : F → F → F
  pub abs : F → F
  -- `<` and `==`.
  pub less : F → F → Bool
  pub equal : F → F → Bool
  -- `n as f64`, and `x as u64`, which is between 0 and 2^64 - 1 whatever `x` is.
  pub of_u64 : ℕ → F
  pub to_u64 : F → ℕ
