-- ===== src/Prelude/Floats.antt =====
-- Rust's `f64`, which the language gives and this theory does not: its operations on a type `F`.
use Prim.Native.Nat.{ℕ}
use mathlib.Core.Bool.{Bool}

pub record F64 (F : Type 0) : Type 0 where
  -- The literal `m / 10^e`.
  pub decimal : ℕ → ℕ → F
  pub sub : F → F → F
  pub mul : F → F → F
  pub div : F → F → F
  -- `<` and `<=`.
  pub less : F → F → Bool
  pub le : F → F → Bool
  -- `n as f64` of a `u128`, and `x as u128`, which is between 0 and 2^128 - 1 whatever `x` is.
  pub of_u128 : ℕ → F
  pub to_u128 : F → ℕ
  -- `powi`, with an exponent that is not negative.
  pub powi : F → ℕ → F
