-- ===== src/Prelude/Whole.antt =====
-- Whole numbers in place of floating-point numbers, for concrete inputs.
use Prim.Native.Nat.{ℕ, ◌-◌, ◌*◌, ◌/◌, ◌^◌, min}
use botmev.Prelude.Tests.{ltb, leb}
use botmev.Prelude.Floats.{F64}

abbrev pub whole : F64 ℕ
whole = record {
  decimal = λ m e. m / 10 ^ e;
  sub = λ a b. a - b;
  mul = λ a b. a * b;
  div = λ a b. a / b;
  less = ltb;
  le = leb;
  of_u128 = λ n. n;
  powi = λ a n. a ^ n;
  to_u128 = λ n. min n (2 ^ 128 - 1);
}
