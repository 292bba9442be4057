-- ===== src/Parser/Json.antt =====
-- serde_json's `Value` with the methods that the program calls, and Rust's `f64`, neither of which is
-- in the repository: `V` is a value, `N` a number in it, `F` a floating-point number.
use botmev.Prelude.{ℕ, Bool, Option, List, String}
use botmev.Prelude.Int.{ℤ}

pub record Json (V N F : Type 0) : Type 0 where
  -- `serde_json::from_str`, where an error is `none`.
  pub from_str : String → Option V
  -- `Value::get` at a key, and at an index.
  pub get : V → String → Option V
  pub get_index : V → ℕ → Option V
  pub as_str : V → Option String
  pub as_u64 : V → Option ℕ
  pub as_i64 : V → Option ℤ
  pub as_bool : V → Option Bool
  pub as_array : V → Option (List V)
  -- The match on `Value::Number(n)`, and `n.as_f64()`.
  pub as_number : V → Option N
  pub as_f64 : N → Option F
  -- `str::parse::<f64>`, and the test `<= 0.0`.
  pub parse_float : String → Option F
  pub le_zero : F → Bool
  -- `to_string` of a number.
  pub show_u64 : ℕ → String
  pub show_i64 : ℤ → String
