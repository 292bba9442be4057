-- ===== src/Ingest/Hex.antt =====
-- The numbers of the node: JSON-RPC writes a quantity as `0x` and its hexadecimal digits.
use botmev.Prelude.{
  ℕ, zero, suc, ◌+◌, ◌-◌, ◌*◌, ◌/◌, ◌%◌, ◌^◌, ◌<◌, ◌≡◌, ◌≢◌, refl, ap, ◌∙◌, false, none, some, List,
  [], ◌∷◌, ◌++◌, String, arith, ltb, ◌==◌, if◌then◌else◌, All, All-append, lt→ltb, Bool-cases, inl,
  inr, if-holds, ltb→lt, ltb_false→le,
}
use native.Mathlib.Numerals.{add-one}
use botmev.Prelude.Results.{ok, and_then}
use botmev.Prelude.Text.{
  codes, hex_value, hex_number, from_str_radix16, trim_start_matches, starts_with,
}
use botmev.Parser.Json.{Json}
use botmev.Ingest.Defs.{
  extract_value_wei, value_of_hex, extract_gas_price_wei, nonce_field, str_field,
}

abbrev pub hex_digit : ℕ → ℕ
hex_digit d = if ltb d 10 then b'0' + d else b'a' + d - 10

-- With fuel: `n + 1` is enough, since every step divides by 16.
unfoldable pub hex_digits_of : ℕ → ℕ → List ℕ
hex_digits_of zero n = []
hex_digits_of (suc fuel) n =
    let front = hex_digits_of fuel (n / 16) in
    if ltb n 16 then hex_digit n ∷ [] else front ++ hex_digit (n % 16) ∷ []

abbrev pub quantity : ℕ → List ℕ
quantity n = b'0' ∷ b'x' ∷ hex_digits_of (n + 1) n

hex_value-hex_digit : (d : ℕ) → d < 16 → hex_value (hex_digit d) ≡ some d
unfolding hex_value
hex_value-hex_digit d h = ground arith

hex_number-append :
    (acc : ℕ) (xs ys : List ℕ)
    → hex_number acc (xs ++ ys) ≡ and_then (hex_number acc xs) (λ a. hex_number a ys)
unfolding hex_number
hex_number-append acc [] ys = refl
hex_number-append acc (x ∷ xs) ys =
    elim (hex_value x)
      as (λ o.
        (elim o [ none ↦ none | some d ↦ hex_number (acc * 16 + d) (xs ++ ys) ])
        ≡ and_then (elim o [ none ↦ none | some d ↦ hex_number (acc * 16 + d) xs ])
            (λ a. hex_number a ys)) [
              | none ↦ refl
              | some d ↦ hex_number-append (acc * 16 + d) xs ys
            ]

hex_number_one : (acc d : ℕ) → d < 16 → hex_number acc (hex_digit d ∷ []) ≡ some (acc * 16 + d)
unfolding hex_number
hex_number_one acc d h = rw (hex_value-hex_digit d h, hex_number)

hex_number-digits : (fuel n : ℕ) → n < fuel → hex_number 0 (hex_digits_of fuel n) ≡ some n
unfolding hex_digits_of
hex_number-digits zero n h = elim h [ ]
hex_number-digits (suc fuel) n h = elim (Bool-cases (ltb n 16)) [
  | inl small ↦ rw small (hex_number_one 0 n (ltb→lt n 16 small) ∙ ap some (omega arith))
  | inr large ↦
      let le = ltb_false→le n 16 large in
      rw
        (
          large,
          hex_number-append 0 (hex_digits_of fuel (n / 16)) (hex_digit (n % 16) ∷ []),
          hex_number-digits fuel (n / 16) (omega arith),
        )
        (hex_number_one (n / 16) (n % 16) (omega arith) ∙ ap some (omega arith))
]

-- A code that no hexadecimal digit shares: not the sign, and not the `x` of the prefix.
abbrev IsPlain : ℕ → Type 0
IsPlain c = ((c == b'+') ≡ false) × ((c == b'x') ≡ false)

hex_digit-IsPlain : (d : ℕ) → d < 16 → IsPlain (hex_digit d)
hex_digit-IsPlain d h = ground arith

digits-IsPlain : (fuel n : ℕ) → All IsPlain (hex_digits_of fuel n)
unfolding hex_digits_of
digits-IsPlain zero n = tt
digits-IsPlain (suc fuel) n = elim (Bool-cases (ltb n 16)) [
  | inl small ↦ rw small (hex_digit-IsPlain n (ltb→lt n 16 small), tt)
  | inr large ↦ rw large (
      All-append IsPlain (hex_digits_of fuel (n / 16)) _ (digits-IsPlain fuel (n / 16))
        (hex_digit-IsPlain (n % 16) (omega arith), tt))
]

starts-IsPlain : (ds : List ℕ) → All IsPlain ds → starts_with ds (codes "0x") ≡ false
unfolding starts_with
starts-IsPlain [] h = refl
starts-IsPlain (c ∷ []) h = ground arith
starts-IsPlain (c ∷ e ∷ ds) h = ground (arith, h.1.0)

trim-prefix :
    (ds : List ℕ) → All IsPlain ds → trim_start_matches (codes "0x") (b'0' ∷ b'x' ∷ ds) ≡ ds
unfolding trim_start_matches
trim-prefix ds h = rw (starts-IsPlain ds h)

-- Some digit stands first, and no sign.
from_plain :
    (w n : ℕ) (ds : List ℕ)
    → All IsPlain ds
    → ds ≢ []
    → hex_number 0 ds ≡ some n
    → n < 2 ^ w
    → from_str_radix16 w ds ≡ some n
unfolding from_str_radix16
from_plain w n [] h full e lt = absurd (full refl)
from_plain w n (c ∷ ds) h full e lt = rw (h.0.0, from_str_radix16) (rw (e, lt→ltb n (2 ^ w) lt))

append-ne-nil : (l : List ℕ) (c : ℕ) → l ++ c ∷ [] ≢ []
append-ne-nil [] c e = cc
append-ne-nil (x ∷ l) c e = cc

digits-ne-nil : (n : ℕ) → hex_digits_of (n + 1) n ≢ []
unfolding hex_digits_of
digits-ne-nil n =
    rw add-one
      (if-holds (λ l. l ≢ []) (ltb n 16) (λ e. cc) (append-ne-nil (hex_digits_of n (n / 16)) _))

quantity_lem :
    (w n : ℕ)
    → n < 2 ^ w
    → from_str_radix16 w (trim_start_matches (codes "0x") (quantity n)) ≡ some n
quantity_lem w n h =
    let plain = digits-IsPlain (n + 1) n in
    rw (trim-prefix (hex_digits_of (n + 1) n) plain) (
      from_plain w n (hex_digits_of (n + 1) n) plain (digits-ne-nil n)
        (hex_number-digits (n + 1) n (omega arith)) h)

none_at_nil : (w n : ℕ) → from_str_radix16 w [] ≢ some n
unfolding from_str_radix16
none_at_nil w n e = cc

value_of_some : (ds : List ℕ) (n : ℕ) → from_str_radix16 128 ds ≡ some n → value_of_hex ds ≡ ok n
value_of_some [] n e = absurd (none_at_nil 128 n e)
value_of_some (c ∷ ds) n e = rw (e, value_of_hex)

-- What the node writes is what the parser reads, of every number that fits: a value below 2^128, a gas
-- price and a nonce below 2^64.
pub extract-quantity :
    {V N F : Type 0} (j : Json V N F) (n : ℕ) (s : String)
    → codes s ≡ quantity n
    → (n < 2 ^ 128 → extract_value_wei s ≡ ok n)
      × (n < 2 ^ 64 → extract_gas_price_wei s ≡ ok n)
      × (n < 2 ^ 64 → (v : V) → str_field j "nonce" v ≡ some s → nonce_field j v ≡ n)
unfolding extract_value_wei extract_gas_price_wei nonce_field
extract-quantity j n s e = (
  λ h. rw e (value_of_some _ n (quantity_lem 128 n h)),
  λ h. rw (e, extract_gas_price_wei) (rw (quantity_lem 64 n h)),
  λ h v found. rw (found, e, quantity_lem 64 n h),
)
