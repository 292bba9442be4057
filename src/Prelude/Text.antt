-- ===== src/Prelude/Text.antt =====
-- What the program uses of Rust's `str`, over the code points of a text. `to_lowercase` is that of
-- ASCII text, as hashes, addresses and calldata are.
use Prim.Native.Nat.{ℕ, zero, suc, ◌+◌, ◌-◌, ◌*◌, ◌^◌}
use Prim.Native.Char.{Char, code}
use Prim.Native.String.{String}
use mathlib.Core.Path.{◌≡◌, refl}
use mathlib.Core.Bool.{Bool, true, false, ◌&&◌, ◌||◌}
use mathlib.Core.List.{List, [], ◌∷◌, map}
use mathlib.Core.Option.{Option, none, some}
use botmev.Prelude.Tests.{leb, ltb, ◌==◌, if◌then◌else◌}
use botmev.Prelude.Lists.{length, drop}

abbrev pub codes : String → List ℕ
codes String.[] = []
codes (String.◌∷◌ c s) = code c ∷ codes s

unfoldable pub to_lower : ℕ → ℕ
to_lower c = if leb b'A' c && leb c b'Z' then c + 32 else c

unfoldable pub to_lowercase : String → List ℕ
unfolding to_lower
to_lowercase s = map to_lower (codes s)

unfoldable pub codes_eq : List ℕ → List ℕ → Bool
codes_eq [] [] = true
codes_eq (x ∷ xs) (y ∷ ys) = x == y && codes_eq xs ys
codes_eq _ _ = false

unfoldable pub starts_with : List ℕ → List ℕ → Bool
starts_with s [] = true
starts_with [] (p ∷ ps) = false
starts_with (c ∷ s) (p ∷ ps) = c == p && starts_with s ps

-- `str::contains`.
unfoldable pub contains : List ℕ → List ℕ → Bool
unfolding starts_with
contains [] p = starts_with [] p
contains (c ∷ s) p = starts_with (c ∷ s) p || contains s p

is_digit : ℕ → Bool
is_digit c = leb b'0' c && leb c b'9'

digits_value : ℕ → List ℕ → Option ℕ
unfolding is_digit
digits_value acc [] = some acc
digits_value acc (c ∷ cs) =
    let rest = digits_value (acc * 10 + (c - b'0')) cs in if is_digit c then rest else none

unsigned : List ℕ → Option ℕ
unfolding digits_value
unsigned [] = none
unsigned (c ∷ cs) = digits_value 0 (c ∷ cs)

-- One leading `+` is allowed before the digits.
unsigned_text : List ℕ → Option ℕ
unfolding unsigned
unsigned_text [] = none
unsigned_text (c ∷ cs) = if c == b'+' then unsigned cs else unsigned (c ∷ cs)

-- `str::parse` to an unsigned integer of `w` bits: `none` for what is no number or does not fit.
unfoldable pub parse_unsigned : ℕ → String → Option ℕ
unfolding unsigned_text
parse_unsigned w s = elim (unsigned_text (codes s)) [
  | none ↦ none
  | some n ↦ if ltb n (2 ^ w) then some n else none
]

-- `trim_start_matches` of a prefix that is not empty: as often as it stands there.
trim_from : ℕ → List ℕ → List ℕ → List ℕ
unfolding starts_with
trim_from zero p s = s
trim_from (suc fuel) p s =
    let rest = trim_from fuel p (drop (length p) s) in if starts_with s p then rest else s

unfoldable pub trim_start_matches : List ℕ → List ℕ → List ℕ
unfolding trim_from
trim_start_matches p s = trim_from (length s) p s

-- The value of a hexadecimal digit of either case.
unfoldable pub hex_value : ℕ → Option ℕ
hex_value c =
    if leb b'0' c && leb c b'9'
    then some (c - b'0')
    else if leb b'a' c && leb c b'f'
    then some (c - b'a' + 10)
    else if leb b'A' c && leb c b'F'
    then some (c - b'A' + 10)
    else none

unfoldable pub hex_number : ℕ → List ℕ → Option ℕ
hex_number acc [] = some acc
hex_number acc (c ∷ cs) = elim (hex_value c) [ none ↦ none | some d ↦ hex_number (acc * 16 + d) cs ]

hex_digits : List ℕ → Option ℕ
unfolding hex_number hex_value
hex_digits [] = none
hex_digits (c ∷ cs) = hex_number 0 (c ∷ cs)

hex_text : List ℕ → Option ℕ
unfolding hex_digits
hex_text [] = none
hex_text (c ∷ cs) = if c == b'+' then hex_digits cs else hex_digits (c ∷ cs)

-- `from_str_radix(_, 16)` of an unsigned type of `w` bits.
unfoldable pub from_str_radix16 : ℕ → List ℕ → Option ℕ
unfolding hex_text
from_str_radix16 w s = elim (hex_text s) [
  | none ↦ none
  | some n ↦ if ltb n (2 ^ w) then some n else none
]

-- The bytes of a code point in UTF-8, and `str::len`.
abbrev pub utf8_len : ℕ → ℕ
utf8_len c = if ltb c 0x80 then 1 else if ltb c 0x800 then 2 else if ltb c 0x10000 then 3 else 4

unfoldable pub byte_len : String → ℕ
byte_len String.[] = 0
byte_len (String.◌∷◌ c s) = utf8_len (code c) + byte_len s

abbrev split_rest : Char → Option (String × String) → Option (String × String)
split_rest c none = none
split_rest c (some (a, b)) = some (String.◌∷◌ c a, b)

-- `(&s[..n], &s[n..])`: `none` is the panic at an `n` that is past the end or inside a code point.
unfoldable pub split_bytes : ℕ → String → Option (String × String)
split_bytes n String.[] = if n == 0 then some ("", "") else none
split_bytes n (String.◌∷◌ c s) =
    let rest = split_bytes (n - utf8_len (code c)) s in
    if n == 0
    then some ("", String.◌∷◌ c s)
    else if leb (utf8_len (code c)) n
    then split_rest c rest
    else none

abbrev pub concat : String → String → String
concat String.[] t = t
concat (String.◌∷◌ c s) t = String.◌∷◌ c (concat s t)

trim_example : trim_start_matches (codes "0x") (codes "0x0x2a") ≡ codes "2a"
unfolding trim_start_matches
trim_example = refl

hex_example : from_str_radix16 64 (codes "fF") ≡ some 255
unfolding from_str_radix16
hex_example = refl

split_example : split_bytes 2 "0x2a" ≡ some ("0x", "2a")
unfolding split_bytes
split_example = refl

parse_example : parse_unsigned 64 "20000000000" ≡ some 20000000000
unfolding parse_unsigned
parse_example = refl

parse_overflow : parse_unsigned 8 "256" ≡ none
unfolding parse_unsigned
parse_overflow = refl

contains_example : contains (codes "0xabcdef") (codes "cde") ≡ true
unfolding contains
contains_example = refl
