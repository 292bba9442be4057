-- ===== src/Ingest/Slices.antt =====
-- Slices of calldata that is ASCII, which never panic.
use botmev.Prelude.{
  ℕ, zero, suc, ◌+◌, ◌-◌, ◌≤◌, ◌<◌, ◌≡◌, refl, ap, true, false, Option, none, some, [], ◌∷◌, String,
  arith, ltb, leb, ◌==◌, All, if-holds, if-holds_by, leb→le, ◌∙◌,
}
use Prim.Native.Char.{Char, code}
use botmev.Prelude.Text.{codes, byte_len, split_bytes, concat, utf8_len}
use mathlib.Core.Option
use botmev.Prelude.Dict.{lookup, str_eq}
use botmev.Types.{TargetType, DecodedInput}
use botmev.Ingest.Abi.{
  AbiDecoder, decoded, parameter, transfer_slices, decode_parameters, decode_generic_function,
  decode_input, data_parameter,
}

abbrev pub IsAscii : String → Type 0
IsAscii s = All (λ c. c < 0x80) (codes s)

-- A text cut in two at a position.
pub record Cut (n : ℕ) (s : String) (r : Option (String × String)) : Type 0 where
  pub first : String
  pub last : String
  pub cut : r ≡ some (first, last)
  pub whole : concat first last ≡ s
  pub length_first : byte_len first ≡ n
  pub length_last : byte_len last + n ≡ byte_len s
  pub last_ascii : IsAscii last

utf8_len_ascii : (c : ℕ) → c < 0x80 → utf8_len c ≡ 1
utf8_len_ascii c h = ground arith

utf8_len_pos : (c : ℕ) → 1 ≤ utf8_len c
utf8_len_pos c = ground arith

suc-ne-zero : (m : ℕ) → (suc m == 0) ≡ false
suc-ne-zero m = ground arith

one-le-suc : (m : ℕ) → leb 1 (suc m) ≡ true
one-le-suc m = ground arith

suc-sub-one : (m : ℕ) → suc m - 1 ≡ m
suc-sub-one m = omega arith

Cut-cons :
    (m : ℕ) (c : Char) (s : String) {r : Option (String × String)}
    → code c < 0x80
    → Cut m s r
    → Cut (suc m) (String.◌∷◌ c s) (elim r [ none ↦ none | some (a, b) ↦ some (String.◌∷◌ c a, b) ])
unfolding byte_len
Cut-cons m c s h k =
    let one = utf8_len_ascii (code c) h in
    record {
      first = String.◌∷◌ c k.first;
      last = k.last;
      cut = rw k.cut;
      whole = ap (String.◌∷◌ c) k.whole;
      length_first = omega (arith, one, k.length_first);
      length_last = omega (arith, one, k.length_last);
      last_ascii = k.last_ascii;
    }

pub split_bytes_lem : (n : ℕ) (s : String) → IsAscii s → n ≤ byte_len s → Cut n s (split_bytes n s)
unfolding byte_len split_bytes
split_bytes_lem zero String.[] h le = record {
  first = "";
  last = "";
  cut = refl;
  whole = refl;
  length_first = refl;
  length_last = refl;
  last_ascii = h;
}
split_bytes_lem (suc m) String.[] h le = absurd (omega arith)
split_bytes_lem zero (String.◌∷◌ c s) h le = record {
  first = "";
  last = String.◌∷◌ c s;
  cut = refl;
  whole = refl;
  length_first = refl;
  length_last = omega arith;
  last_ascii = h;
}
split_bytes_lem (suc m) (String.◌∷◌ c s) h le =
    let one = utf8_len_ascii (code c) h.0 in
    rw (one, suc-ne-zero m, one-le-suc m, suc-sub-one m)
      (Cut-cons m c s h.0 (split_bytes_lem m s h.1 (omega (arith, one))))

-- What the decoder makes of ASCII calldata of ten bytes or more.
pub record Decoded (input : String) (r : Option (Option DecodedInput)) : Type 0 where
  pub decoded_input : DecodedInput
  pub returns : r ≡ some (some decoded_input)
  pub arguments : String
  pub signature : concat decoded_input.function_signature arguments ≡ input
  pub length_signature : byte_len decoded_input.function_signature ≡ 10

abbrev IsSome : {A : Type 0} → Option A → Type 0
IsSome {A} o = (a : A) × (o ≡ some a)

IsSome-map : {A B : Type 0} (f : A → B) (o : Option A) → IsSome o → IsSome (Option.map f o)
IsSome-map f o (a, e) = (f a, rw e)

transfer_slices-IsSome :
    (input : String) → IsAscii input → 74 ≤ byte_len input → IsSome (transfer_slices input)
transfer_slices-IsSome input h le =
    let c = split_bytes_lem 34 input h (omega arith) in
    let k = split_bytes_lem 40 c.last c.last_ascii (omega (arith, c.length_last)) in
    ((k.first, k.last), rw (c.cut, transfer_slices) k.cut)

data_parameter-IsSome :
    (input : String) → IsAscii input → 10 ≤ byte_len input → IsSome (data_parameter input)
data_parameter-IsSome input h le =
    let c = split_bytes_lem 10 input h le in
    IsSome-map _ (split_bytes 10 input) ((c.first, c.last), c.cut)

decode_parameters-IsSome :
    (input signature : String)
    → IsAscii input
    → 10 ≤ byte_len input
    → IsSome (decode_parameters input signature)
unfolding decode_parameters
decode_parameters-IsSome input signature h le =
    if-holds IsSome (str_eq signature "0xa9059cbb")
      (if-holds_by IsSome (leb 74 (byte_len input))
        (λ long.
          IsSome-map _ (transfer_slices input)
            (transfer_slices-IsSome input h (leb→le 74 (byte_len input) long)))
        (λ short. ([], refl)))
      (if-holds IsSome (str_eq signature "0x38ed1739") (_, refl) (data_parameter-IsSome input h le))

-- Whether the table has the signature or not.
found-decoded :
    (d : AbiDecoder) (input : String)
    → IsAscii input
    → 10 ≤ byte_len input
    → (c : Cut 10 input (split_bytes 10 input)) → (f : Option (String × TargetType))
    → (i : DecodedInput) × (elim f [
      | some (name, _) ↦ Option.map (decoded name c.first) (decode_parameters input c.first)
      | none ↦ decode_generic_function input
    ]
        ≡ some i)
      × (i.function_signature ≡ c.first)
unfolding decode_generic_function
found-decoded d input h le c none =
    (decoded "unknown" c.first (parameter "data" "bytes" c.last ∷ []), rw c.cut, refl)
found-decoded d input h le c (some (name, t)) =
    let (l, e) = decode_parameters-IsSome input c.first h le in (decoded name c.first l, rw e, refl)

pub decode_input-Decoded :
    (d : AbiDecoder) (input : String)
    → IsAscii input
    → 10 ≤ byte_len input
    → Decoded input (decode_input d input)
unfolding decode_input
decode_input-Decoded d input h le =
    let c = split_bytes_lem 10 input h le in
    let (i, e, same) = found-decoded d input h le c (lookup c.first d) in
    let long : ltb (byte_len input) 10 ≡ false = ground arith in
    record {
      decoded_input = i;
      returns = rw (long, c.cut, e);
      arguments = c.last;
      signature = ap (λ t. concat t c.last) same ∙ c.whole;
      length_signature = ap byte_len same ∙ c.length_first;
    }
