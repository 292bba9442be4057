-- ===== src/Builder/Format.antt =====
-- A format of key files, with numbers in unary, for concrete inputs.
use botmev.Prelude.{
  ℕ, zero, suc, ◌+◌, ◌≡◌, refl, ap, ◌∙◌, Option, none, some, List, [], ◌∷◌, String, arith,
  if◌then◌else◌, ◌==◌,
}
use Prim.Native.Char.{Char, code}
use botmev.Prelude.Results.{and_then}
use botmev.Builder.Keys.{EncryptedKeyFile}

-- As many letters `a` as the number, and a `b`.
abbrev unary : ℕ → String → String
unary zero s = String.◌∷◌ "b" s
unary (suc n) s = String.◌∷◌ "a" (unary n s)

abbrev count : ℕ → String → Option (ℕ × String)
count n String.[] = none
count n (String.◌∷◌ c s) = if code c == 97 then count (suc n) s else some (n, s)

count-unary : (n m : ℕ) (s : String) → count n (unary m s) ≡ some (n + m, s)
count-unary n zero s = let same : n ≡ n + 0 = omega arith in ap (λ (k : ℕ). some (k, s)) same
count-unary n (suc m) s =
    let same : suc n + m ≡ n + suc m = omega arith in
    count-unary (suc n) m s ∙ ap (λ (k : ℕ). some (k, s)) same

abbrev pub encode : List ℕ → String
encode [] = ""
encode (n ∷ l) = unary n (encode l)

abbrev cons : ℕ → Option (List ℕ) → Option (List ℕ)
cons n none = none
cons n (some l) = some (n ∷ l)

abbrev decode_from : ℕ → String → Option (List ℕ)
decode_from n String.[] = some []
decode_from n (String.◌∷◌ c s) =
    let rest = decode_from 0 s in if code c == 97 then decode_from (suc n) s else cons n rest

decode_from-unary :
    (n m : ℕ) (s : String) → decode_from n (unary m s) ≡ cons (n + m) (decode_from 0 s)
decode_from-unary n zero s =
    let same : n ≡ n + 0 = omega arith in ap (λ k. cons k (decode_from 0 s)) same
decode_from-unary n (suc m) s =
    let same : suc n + m ≡ n + suc m = omega arith in
    decode_from-unary (suc n) m s ∙ ap (λ k. cons k (decode_from 0 s)) same

abbrev pub decode : String → Option (List ℕ)
decode s = decode_from 0 s

pub decode-encode : (l : List ℕ) → decode (encode l) ≡ some l
decode-encode [] = refl
decode-encode (n ∷ l) =
    let same : 0 + n ≡ n = omega arith in
    decode_from-unary 0 n (encode l)
    ∙ ap (λ k. cons k (decode (encode l))) same
    ∙ ap (cons n) (decode-encode l)

-- An `a` before each character, and a `b` at the end.
abbrev escape : String → String → String
escape String.[] t = String.◌∷◌ "b" t
escape (String.◌∷◌ c s) t = String.◌∷◌ "a" (String.◌∷◌ c (escape s t))

abbrev behind : Char → Option (String × String) → Option (String × String)
behind c none = none
behind c (some (s, t)) = some (String.◌∷◌ c s, t)

abbrev unescape : String → Option (String × String)
unescape String.[] = none
unescape (String.◌∷◌ c String.[]) = some ("", "")
unescape (String.◌∷◌ c (String.◌∷◌ d s)) =
    let rest = unescape s in if code c == 97 then behind d rest else some ("", String.◌∷◌ d s)

unescape-escape : (s t : String) → unescape (escape s t) ≡ some (s, t)
unescape-escape String.[] String.[] = refl
unescape-escape String.[] (String.◌∷◌ d t) = refl
unescape-escape (String.◌∷◌ c s) t = ap (behind c) (unescape-escape s t)

abbrev pub to_json : EncryptedKeyFile → String
to_json f = escape f.encrypted_key (
    escape f.kdf_params.salt (
      unary f.kdf_params.iterations
        (unary f.kdf_params.key_length (escape f.cipher (unary f.version "")))))

abbrev pub from_json : String → Option EncryptedKeyFile
from_json s = and_then (unescape s) λ (a : String × String).
    and_then (unescape a.1) λ (b : String × String). and_then (count 0 b.1) λ (c : ℕ × String).
      and_then (count 0 c.1) λ (d : ℕ × String). and_then (unescape d.1) λ (e : String × String).
        and_then (count 0 e.1) λ (g : ℕ × String). some (record {
          encrypted_key = a.0;
          kdf_params = record { salt = b.0; iterations = c.0; key_length = d.0 };
          cipher = e.0;
          version = g.0;
        })

pub from_json-to_json : (f : EncryptedKeyFile) → from_json (to_json f) ≡ some f
from_json-to_json f =
    let p = f.kdf_params in
    let zero_add : (n : ℕ) → 0 + n ≡ n = λ n. omega arith in
    let t4 = unary f.version "" in
    let t3 = escape f.cipher t4 in
    let t2 = unary p.key_length t3 in
    let t1 = unary p.iterations t2 in
    rw (
      unescape-escape f.encrypted_key (escape p.salt t1),
      unescape-escape p.salt t1,
      count-unary 0 p.iterations t2,
      count-unary 0 p.key_length t3,
      unescape-escape f.cipher t4,
      count-unary 0 f.version "",
      zero_add p.iterations,
      zero_add p.key_length,
      zero_add f.version,
    )
