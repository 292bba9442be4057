-- ===== src/Prelude/Dict.antt =====
-- `HashMap<String, V>` as an association list. An entry keeps its place when its value is
-- replaced; the order in which the program's map is iterated is unspecified, and no theorem
-- depends on it.
use Prim.Native.Nat.{◌+◌, ◌≤◌}
use Prim.Native.String.{String}
use mathlib.Core.Path.{◌≡◌, refl}
use mathlib.Core.Logic.{◌≢◌}
use mathlib.Core.Bool.{Bool, true}
use mathlib.Core.List.{List, [], ◌∷◌, map}
use mathlib.Core.Option.{Option, none, some}
use native.Mathlib.Omega.{arith}
use text.Mathlib.Text.{◌==◌}
use text.Mathlib.TextEquality.{eq_iff}
use botmev.Prelude.Tests.{if◌then◌else◌}
use botmev.Prelude.Lists.{length, All}

abbrev pub Dict {ℓ} : Type ℓ → Type ℓ
Dict V = List (String × V)

-- `String` equality, under a name that does not clash with the test on numbers.
abbrev pub str_eq : String → String → Bool
str_eq a b = a == b

pub str_eq_iff : (a b : String) → (str_eq a b ≡ true → a ≡ b) × (a ≡ b → str_eq a b ≡ true)
str_eq_iff a b = ((eq_iff a b).0, (eq_iff a b).1)

module _ {ℓ} {V : Type ℓ} where
  unfoldable pub lookup : String → Dict V → Option V
  lookup k [] = none
  lookup k ((j, v) ∷ m) = if str_eq j k then some v else lookup k m

  unfoldable pub insert : String → V → Dict V → Dict V
  insert k v [] = (k, v) ∷ []
  insert k v ((j, w) ∷ m) = if str_eq j k then (k, v) ∷ m else (j, w) ∷ insert k v m

  -- What `get_mut` is used for: the value of `k`, where there is one, is changed in place.
  unfoldable pub modify : String → (V → V) → Dict V → Dict V
  modify k f [] = []
  modify k f ((j, w) ∷ m) = if str_eq j k then (j, f w) ∷ m else (j, w) ∷ modify k f m

  -- `HashMap::retain`, by a test of the value.
  unfoldable pub retain : (V → Bool) → Dict V → Dict V
  retain p [] = []
  retain p ((j, w) ∷ m) = if p w then (j, w) ∷ retain p m else retain p m

  abbrev pub values : Dict V → List V
  values = map (λ e. e.1)

  pub lookup-insert :
      (new old : String) (w : V) (d : Dict V)
      → lookup old (insert new w d) ≡ (if str_eq new old then some w else lookup old d)
  unfolding insert lookup
  lookup-insert new old w [] = refl
  lookup-insert new old w ((key, u) ∷ d) =
      let rest = lookup-insert new old w d in
      ground (arith, rest, eq_iff key new, eq_iff key old, eq_iff new old)

  pub lookup-insert_self : (k : String) (v : V) (m : Dict V) → lookup k (insert k v m) ≡ some v
  lookup-insert_self k v m = ground (arith, lookup-insert k k v m, eq_iff k k)

  pub lookup-insert_ne :
      (k j : String) (v : V) (m : Dict V) → k ≢ j → lookup j (insert k v m) ≡ lookup j m
  lookup-insert_ne k j v m h = ground (arith, lookup-insert k j v m, eq_iff k j)

  pub insert-insert : (k : String) (v w : V) (m : Dict V) → insert k w (insert k v m) ≡ insert k w m
  unfolding insert
  insert-insert k v w [] = ground (arith, eq_iff k k)
  insert-insert k v w ((j, x) ∷ m) = ground (arith, eq_iff k k, eq_iff j k, insert-insert k v w m)

  -- The value that `modify` leaves at `k`.
  abbrev pub modified : (V → V) → Option V → Option V
  modified f none = none
  modified f (some v) = some (f v)

  pub lookup-modify :
      (k j : String) (f : V → V) (m : Dict V)
      → lookup j (modify k f m) ≡ (if str_eq k j then modified f (lookup j m) else lookup j m)
  unfolding lookup modify
  lookup-modify k j f [] = ground arith
  lookup-modify k j f ((i, w) ∷ m) =
      ground (arith, eq_iff k j, eq_iff i k, eq_iff i j, lookup-modify k j f m)

  pub length-insert : (k : String) (v : V) (m : Dict V) → length (insert k v m) ≤ length m + 1
  unfolding insert
  length-insert k v [] = omega arith
  length-insert k v ((j, w) ∷ m) = ground (arith, length-insert k v m)

  pub length-insert_new :
      (k : String) (v : V) (m : Dict V) → lookup k m ≡ none → length (insert k v m) ≡ length m + 1
  unfolding insert lookup
  length-insert_new k v [] h = omega arith
  length-insert_new k v ((j, w) ∷ m) h = ground (arith, length-insert_new k v m)

  pub length-modify : (k : String) (f : V → V) (m : Dict V) → length (modify k f m) ≡ length m
  unfolding modify
  length-modify k f [] = refl
  length-modify k f ((j, w) ∷ m) = ground (arith, length-modify k f m)

  pub length-retain : (p : V → Bool) (m : Dict V) → length (retain p m) ≤ length m
  unfolding retain
  length-retain p [] = omega arith
  length-retain p ((j, w) ∷ m) = ground (arith, length-retain p m)

  -- Every value has the property.
  abbrev pub AllValues {κ} : (V → Type κ) → Dict V → Type κ
  AllValues P m = All (λ (e : String × V). P e.1) m

  pub AllValues-insert {κ} :
      (P : V → Type κ) (k : String) (v : V) (m : Dict V)
      → P v
      → AllValues P m
      → AllValues P (insert k v m)
  unfolding insert
  AllValues-insert P k v [] h hs = (h, tt)
  AllValues-insert P k v ((j, w) ∷ m) h hs = ground (arith, AllValues-insert P k v m h hs.1)

  pub AllValues-modify {κ} :
      (P : V → Type κ) (k : String) (f : V → V) (m : Dict V)
      → ((v : V) → P v → P (f v))
      → AllValues P m
      → AllValues P (modify k f m)
  unfolding modify
  AllValues-modify P k f [] h hs = hs
  AllValues-modify P k f ((j, w) ∷ m) h hs =
      ground (arith, h w hs.0, AllValues-modify P k f m h hs.1)

  pub AllValues-retain {κ} :
      (P : V → Type κ) (p : V → Bool) (m : Dict V) → AllValues P m → AllValues P (retain p m)
  unfolding retain
  AllValues-retain P p [] h = h
  AllValues-retain P p ((j, w) ∷ m) h = ground (arith, AllValues-retain P p m h.1)

  pub AllValues-lookup {κ} :
      (P : V → Type κ) (k : String) (m : Dict V) {v : V} → AllValues P m → lookup k m ≡ some v → P v
  unfolding lookup
  AllValues-lookup P k [] h e = cc
  AllValues-lookup P k ((j, w) ∷ m) {v} h e = ground (arith, AllValues-lookup P k m {v = v} h.1)
