-- ===== src/Tracker/Ordering.antt =====
-- `verify_transaction_ordering`: whether a bundle's transactions stand in a block in their order.
-- `position_differences`, which only the log shows, is left out. Errors of the source's signature do
-- not occur.
use botmev.Prelude.{
  ℕ, zero, suc, ◌≤◌, ◌≡◌, refl, ◌∙◌, String, Bool, true, false, ◌&&◌, Option, none, some, List, [],
  ◌∷◌, arith, ltb, leb, drop, if◌then◌else◌, Bool-cases, inl, inr,
}
use botmev.Prelude.Dict.{str_eq}
use botmev.Tracker.Defs.{BlockInfo, has}
use botmev.Tracker.Inclusion.{all_in}

-- `iter().position(|tx| tx.hash == *expected_hash)`.
unfoldable pub position : BlockInfo → String → Option ℕ
position [] h = none
position (g ∷ block) h =
    let rest = position block h in
    if str_eq g h then some 0 else elim rest [ none ↦ none | some n ↦ some (suc n) ]

abbrev pub cons_position : Option ℕ → List ℕ → List ℕ
cons_position none ns = ns
cons_position (some n) ns = n ∷ ns

unfoldable pub actual_positions : BlockInfo → List String → List ℕ
actual_positions block [] = []
actual_positions block (h ∷ hs) = cons_position (position block h) (actual_positions block hs)

-- `windows(2).all(|w| w[0] < w[1])`.
unfoldable pub ascending : List ℕ → Bool
ascending [] = true
ascending (m ∷ []) = true
ascending (m ∷ n ∷ ns) = ltb m n && ascending (n ∷ ns)

unfoldable pub is_correct_order : BlockInfo → List String → Bool
is_correct_order block hs = ascending (actual_positions block hs)

-- The hashes that the block has stand in it one after another: a reading of the block from the
-- start meets them in their order. Those that it has not are passed over.
abbrev pub reads : BlockInfo → List String → Bool
reads block [] = true
reads [] (h ∷ hs) = false
reads (g ∷ block) (h ∷ hs) = if str_eq g h then reads block hs else reads block (h ∷ hs)

position-zero :
    (g : String) (block : BlockInfo) (h : String)
    → position (g ∷ block) h ≡ some 0
    → str_eq g h ≡ true
unfolding position
position-zero g block h e = ground arith

position-suc :
    (g : String) (block : BlockInfo) (h : String) (n : ℕ)
    → position (g ∷ block) h ≡ some (suc n)
    → (str_eq g h ≡ false) × (position block h ≡ some n)
unfolding position
position-suc g block h n e = ground arith

-- A hash that the block has is first met at its position.
reads_from :
    (block : BlockInfo) (h : String) (hs : List String) (k n : ℕ)
    → position block h ≡ some n
    → k ≤ n
    → reads (drop k block) (h ∷ hs) ≡ reads (drop (suc n) block) hs
unfolding position
reads_from [] h hs k n e le = cc
reads_from (g ∷ block) h hs zero zero e le = rw (position-zero g block h e) refl
reads_from (g ∷ block) h hs zero (suc n) e le =
    let (other, found) = position-suc g block h n e in
    rw other (reads_from block h hs 0 n found (omega arith))
reads_from (g ∷ block) h hs (suc k) zero e le = absurd (omega arith)
reads_from (g ∷ block) h hs (suc k) (suc n) e le =
    reads_from block h hs k n (position-suc g block h n e).1 (omega arith)

position-has :
    (block : BlockInfo) (h : String) → has block h ≡ true → (n : ℕ) × (position block h ≡ some n)
unfolding position has
position-has [] h e = cc
position-has (g ∷ block) h e = elim (Bool-cases (str_eq g h)) [
  | inl here ↦ (0, ground arith)
  | inr later ↦ let (n, found) = position-has block h (ground arith) in (suc n, ground arith)
]

-- The first of the positions is at least `k`.
abbrev starts_from : ℕ → List ℕ → Bool
starts_from k [] = true
starts_from k (n ∷ ns) = leb k n

ascending_next :
    (n : ℕ) (ns : List ℕ)
    → ascending (n ∷ ns) ≡ true
    → (starts_from (suc n) ns ≡ true) × (ascending ns ≡ true)
unfolding ascending
ascending_next n [] e = (refl, refl)
ascending_next n (m ∷ ns) e = ground arith

reads_all :
    (block : BlockInfo) (hs : List String) (k : ℕ)
    → all_in block hs ≡ true
    → starts_from k (actual_positions block hs) ≡ true
    → ascending (actual_positions block hs) ≡ true
    → reads (drop k block) hs ≡ true
unfolding actual_positions
reads_all block [] k found start order = refl
reads_all block (h ∷ hs) k found start order =
    let (n, at) = position-has block h (ground arith) in
    let next = ascending_next n (actual_positions block hs) (ground arith) in
    reads_from block h hs k n at (ground arith)
    ∙ reads_all block hs (suc n) (ground arith) next.0 next.1

-- Where a block has all transactions of a bundle and the order is found correct, a reading of the
-- block from the start meets them one after another, in the order of the bundle.
is_correct_order-reads :
    (block : BlockInfo) (hs : List String)
    → all_in block hs ≡ true
    → is_correct_order block hs ≡ true
    → reads block hs ≡ true
unfolding is_correct_order
is_correct_order-reads block hs found order =
    reads_all block hs 0 found (from_zero (actual_positions block hs)) order
  where
    from_zero : (ns : List ℕ) → starts_from 0 ns ≡ true
    from_zero [] = refl
    from_zero (n ∷ ns) = ground arith
