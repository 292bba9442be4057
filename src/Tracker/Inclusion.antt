-- ===== src/Tracker/Inclusion.antt =====
-- Which blocks are searched for a bundle, and what is found there.
use botmev.Prelude.{
  ℕ, zero, suc, ◌+◌, ◌≤◌, ◌<◌, ◌≡◌, refl, sym, ap, ◌∙◌, String, Bool, true, false, ◌&&◌, List, [],
  ◌∷◌, map, Option, none, some, arith, length, if◌then◌else◌, Bool-cases, inl, inr,
}
use botmev.Tracker.Defs.{
  TrackedBundle, Node, BlockInfo, all_transactions, has, found_in, find_in, or_later,
  check_block_for_bundle, check_blocks, check_tracked,
}

abbrev pub hashes : TrackedBundle → List String
hashes tracked = map (λ tx. tx.hash_hex) (all_transactions tracked.bundle)

abbrev pub all_in : BlockInfo → List String → Bool
all_in block [] = true
all_in block (h ∷ hs) = has block h && all_in block hs

-- Whether the node answers with a block that has all of them.
abbrev pub answer_has : Option BlockInfo → List String → Bool
answer_has none hs = false
answer_has (some block) hs = all_in block hs

length-found_in : (block : BlockInfo) (hs : List String) → length (found_in block hs) ≤ length hs
unfolding found_in
length-found_in block [] = omega arith
length-found_in block (h ∷ hs) = ground (arith, length-found_in block hs)

-- As many are found as are looked for exactly if all are there, and then they are these.
found_in_all :
    (block : BlockInfo) (hs : List String)
    → (all_in block hs ≡ true → found_in block hs ≡ hs)
      × (all_in block hs ≡ false → length (found_in block hs) < length hs)
unfolding found_in
found_in_all block [] = (λ _. refl, λ e. cc)
found_in_all block (h ∷ hs) = ground (arith, found_in_all block hs, length-found_in block hs)

-- The result of the loop after a block with this answer.
search_step :
    (n : ℕ) (hs : List String) (answer : Option BlockInfo) (rest : Option (ℕ × List String))
    → or_later (find_in n hs answer) rest ≡ (if answer_has answer hs then some (n, hs) else rest)
unfolding or_later find_in
search_step n hs none rest = refl
search_step n hs (some block) rest = ground (arith, found_in_all block hs)

-- The search finds the first block that has all transactions, if there is one below the end.
check_blocks-first :
    (node : Node) (first k : ℕ) (tracked : TrackedBundle) (n : ℕ)
    → first ≤ n
    → n < first + k
    → answer_has (node n) (hashes tracked) ≡ true
    → (m : ℕ) × (first ≤ m)
      × (m ≤ n)
      × (answer_has (node m) (hashes tracked) ≡ true)
      × (check_blocks node first k tracked ≡ some (m, hashes tracked))
unfolding check_blocks check_block_for_bundle
check_blocks-first node first zero tracked n low high found = absurd (omega arith)
check_blocks-first node first (suc k) tracked n low high found =
    let step =
      search_step first (hashes tracked) (node first) (check_blocks node (first + 1) k tracked) in
    elim (Bool-cases (answer_has (node first) (hashes tracked))) [
      | inl here ↦ (first, omega arith, low, here, ground (arith, step))
      | inr later ↦
          let other : first ≡ n → true ≡ false =
            λ e. sym found ∙ ap (λ i. answer_has (node i) (hashes tracked)) (sym e) ∙ later in
          let beyond : first + 1 ≤ n = ground (arith, other) in
          let (m, above, below, has_all, e) =
            check_blocks-first node (first + 1) k tracked n beyond (omega arith) found in
          (m, omega arith, below, has_all, ground (arith, step, e))
    ]

result_or : ℕ × List String → Option (ℕ × List String) → ℕ × List String
result_or d none = d
result_or d (some r) = r

-- What it finds is a block in the range that has all transactions.
check_blocks_sound :
    (node : Node) (first k : ℕ) (tracked : TrackedBundle) (n : ℕ) (hs : List String)
    → check_blocks node first k tracked ≡ some (n, hs)
    → (first ≤ n) × (n < first + k) × (hs ≡ hashes tracked) × (answer_has (node n) hs ≡ true)
unfolding check_blocks check_block_for_bundle result_or
check_blocks_sound node first zero tracked n hs e = cc
check_blocks_sound node first (suc k) tracked n hs e =
    let step =
      search_step first (hashes tracked) (node first) (check_blocks node (first + 1) k tracked) in
    elim (Bool-cases (answer_has (node first) (hashes tracked))) [
      | inl here ↦
          let q : some (first, hashes tracked) ≡ some (n, hs) = ground (arith, step, e) in
          let r = ap (result_or (first, hashes tracked)) q in
          let number = ap (λ (p : ℕ × List String). p.0) r in
          (
            omega (arith, number),
            omega (arith, number),
            sym (ap (λ (p : ℕ × List String). p.1) r),
            sym (ap (λ (p : ℕ × List String). answer_has (node p.0) p.1) r) ∙ here,
          )
      | inr later ↦
          let (low, high, same, has_all) =
            check_blocks_sound node (first + 1) k tracked n hs (ground (arith, step, e)) in
          (omega arith, omega arith, same, has_all)
    ]

-- A later check of the bundle: the clock, the latest block that the node reports, and two nodes.
pub record Round : Type 0 where
  pub now : ℕ
  pub latest : ℕ
  pub early : Node
  pub late : Node

-- The nodes agree from block `first` on, and no latest block is below it.
abbrev pub AllFrom : ℕ → List Round → Type 0
AllFrom first [] = Unit
AllFrom first (r ∷ rs) =
    (first ≤ r.latest) × ((n : ℕ) → first ≤ n → r.early n ≡ r.late n) × AllFrom first rs

abbrev pub checks : ℕ → (Round → Node) → List Round → TrackedBundle → TrackedBundle
checks limit node [] tracked = tracked
checks limit node (r ∷ rs) tracked =
    checks limit node rs (check_tracked (node r) limit r.latest r.now tracked)
