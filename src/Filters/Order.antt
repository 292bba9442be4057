-- ===== src/Filters/Order.antt =====
-- The order in which `load_rules` leaves the rules.
use mathlib.Core.List.{Perm}
use mathlib.Core.List.Perm
use botmev.Prelude.{
  ℕ, ◌≡◌, refl, ◌&&◌, List, [], ◌∷◌, arith, All, keep_if, inl, inr, Bool-cases, ◌∙◌,
}
use botmev.Prelude.Int.{ℤ, leb_ℤ, ◌≤ℤ◌}
use botmev.Filters.Conditions.{FilterRule}
use botmev.Filters.Engine.{FilterEngine, insert_rule, sort_rules, load_rules}

-- No rule stands behind one of a lower priority.
abbrev pub Descending : List FilterRule → Type 0
Descending [] = Unit
Descending (r ∷ l) = All (λ (s : FilterRule). s.priority ≤ℤ r.priority) l × Descending l

-- The rules of priority `p`, in their order.
abbrev pub at_priority : ℤ → List FilterRule → List FilterRule
at_priority p = keep_if (λ r. leb_ℤ p r.priority && leb_ℤ r.priority p)

All-below_trans :
    (p q : ℤ) (l : List FilterRule)
    → p ≤ℤ q
    → All (λ (s : FilterRule). s.priority ≤ℤ p) l
    → All (λ (s : FilterRule). s.priority ≤ℤ q) l
All-below_trans p q [] h a = tt
All-below_trans p q (s ∷ l) h a = (omega arith, All-below_trans p q l h a.1)

insert_rule-All :
    (p : ℤ) (r : FilterRule) (l : List FilterRule)
    → r.priority ≤ℤ p
    → All (λ (s : FilterRule). s.priority ≤ℤ p) l
    → All (λ (s : FilterRule). s.priority ≤ℤ p) (insert_rule r l)
unfolding insert_rule
insert_rule-All p r [] h a = (h, tt)
insert_rule-All p r (s ∷ l) h a = ground (arith, insert_rule-All p r l h a.1)

insert_rule-Descending :
    (r : FilterRule) (l : List FilterRule) → Descending l → Descending (insert_rule r l)
unfolding insert_rule
insert_rule-Descending r [] d = (tt, tt)
insert_rule-Descending r (s ∷ l) d = ground (
  arith,
  All-below_trans s.priority r.priority l,
  insert_rule-All s.priority r l,
  insert_rule-Descending r l d.1,
)

insert_rule-perm : (r : FilterRule) (l : List FilterRule) → Perm (insert_rule r l) (r ∷ l)
unfolding insert_rule
insert_rule-perm r [] = Perm.refl (r ∷ [])
insert_rule-perm r (s ∷ l) = elim (Bool-cases (leb_ℤ s.priority r.priority)) [
  | inl first ↦ rw first (Perm.refl _)
  | inr later ↦ rw later (Perm.trans (Perm.cons s (insert_rule-perm r l)) (Perm.swap r s l))
]

-- Among the rules of one priority the new one comes first.
at_priority-insert_rule :
    (p : ℤ) (r : FilterRule) (l : List FilterRule)
    → at_priority p (insert_rule r l) ≡ at_priority p (r ∷ l)
unfolding insert_rule
at_priority-insert_rule p r [] = refl
at_priority-insert_rule p r (s ∷ l) = ground (arith, at_priority-insert_rule p r l)

sort_rules-Descending : (l : List FilterRule) → Descending (sort_rules l)
unfolding sort_rules
sort_rules-Descending [] = tt
sort_rules-Descending (r ∷ l) = insert_rule-Descending r (sort_rules l) (sort_rules-Descending l)

sort_rules-perm : (l : List FilterRule) → Perm (sort_rules l) l
unfolding sort_rules
sort_rules-perm [] = Perm.refl []
sort_rules-perm (r ∷ l) =
    Perm.trans (insert_rule-perm r (sort_rules l)) (Perm.cons r (sort_rules-perm l))

at_priority-sort_rules :
    (p : ℤ) (l : List FilterRule) → at_priority p (sort_rules l) ≡ at_priority p l
unfolding sort_rules
at_priority-sort_rules p [] = refl
at_priority-sort_rules p (r ∷ l) =
    at_priority-insert_rule p r (sort_rules l) ∙ ground (arith, at_priority-sort_rules p l)

-- `load_rules` installs exactly the given rules, highest priority first, and leaves the rules
-- of any one priority `p` in the order in which they were given.
load_rules-sorted :
    (now : ℕ) (e : FilterEngine) (l : List FilterRule) (p : ℤ)
    → let sorted = (load_rules now e l).rules in
      Descending sorted × Perm sorted l × (at_priority p sorted ≡ at_priority p l)
unfolding load_rules
load_rules-sorted now e l p =
    (sort_rules-Descending l, sort_rules-perm l, at_priority-sort_rules p l)
