-- ===== src/Simulation/Pool.antt =====
-- The order in which the accounts are handed out.
use botmev.Prelude.{
  ℕ, zero, suc, ◌≡◌, refl, sym, ap, ◌∙◌, Option, some, List, [], ◌∷◌, ◌++◌, map, String, length,
}
use mathlib.Core.List.{append-nil, append_assoc}
use botmev.Simulation.Defs.{AccountPool, take_front, get_account}

-- `n` calls in a row.
abbrev pub gets : ℕ → AccountPool → List (Option String) × AccountPool
gets zero p = ([], p)
gets (suc n) p = let (a, p') = get_account p in let (as', p'') = gets n p' in (a ∷ as', p'')

take_front-front :
    (x : String) (rest l : List String) (p : AccountPool)
    → l ≡ x ∷ rest
    → ((take_front l p).0 ≡ some x) × ((take_front l p).1.accounts ≡ rest ++ x ∷ [])
take_front-front x rest l p h = rw h (refl, refl)

gets-front :
    (xs ys : List String) (p : AccountPool)
    → p.accounts ≡ xs ++ ys
    → ((gets (length xs) p).0 ≡ map some xs) × ((gets (length xs) p).1.accounts ≡ ys ++ xs)
unfolding get_account
gets-front [] ys p h = (refl, h ∙ sym (append-nil ys))
gets-front (x ∷ xs) ys p h =
    let (same, kept) = take_front-front x (xs ++ ys) p.accounts p h in
    let (taken, left) =
      gets-front xs (ys ++ x ∷ []) (get_account p).1 (kept ∙ append_assoc xs ys (x ∷ [])) in
    (
      ap (λ a. a ∷ (gets (length xs) (get_account p).1).0) same ∙ ap (◌∷◌ (some x)) taken,
      left ∙ append_assoc ys (x ∷ []) xs,
    )

-- As many calls as there are accounts hand out each of them once, in the order of the pool, and leave
-- that order as it was, so that the calls go round; how often an account has been used changes
-- nothing.
gets-round :
    (p : AccountPool)
    → let (as', p') = gets (length p.accounts) p in
      (as' ≡ map some p.accounts) × (p'.accounts ≡ p.accounts)
gets-round p = gets-front p.accounts [] p (sym (append-nil p.accounts))
