-- ===== src/StateManager/Chain.antt =====
-- Reorg detection, and the history of headers that it leaves.
use botmev.Prelude.{
  ℕ, ◌≤◌, ◌<◌, ◌≡◌, refl, ◌∙◌, ap, Option, none, some, List, [], ◌∷◌, ◌++◌, arith, tests, length,
  length-append, Bool-cases, inl, inr, leb,
}
use mathlib.Core.Path.{subst}
use botmev.Prelude.Dict.{str_eq, str_eq_iff}
use botmev.StateManager.Defs.{
  StateManager, StateManagerConfig, BlockHeader, ReorgEvent, reorg_event, check_reorg, trim,
  update_block_header, initialize, new,
}

-- `h` is above the head and names it as its parent; without a head any header will do.
abbrev pub Follows : Option BlockHeader → BlockHeader → Type 0
Follows none h = Unit
Follows (some c) h = (c.number < h.number) × (h.parent_hash ≡ c.hash)

-- What an update reports and records, by the head that it found.
abbrev pub Reported :
    ℕ → StateManager → BlockHeader → Option BlockHeader → Option ReorgEvent × StateManager → Type 0
Reported now s h head (none, s') = Follows head h × (s'.reorg_events ≡ s.reorg_events)
Reported now s h head (some e, s') =
    (¬ Follows head h)
    × (s'.reorg_events ≡ s.reorg_events ++ e ∷ [])
    × (c : BlockHeader) × (head ≡ some c)
    × (e ≡ reorg_event now c h)

check_reorg-Reported :
    (now : ℕ) (s : StateManager) (h : BlockHeader) (head : Option BlockHeader)
    → Reported now s h head (check_reorg now s h head)
unfolding check_reorg
check_reorg-Reported now s h none = (tt, refl)
check_reorg-Reported now s h (some c) = elim (Bool-cases (leb h.number c.number)) [
  | inl below ↦ rw below ((λ f. omega tests), refl, c, refl, refl)
  | inr above ↦ elim (Bool-cases (str_eq h.parent_hash c.hash)) [
    | inl linked ↦ rw (above, linked) (ground (arith, str_eq_iff h.parent_hash c.hash))
    | inr forked ↦
        rw (above, forked)
          ((λ f. ground (arith, str_eq_iff h.parent_hash c.hash)), refl, c, refl, refl)
  ]
]

length-trim : (n : ℕ) (l : List BlockHeader) → length (trim n l) ≤ n
unfolding trim
length-trim n [] = omega arith
length-trim n (h ∷ l) = ground (arith, length-trim n l)

-- Headers that name one another as parents, with rising numbers, up to the header `h`.
abbrev pub Chain : List BlockHeader → BlockHeader → Type 0
Chain [] h = ⊥
Chain (x ∷ []) h = x ≡ h
Chain (x ∷ y ∷ l) h = Follows (some x) y × Chain (y ∷ l) h

Chain-append :
    (l : List BlockHeader) (h k : BlockHeader)
    → Chain l h
    → Follows (some h) k
    → Chain (l ++ k ∷ []) k
Chain-append [] h k c f = absurd c
Chain-append (x ∷ []) h k c f = ground arith
Chain-append (x ∷ y ∷ l) h k c f = (c.0, Chain-append (y ∷ l) h k c.1 f)

trim-Chain :
    (n : ℕ) (l : List BlockHeader) (h : BlockHeader) → 0 < n → Chain l h → Chain (trim n l) h
unfolding trim
trim-Chain n [] h pos c = c
trim-Chain n (x ∷ []) h pos c = ground arith
trim-Chain n (x ∷ y ∷ l) h pos c = ground (arith, trim-Chain n (y ∷ l) h pos c.1)

-- Only the recorded events of the new state matter.
Reported-same :
    (now : ℕ) (s : StateManager) (h : BlockHeader) (head : Option BlockHeader)
    (r : Option ReorgEvent) (t u : StateManager)
    → u.reorg_events ≡ t.reorg_events
    → Reported now s h head (r, t)
    → Reported now s h head (r, u)
Reported-same now s h head none t u e v = ground arith
Reported-same now s h head (some x) t u e v = (v.0, e ∙ v.1, v.2, v.3, v.4)

Reported-quiet :
    (now : ℕ) (s : StateManager) (h : BlockHeader) (head : Option BlockHeader)
    (r : Option ReorgEvent) (t : StateManager)
    → Reported now s h head (r, t)
    → r ≡ none
    → Follows head h
Reported-quiet now s h head none t v e = v.0
Reported-quiet now s h head (some x) t v e = cc

-- Detection touches nothing but the recorded events.
check_reorg-keeps :
    (now : ℕ) (s : StateManager) (h : BlockHeader) (head : Option BlockHeader)
    → let t = (check_reorg now s h head).1 in
      (t.config ≡ s.config)
      × (t.block_headers ≡ s.block_headers)
      × (t.pending_transactions ≡ s.pending_transactions)
      × (t.nonce_tracker ≡ s.nonce_tracker)
unfolding check_reorg
check_reorg-keeps now s h none = (refl, refl, refl, refl)
check_reorg-keeps now s h (some c) = ground arith

-- An update, on every branch: it reports a reorg exactly when the header does not follow the head,
-- records the report, installs the header as head, keeps at most `max_block_history` headers, and
-- leaves the pending transactions and the nonces.
pub update_block_header-Reported :
    (now : ℕ) (s : StateManager) (h : BlockHeader)
    → let (event, s') = update_block_header now s h in
      Reported now s h s.current_head (event, s')
      × (s'.current_head ≡ some h)
      × (length s'.block_headers ≤ s.config.max_block_history)
      × (s'.pending_transactions ≡ s.pending_transactions)
      × (s'.nonce_tracker ≡ s.nonce_tracker)
unfolding update_block_header
update_block_header-Reported now s h =
    let (event, t) = check_reorg now s h s.current_head in
    let (_, _, pool, nonces) = check_reorg-keeps now s h s.current_head in
    (
      Reported-same now s h s.current_head event t (update_block_header now s h).1 refl
          (check_reorg-Reported now s h s.current_head),
      refl,
      length-trim s.config.max_block_history (t.block_headers ++ h ∷ []),
      pool,
      nonces,
    )

-- The history ends in the head, each header following the one before it.
abbrev pub IsLinked : StateManager → Type 0
IsLinked s = (h : BlockHeader) × (s.current_head ≡ some h) × Chain s.block_headers h

update_block_header-IsLinked :
    (now : ℕ) (s : StateManager) (h : BlockHeader)
    → 0 < s.config.max_block_history
    → IsLinked s
    → (update_block_header now s h).0 ≡ none
    → IsLinked (update_block_header now s h).1
unfolding update_block_header
update_block_header-IsLinked now s h pos (c, e, chain) quiet =
    let t = (check_reorg now s h s.current_head).1 in
    let (_, same, _, _) = check_reorg-keeps now s h s.current_head in
    let follows =
      Reported-quiet now s h s.current_head (check_reorg now s h s.current_head).0 t
        (check_reorg-Reported now s h s.current_head) quiet in
    let longer =
      Chain-append s.block_headers c h chain (subst (λ head. Follows head h) e follows) in
    (
      h,
      refl,
      trim-Chain s.config.max_block_history (t.block_headers ++ h ∷ []) h pos (rw same longer),
    )

-- Headers as they arrive, each with the time of its arrival.
unfoldable pub update_all : StateManager → List (ℕ × BlockHeader) → StateManager
update_all s [] = s
update_all s ((now, h) ∷ hs) = update_all (update_block_header now s h).1 hs

Reported-grows :
    (now : ℕ) (s : StateManager) (h : BlockHeader) (head : Option BlockHeader)
    (r : Option ReorgEvent) (t : StateManager)
    → Reported now s h head (r, t)
    → (length s.reorg_events ≤ length t.reorg_events)
      × (length t.reorg_events ≤ length s.reorg_events → r ≡ none)
Reported-grows now s h head none t v = ground arith
Reported-grows now s h head (some e) t v = ground (arith, length-append s.reorg_events (e ∷ []))

update_block_header-grows :
    (now : ℕ) (s : StateManager) (h : BlockHeader)
    → let (event, t) = update_block_header now s h in
      (length s.reorg_events ≤ length t.reorg_events)
      × (length t.reorg_events ≤ length s.reorg_events → event ≡ none)
      × (t.config ≡ s.config)
unfolding update_block_header
update_block_header-grows now s h =
    let (more, quiet) =
      Reported-grows now s h s.current_head _ (check_reorg now s h s.current_head).1
        (check_reorg-Reported now s h s.current_head) in
    (more, quiet, (check_reorg-keeps now s h s.current_head).0)

update_all-grows :
    (s : StateManager) (hs : List (ℕ × BlockHeader))
    → length s.reorg_events ≤ length (update_all s hs).reorg_events
unfolding update_all
update_all-grows s [] = omega arith
update_all-grows s ((now, h) ∷ hs) = omega (
  arith,
  (update_block_header-grows now s h).0,
  update_all-grows (update_block_header now s h).1 hs,
)

update_all-IsLinked :
    (s : StateManager) (hs : List (ℕ × BlockHeader))
    → 0 < s.config.max_block_history
    → IsLinked s
    → length (update_all s hs).reorg_events ≤ length s.reorg_events
    → IsLinked (update_all s hs)
unfolding update_all
update_all-IsLinked s [] pos v quiet = v
update_all-IsLinked s ((now, h) ∷ hs) pos v quiet =
    let t = (update_block_header now s h).1 in
    let (more, silent, same) = update_block_header-grows now s h in
    let later = update_all-grows t hs in
    update_all-IsLinked t hs (rw same pos)
      (update_block_header-IsLinked now s h pos v (silent (omega arith))) (omega arith)

-- A manager that starts at block `b` and keeps at least one header: whatever headers arrive, if it
-- has recorded no reorg then its history is a chain of parents with rising numbers that ends in
-- its head.
pub no_reorg-IsLinked :
    (start : ℕ) (c : StateManagerConfig) (b : BlockHeader) (hs : List (ℕ × BlockHeader))
    → 0 < c.max_block_history
    → (update_all (initialize (new start c) b) hs).reorg_events ≡ []
    → IsLinked (update_all (initialize (new start c) b) hs)
unfolding initialize new
no_reorg-IsLinked start c b hs pos quiet =
    update_all-IsLinked _ hs pos (b, refl, refl) (omega (arith, ap length quiet))
