-- ===== src/RingBuffer/Fifo.antt =====
-- The queue behind any interleaving of producers and consumers.
use mathlib.Core.List.{append-nil, append_assoc}
use botmev.Prelude.{
  ℕ, ◌≤◌, ◌≡◌, refl, sym, ap, ◌∙◌, List, [], ◌∷◌, ◌++◌, Option, none, some, arith, length,
  get_elem?, Option-cases, inl, inr, take-append-drop,
}
use botmev.Types.{ParsedTransaction}
use botmev.RingBuffer.Interface.{ArrayQueue}
use botmev.RingBuffer.Defs.{TransactionRingBuffer, new, pop, consume}
use botmev.RingBuffer.Laws.{push_lem, consume_batch_lem}
use botmev.RingBuffer.Shared.{
  Shared, Effect, Call, push_through, pop_through, consume_one, consume_many, clone_of, handle,
  push_on, pop_on, clone_on, step, run, hands_out,
}

module _ (Q : ArrayQueue ParsedTransaction) where
  open Q use {Queue, contents, bound}

  -- What was held, then what came in, is what went out, then what is held; the bound stays.
  abbrev pub Balanced : Shared Q → Effect × Shared Q → Type 0
  Balanced s (e, s') =
      (contents s.queue ++ e.accepted ≡ e.delivered ++ contents s'.queue)
      × (bound s'.queue ≡ bound s.queue)

  push_on-Balanced :
      (s : Shared Q) (i : ℕ) (tx : ParsedTransaction) (o : Option ℕ)
      → Balanced s (push_on Q s i tx o)
  unfolding push_on
  push_on-Balanced s i tx none = (append-nil _, refl)
  push_on-Balanced s i tx (some c) =
      ground (arith, push_lem Q (handle Q s c) tx, append-nil (contents s.queue))

  pop-Balanced :
      (q : Queue) (xs : List ParsedTransaction)
      → contents q ≡ xs
      → let e = hands_out (Q.pop q).0 in
        (contents q ++ e.accepted ≡ e.delivered ++ contents (Q.pop q).1)
        × (bound (Q.pop q).1 ≡ bound q)
  pop-Balanced q [] e = ground (arith, Q.pop_empty q e, append-nil (contents q))
  pop-Balanced q (x ∷ xs) e = ground (arith, Q.pop_some q x xs e, append-nil (contents q))

  pop_on-Balanced : (s : Shared Q) (o : Option ℕ) → Balanced s (pop_on Q s o)
  unfolding pop_on pop
  pop_on-Balanced s none = (append-nil _, refl)
  pop_on-Balanced s (some c) = pop-Balanced s.queue (contents s.queue) refl

  clone_on-Balanced : (s : Shared Q) (o : Option ℕ) → Balanced s (clone_on Q s o)
  unfolding clone_on
  clone_on-Balanced s none = (append-nil _, refl)
  clone_on-Balanced s (some c) = (append-nil _, refl)

  step-Balanced : (s : Shared Q) (c : Call) → Balanced s (step Q s c)
  unfolding step pop consume
  step-Balanced s (push_through i tx) = push_on-Balanced s i tx (get_elem? s.counts i)
  step-Balanced s (pop_through i) = pop_on-Balanced s (get_elem? s.counts i)
  step-Balanced s consume_one = pop-Balanced s.queue (contents s.queue) refl
  step-Balanced s (consume_many n) = ground (
    arith,
    consume_batch_lem Q s.queue n,
    take-append-drop n (contents s.queue),
    append-nil (contents s.queue),
  )
  step-Balanced s (clone_of i) = clone_on-Balanced s (get_elem? s.counts i)

  run-Balanced : (s : Shared Q) (cs : List Call) → Balanced s (run Q s cs)
  unfolding run
  run-Balanced s [] = (append-nil _, refl)
  run-Balanced s (c ∷ cs) =
      let (e, s') = step Q s c in
      let (f, s'') = run Q s' cs in
      let first = step-Balanced s c in
      let rest = run-Balanced s' cs in
      (
        sym (append_assoc (contents s.queue) e.accepted f.accepted)
            ∙ ap (λ l. l ++ f.accepted) first.0
            ∙ append_assoc e.delivered (contents s'.queue) f.accepted
            ∙ ap (◌++◌ e.delivered) rest.0
            ∙ sym (append_assoc e.delivered f.delivered (contents s''.queue)),
        rest.1 ∙ first.1,
      )

  -- The one handle on a new buffer.
  abbrev pub shared : TransactionRingBuffer Q → Shared Q
  shared b = record { queue = b.queue; capacity = b.capacity; counts = b.dropped_count ∷ [] }

  new-fresh :
      (c : ℕ) {b : TransactionRingBuffer Q}
      → new Q c ≡ some b
      → (contents b.queue ≡ []) × (bound b.queue ≡ c)
  unfolding new
  new-fresh c e = elim (Option-cases (Q.new c)) [
    | inl refused ↦ ground arith
    | inr (q, made) ↦ ground (arith, Q.new_pos c made)
  ]

  -- Whatever calls are made through whatever handles on a new buffer of capacity `c`, in whatever
  -- order: the transactions that the pushes accepted are, in order, those that were handed out
  -- followed by those still held; and never more than `c` are held.
  pub run_fifo :
      (c : ℕ) {b : TransactionRingBuffer Q} (cs : List Call)
      → new Q c ≡ some b
      → let (e, s) = run Q (shared b) cs in
        (e.accepted ≡ e.delivered ++ contents s.queue) × (length (contents s.queue) ≤ c)
  run_fifo c {b} cs e =
      let (start, cap) = new-fresh c e in
      let (sum, same) = run-Balanced (shared b) cs in
      let held = Q.within (run Q (shared b) cs).1.queue in (rw start at sum, omega arith)
