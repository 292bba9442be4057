-- ===== src/RingBuffer/Laws.antt =====
-- What a push and a batch do to the queue's contents, from the documented laws of the queue.
use botmev.Prelude.{
  ℕ, zero, suc, ◌<◌, ◌≡◌, refl, List, [], ◌∷◌, ◌++◌, Bool, true, false, arith, length, take, drop,
  add64,
}
use native.Mathlib.Decide.{dec_lt}
use botmev.Types.{ParsedTransaction}
use botmev.RingBuffer.Interface.{ArrayQueue}
use botmev.RingBuffer.Defs.{TransactionRingBuffer, push, consume_batch}

module _ (Q : ArrayQueue ParsedTransaction) where
  open Q use {Queue, contents, bound}

  -- A push below the capacity succeeds and appends; at the capacity it changes nothing but the
  -- drop counter.
  abbrev pub Pushed :
      TransactionRingBuffer Q → ParsedTransaction → Bool × TransactionRingBuffer Q → Type 0
  Pushed b tx (true, b') =
      (length (contents b.queue) < bound b.queue)
      × (contents b'.queue ≡ contents b.queue ++ tx ∷ [])
      × (bound b'.queue ≡ bound b.queue)
      × (b'.dropped_count ≡ b.dropped_count)
      × (b'.capacity ≡ b.capacity)
  Pushed b tx (false, b') =
      (length (contents b.queue) ≡ bound b.queue)
      × (contents b'.queue ≡ contents b.queue)
      × (bound b'.queue ≡ bound b.queue)
      × (b'.dropped_count ≡ add64 b.dropped_count 1)
      × (b'.capacity ≡ b.capacity)

  -- On every branch: `push` answers true exactly when there is room, appends the transaction then,
  -- and otherwise keeps the contents and counts one more drop.
  pub push_lem : (b : TransactionRingBuffer Q) (tx : ParsedTransaction) → Pushed b tx (push Q b tx)
  unfolding push
  push_lem b tx = elim (dec_lt (length (contents b.queue)) (bound b.queue)) [
    | yes room ↦ ground (arith, Q.push_room b.queue tx room)
    | no full ↦
        let e : length (contents b.queue) ≡ bound b.queue = omega (arith, Q.within b.queue) in
        ground (arith, Q.push_full b.queue tx e)
  ]

  batch_cases :
      (q : Queue) (n : ℕ) (xs : List ParsedTransaction)
      → contents q ≡ xs
      → ((consume_batch Q q n).0 ≡ take n xs)
        × (contents (consume_batch Q q n).1 ≡ drop n xs)
        × (bound (consume_batch Q q n).1 ≡ bound q)
  unfolding consume_batch
  batch_cases q zero xs e = (refl, e, refl)
  batch_cases q (suc n) [] e = ground (arith, Q.pop_empty q e)
  batch_cases q (suc n) (x ∷ xs) e =
      let popped = Q.pop_some q x xs e in
      ground (arith, popped, batch_cases (Q.pop q).1 n xs popped.1)

  -- A batch of at most `n` hands out the `n` oldest transactions, in order, and leaves the rest.
  pub consume_batch_lem :
      (q : Queue) (n : ℕ)
      → ((consume_batch Q q n).0 ≡ take n (contents q))
        × (contents (consume_batch Q q n).1 ≡ drop n (contents q))
        × (bound (consume_batch Q q n).1 ≡ bound q)
  consume_batch_lem q n = batch_cases q n (contents q) refl
