-- ===== src/RingBuffer/Defs.antt =====
-- `TransactionRingBuffer` and `TransactionConsumer`, method by method.
use botmev.Prelude.{ℕ, zero, suc, List, [], ◌∷◌, Option, none, some, Bool, true, false, add64, ◌==◌}
use botmev.Types.{ParsedTransaction}
use botmev.RingBuffer.Interface.{ArrayQueue}

module _ (Q : ArrayQueue ParsedTransaction) where
  open Q use {Queue}

  pub record TransactionRingBuffer : Type 0 where
    pub queue : Queue
    pub capacity : ℕ
    -- an `AtomicU64`
    pub dropped_count : ℕ

  -- `none` is the panic of `ArrayQueue::new` at capacity 0.
  unfoldable pub new : ℕ → Option TransactionRingBuffer
  new capacity = elim (Q.new capacity) [
    | none ↦ none
    | some q ↦ some (record { queue = q; capacity = capacity; dropped_count = 0 })
  ]

  -- `fetch_add` wraps round.
  unfoldable pub push : TransactionRingBuffer → ParsedTransaction → Bool × TransactionRingBuffer
  push b transaction =
      let (r, q) = Q.push b.queue transaction in
      elim r [
        | none ↦ (true, record b { queue = q })
        | some t ↦ (false, record b { queue = q; dropped_count = add64 b.dropped_count 1 })
      ]

  -- `pop` and `try_pop`, which have the same body.
  unfoldable pub pop : TransactionRingBuffer → Option ParsedTransaction × TransactionRingBuffer
  pop b = let (r, q) = Q.pop b.queue in (r, record b { queue = q })

  unfoldable pub len : TransactionRingBuffer → ℕ
  len b = Q.len b.queue

  unfoldable pub is_empty : TransactionRingBuffer → Bool
  is_empty b = Q.len b.queue == 0

  -- `TransactionConsumer::consume`.
  unfoldable pub consume : Queue → Option ParsedTransaction × Queue
  consume q = Q.pop q

  -- `TransactionConsumer::consume_batch`: the loop stops at the first empty pop.
  unfoldable pub consume_batch : Queue → ℕ → List ParsedTransaction × Queue
  consume_batch q zero = ([], q)
  consume_batch q (suc n) =
      let (r, q') = Q.pop q in
      elim r [ none ↦ ([], q') | some tx ↦ let (txs, q'') = consume_batch q' n in (tx ∷ txs, q'') ]
