-- ===== src/RingBuffer/Shared.antt =====
-- Several handles on one queue. `Clone` for `TransactionRingBuffer` shares the queue through its
-- `Arc` and starts a counter of its own at the value of the cloned one; a `TransactionConsumer`
-- has the queue alone. The operations of the queue are atomic, so that a run of several threads
-- is a sequence of calls.
use botmev.Prelude.{
  ℕ, zero, suc, List, [], ◌∷◌, ◌++◌, Option, none, some, Bool, true, false, get_elem?,
}
use botmev.Types.{ParsedTransaction}
use botmev.RingBuffer.Interface.{ArrayQueue}
use botmev.RingBuffer.Defs.{TransactionRingBuffer, push, pop, consume, consume_batch}

-- A call, and the handle that it is made through (`consume` and `consume_batch` are a consumer's).
pub data Call : Type 0 where
  push_through : ℕ → ParsedTransaction → Call
  pop_through : ℕ → Call
  consume_one : Call
  consume_many : ℕ → Call
  clone_of : ℕ → Call

-- What a call took in, and what it handed out.
pub record Effect : Type 0 where
  pub accepted : List ParsedTransaction
  pub delivered : List ParsedTransaction

abbrev pub no_effect : Effect
no_effect = record { accepted = []; delivered = [] }

abbrev pub takes_in : Bool → ParsedTransaction → Effect
takes_in true tx = record { accepted = tx ∷ []; delivered = [] }
takes_in false tx = no_effect

abbrev pub hands_out : Option ParsedTransaction → Effect
hands_out none = no_effect
hands_out (some tx) = record { accepted = []; delivered = tx ∷ [] }

-- The counter of handle `i`, rewritten.
abbrev pub set_count : List ℕ → ℕ → ℕ → List ℕ
set_count [] i v = []
set_count (x ∷ xs) zero v = v ∷ xs
set_count (x ∷ xs) (suc i) v = x ∷ set_count xs i v

module _ (Q : ArrayQueue ParsedTransaction) where
  open Q use {Queue}

  pub record Shared : Type 0 where
    pub queue : Queue
    pub capacity : ℕ
    -- the `dropped_count` of each handle
    pub counts : List ℕ

  -- The buffer as the handle with the counter `c` sees it.
  abbrev pub handle : Shared → ℕ → TransactionRingBuffer Q
  handle s c = record { queue = s.queue; capacity = s.capacity; dropped_count = c }

  unfoldable pub push_on : Shared → ℕ → ParsedTransaction → Option ℕ → Effect × Shared
  push_on s i tx none = (no_effect, s)
  push_on s i tx (some c) =
      let (r, b) = push Q (handle s c) tx in
      (takes_in r tx, record s { queue = b.queue; counts = set_count s.counts i b.dropped_count })

  unfoldable pub pop_on : Shared → Option ℕ → Effect × Shared
  pop_on s none = (no_effect, s)
  pop_on s (some c) = let (r, b) = pop Q (handle s c) in (hands_out r, record s { queue = b.queue })

  unfoldable pub clone_on : Shared → Option ℕ → Effect × Shared
  clone_on s none = (no_effect, s)
  clone_on s (some c) = (no_effect, record s { counts = s.counts ++ c ∷ [] })

  unfoldable pub step : Shared → Call → Effect × Shared
  unfolding push_on pop_on clone_on
  step s (push_through i tx) = push_on s i tx (get_elem? s.counts i)
  step s (pop_through i) = pop_on s (get_elem? s.counts i)
  step s consume_one = let (r, q) = consume Q s.queue in (hands_out r, record s { queue = q })
  step s (consume_many n) =
      let (txs, q) = consume_batch Q s.queue n in
      (record { accepted = []; delivered = txs }, record s { queue = q })
  step s (clone_of i) = clone_on s (get_elem? s.counts i)

  unfoldable pub run : Shared → List Call → Effect × Shared
  run s [] = (no_effect, s)
  run s (c ∷ cs) =
      let (e, s') = step s c in
      let (f, s'') = run s' cs in
      (record { accepted = e.accepted ++ f.accepted; delivered = e.delivered ++ f.delivered }, s'')
