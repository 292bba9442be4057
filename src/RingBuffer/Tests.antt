-- ===== src/RingBuffer/Tests.antt =====
-- A list as the queue, runs on it, and the theorems at concrete inputs.
use botmev.Prelude.{
  ℕ, zero, suc, ◌≤◌, ◌<◌, ◌≡◌, refl, List, [], ◌∷◌, ◌++◌, Option, none, some, false, arith, length,
  length-append,
}
use mathlib.Core.Logic.{dite, dif_pos, dif_neg}
use native.Mathlib.Decide.{dec_lt}
use native.Mathlib.Bridge.{le_prop}
use botmev.Types.{ParsedTransaction, TargetType}
use botmev.RingBuffer.Interface.{ArrayQueue}
use botmev.RingBuffer.Defs.{TransactionRingBuffer, new, push, pop, consume, consume_batch}
use botmev.RingBuffer.Shared.{
  Call, push_through, pop_through, consume_one, consume_many, clone_of, push_on, pop_on, clone_on,
  step, run,
}
use botmev.RingBuffer.Fifo.{shared, run_fifo}

-- A queue as a list with its bound, and the proof that it is not exceeded.
abbrev Bounded : Type 0 → Type 0
Bounded A = (c : ℕ) × (xs : List A) × (length xs ≤ c)

module _ {A : Type 0} where
  list_push : Bounded A → A → Option A × Bounded A
  list_push (c, xs, h) a =
      dite (dec_lt (length xs) c)
        (λ room. (none, (c, xs ++ a ∷ [], omega (arith, length-append xs (a ∷ [])))))
        (λ _. (some a, (c, xs, h)))

  list_pop : Bounded A → Option A × Bounded A
  list_pop (c, [], h) = (none, (c, [], h))
  list_pop (c, x ∷ xs, h) = (some x, (c, xs, omega arith))

  list_push_room :
      (q : Bounded A) (a : A)
      → length q.1 < q.0
      → ((list_push q a).0 ≡ none)
        × ((list_push q a).1.1 ≡ q.1 ++ a ∷ [])
        × ((list_push q a).1.0 ≡ q.0)
  unfolding list_push
  list_push_room (c, xs, h) a room =
      rw (dif_pos (dec_lt (length xs) c) le_prop room) (refl, refl, refl)

  list_push_full : (q : Bounded A) (a : A) → length q.1 ≡ q.0 → list_push q a ≡ (some a, q)
  unfolding list_push
  list_push_full (c, xs, h) a full = rw (dif_neg (dec_lt (length xs) c) (omega arith))

  list_pop-some :
      (q : Bounded A) (a : A) (xs : List A)
      → q.1 ≡ a ∷ xs
      → ((list_pop q).0 ≡ some a) × ((list_pop q).1.1 ≡ xs) × ((list_pop q).1.0 ≡ q.0)
  unfolding list_pop
  list_pop-some (c, [], h) a xs e = cc
  list_pop-some (c, x ∷ ys, h) a xs e = ground arith

  list_pop_empty : (q : Bounded A) → q.1 ≡ [] → list_pop q ≡ (none, q)
  unfolding list_pop
  list_pop_empty (c, [], h) e = refl
  list_pop_empty (c, x ∷ ys, h) e = cc

empty_fits : (c : ℕ) → 0 ≤ c
empty_fits c = omega arith

list_new : {A : Type 0} → ℕ → Option (Bounded A)
list_new zero = none
list_new (suc n) = some (suc n, [], empty_fits (suc n))

list_new_pos : {A : Type 0} (c : ℕ) {q : Bounded A} → list_new c ≡ some q → (q.1 ≡ []) × (q.0 ≡ c)
unfolding list_new
list_new_pos zero e = cc
list_new_pos (suc n) e = ground arith

list_queue : ArrayQueue ParsedTransaction
unfolding list_new
list_queue = record {
  Queue = Bounded ParsedTransaction;
  new = list_new;
  push = list_push;
  pop = list_pop;
  len = λ q. length q.1;
  contents = λ q. q.1;
  bound = λ q. q.0;
  new_pos = list_new_pos;
  new_zero = refl;
  push_room = list_push_room;
  push_full = list_push_full;
  pop_some = list_pop-some;
  pop_empty = list_pop_empty;
  len_contents = λ q. refl;
  within = λ q. q.2;
}

-- A transaction, told from others by its nonce.
abbrev sample : ℕ → ParsedTransaction
sample n = record {
  transaction = record {
    hash = "0x123";
    sender = "0x456";
    to = some "0x789";
    value = "1000";
    gas_price = "20000000000";
    gas_limit = "21000";
    nonce = n;
    input = "0x";
    timestamp = 0;
  };
  decoded_input = none;
  target_type = TargetType.unknown;
  processing_time_ms = 5;
}

abbrev two : TransactionRingBuffer list_queue
unfolding list_queue
two = record { queue = (2, [], empty_fits 2); capacity = 2; dropped_count = 0 }

-- Two producers on clones, a batch, and a push that finds the queue full.
abbrev calls : List Call
calls =
    clone_of 0
    ∷ push_through 0 (sample 1)
    ∷ push_through 1 (sample 2)
    ∷ push_through 0 (sample 3)
    ∷ consume_many 1
    ∷ push_through 1 (sample 4)
    ∷ pop_through 0
    ∷ consume_one
    ∷ []

-- test_ring_buffer_overflow of the source: the third push fails and is counted.
overflow :
    let b = (push list_queue (push list_queue two (sample 1)).1 (sample 2)).1 in
    ((push list_queue b (sample 3)).0 ≡ false)
    × ((push list_queue b (sample 3)).1.dropped_count ≡ 1)
unfolding push list_queue list_push dec_lt
overflow = (refl, refl)

-- The drop through handle 0 shows in its own counter only.
clone_counts : (run list_queue (shared list_queue two) calls).1.counts ≡ 1 ∷ 0 ∷ []
unfolding run step push_on pop_on clone_on push pop consume consume_batch list_queue list_push
    list_pop dec_lt
clone_counts = refl

run_fifo_example :
    let (e, s) = run list_queue (shared list_queue two) calls in
    (e.accepted ≡ e.delivered ++ list_queue.contents s.queue)
    × (length (list_queue.contents s.queue) ≤ 2)
unfolding new list_queue list_new
run_fifo_example = run_fifo list_queue 2 {b = two} calls refl
