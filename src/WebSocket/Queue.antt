-- ===== src/WebSocket/Queue.antt =====
-- `MessageQueue` and `process_message_queue`. `message_tx.send` on the unbounded channel (tokio, not
-- in the repository) fails exactly when the receiver is gone, which is the argument `alive`; what
-- was sent is the list `sent`. Counters are `u64` and wrap round.
use botmev.Prelude.{
  ℕ, suc, ◌+◌, ◌-◌, ◌%◌, ◌≤◌, ◌<◌, ◌≡◌, refl, sym, ap, ◌∙◌, Bool, true, false, List, [], ◌∷◌, ◌++◌,
  arith, length, length-append, drop, leb, if◌then◌else◌, add64, u64_mod, zero, tests, Bool-cases,
  inl, inr,
}
use mathlib.Core.List.{append-nil, append_assoc}

pub record MessageQueue {ℓ} (M : Type ℓ) : Type ℓ where
  pub queue : List M
  pub max_size : ℕ
  pub dropped_count : ℕ

module _ {ℓ} {M : Type ℓ} where
  unfoldable pub new : ℕ → MessageQueue M
  new max_size = record { queue = []; max_size = max_size; dropped_count = 0 }

  -- `VecDeque::pop_front`, without its result.
  abbrev pub tail : List M → List M
  tail [] = []
  tail (x ∷ xs) = xs

  unfoldable pub push : MessageQueue M → M → MessageQueue M
  push q m =
      if leb q.max_size (length q.queue)
      then record q { queue = tail q.queue ++ m ∷ []; dropped_count = add64 q.dropped_count 1 }
      else record q { queue = q.queue ++ m ∷ [] }

  unfoldable pub pushes : MessageQueue M → List M → MessageQueue M
  pushes q [] = q
  pushes q (m ∷ ms) = pushes (push q m) ms

  -- The last `n` messages of a list.
  abbrev pub last : ℕ → List M → List M
  last n l = drop (length l - n) l

  -- Dropping one more of a list that is long enough.
  drop-suc : (n : ℕ) (l : List M) → drop (suc n) l ≡ tail (drop n l)
  drop-suc zero [] = refl
  drop-suc zero (x ∷ l) = refl
  drop-suc (suc n) [] = refl
  drop-suc (suc n) (x ∷ l) = drop-suc n l

  drop-append : (n : ℕ) (l k : List M) → n ≤ length l → drop n (l ++ k) ≡ drop n l ++ k
  drop-append zero l k h = refl
  drop-append (suc n) [] k h = absurd (omega arith)
  drop-append (suc n) (x ∷ l) k h = drop-append n l k (omega arith)

  length-tail : (l : List M) → length (tail l) ≡ length l - 1
  length-tail [] = omega arith
  length-tail (x ∷ l) = omega arith

  drop-nil : (n : ℕ) → drop {A = M} n [] ≡ []
  drop-nil zero = refl
  drop-nil (suc n) = refl

  length-drop : (n : ℕ) (l : List M) → length (drop n l) ≡ length l - n
  length-drop zero l = omega arith
  length-drop (suc n) [] = omega arith
  length-drop (suc n) (x ∷ l) = omega (arith, length-drop n l)

  -- The queue holds the last `max_size` of the messages `l` that have come.
  abbrev pub Holds : MessageQueue M → List M → Type ℓ
  Holds q l = q.queue ≡ last q.max_size l

  push-Holds :
      (q : MessageQueue M) (l : List M) (m : M)
      → 0 < q.max_size
      → Holds q l
      → Holds (push q m) (l ++ m ∷ [])
  unfolding push
  push-Holds q l m pos h =
      let n = q.max_size in
      let held = length-drop (length l - n) l in
      let grown = length-append l (m ∷ []) in
      elim (Bool-cases (leb n (length q.queue))) [
        | inl full ↦
            let room : n ≤ length l = omega (tests, ap length h) in
            let more : length (l ++ m ∷ []) - n ≡ suc (length l - n) = omega arith in
            rw (full, more, drop-append (suc (length l - n)) l (m ∷ []) (omega arith))
              (rw (drop-suc (length l - n) l, h))
        | inr free ↦
            let small : length l < n = ground (arith, held, ap length h) in
            let fits : length (l ++ m ∷ []) - n ≡ 0 = omega arith in
            let whole : length l - n ≡ 0 = omega arith in
            rw (free, fits) (ap (λ k. k ++ m ∷ []) (h ∙ ap (λ k. drop k l) whole))
      ]

  push-max_size : (q : MessageQueue M) (m : M) → (push q m).max_size ≡ q.max_size
  unfolding push
  push-max_size q m = ground arith

  pushes-Holds :
      (q : MessageQueue M) (l ms : List M)
      → 0 < q.max_size
      → Holds q l
      → ((pushes q ms).queue ≡ last q.max_size (l ++ ms)) × ((pushes q ms).max_size ≡ q.max_size)
  unfolding pushes
  pushes-Holds q l [] pos h = (rw (append-nil l) h, refl)
  pushes-Holds q l (m ∷ ms) pos h =
      let size = push-max_size q m in
      let rest = pushes-Holds (push q m) (l ++ m ∷ []) ms (omega arith) (push-Holds q l m pos h) in
      (
        rest.0
            ∙ ap (λ n. last n ((l ++ m ∷ []) ++ ms)) size
            ∙ ap (last q.max_size) (append_assoc l (m ∷ []) ms),
        rest.1 ∙ size,
      )

  push-count :
      (q : MessageQueue M) (m : M)
      → 0 < q.max_size
      → ((push q m).dropped_count + length (push q m).queue) % u64_mod
        ≡ (q.dropped_count + length q.queue + 1) % u64_mod
  unfolding push
  push-count q m pos = ground (
    arith,
    length-append (tail q.queue) (m ∷ []),
    length-append q.queue (m ∷ []),
    length-tail q.queue,
  )

  pushes-count :
      (q : MessageQueue M) (ms : List M)
      → 0 < q.max_size
      → ((pushes q ms).dropped_count + length (pushes q ms).queue) % u64_mod
        ≡ (q.dropped_count + length q.queue + length ms) % u64_mod
  unfolding pushes
  pushes-count q [] pos = omega arith
  pushes-count q (m ∷ ms) pos =
      let size = push-max_size q m in
      omega (arith, push-count q m pos, pushes-count (push q m) ms (omega arith))

  -- A queue of size `n > 0` that messages are pushed into holds the last `n` of them in order, at
  -- most `n`, and has counted the others as dropped, modulo 2^64.
  pushes-last :
      (n : ℕ) (ms : List M)
      → 0 < n
      → let q = pushes (new n) ms in
        (q.queue ≡ last n ms)
        × (length q.queue ≤ n)
        × ((q.dropped_count + length q.queue) % u64_mod ≡ length ms % u64_mod)
  unfolding new
  pushes-last n ms pos =
      let q = pushes (new n) ms in
      let (held, _) = pushes-Holds (new n) [] ms pos (sym (drop-nil (0 - n))) in
      let count = pushes-count (new n) ms pos in
      (held, omega (arith, ap length held, length-drop (length ms - n) ms), omega arith)

-- The queue with the receiver's end of the channel and the count of processed messages.
pub record Delivery {ℓ} (M : Type ℓ) : Type ℓ where
  pub messages : MessageQueue M
  pub sent : List M
  pub processed : ℕ

module _ {ℓ} {M : Type ℓ} where
  -- The loop of `process_message_queue`: a message that cannot be sent is gone, and ends it.
  unfoldable pub send_all : Bool → List M → List M → ℕ → List M × List M × ℕ
  send_all alive [] sent n = ([], sent, n)
  send_all true (m ∷ ms) sent n = send_all true ms (sent ++ m ∷ []) (add64 n 1)
  send_all false (m ∷ ms) sent n = (ms, sent, n)

  unfoldable pub process_message_queue : Bool → Delivery M → Delivery M
  unfolding send_all
  process_message_queue alive d =
      let (left, sent, n) = send_all alive d.messages.queue d.sent d.processed in
      record { messages = record (d.messages) { queue = left }; sent = sent; processed = n }

  -- What `handle_message` does with a trade or an order book.
  unfoldable pub deliver : Bool → Delivery M → M → Delivery M
  deliver alive d m = process_message_queue alive (record d { messages = push d.messages m })

  unfoldable pub deliver_all : Delivery M → List M → Delivery M
  deliver_all d [] = d
  deliver_all d (m ∷ ms) = deliver_all (deliver true d m) ms

  deliver-sent :
      (d : Delivery M) (m : M)
      → 0 < d.messages.max_size
      → d.messages.queue ≡ []
      → let d' = deliver true d m in
        (d'.sent ≡ d.sent ++ m ∷ [])
        × (d'.messages.queue ≡ [])
        × (d'.messages.dropped_count ≡ d.messages.dropped_count)
        × (d'.messages.max_size ≡ d.messages.max_size)
        × (d'.processed ≡ add64 d.processed 1)
  unfolding deliver process_message_queue push
  deliver-sent d m pos e =
      let free : leb d.messages.max_size 0 ≡ false = ground arith in
      rw (e, free) (refl, refl, refl, refl, refl)

  -- While the receiver is there, every message reaches it at once and in order: none waits in the
  -- queue, none is dropped, and each is counted (modulo 2^64).
  deliver_all_lem :
      (d : Delivery M) (ms : List M)
      → 0 < d.messages.max_size
      → d.messages.queue ≡ []
      → let d' = deliver_all d ms in
        (d'.sent ≡ d.sent ++ ms)
        × (d'.messages.queue ≡ [])
        × (d'.messages.dropped_count ≡ d.messages.dropped_count)
        × (d'.processed % u64_mod ≡ (d.processed + length ms) % u64_mod)
  unfolding deliver_all
  deliver_all_lem d [] pos e = (sym (append-nil d.sent), e, refl, omega arith)
  deliver_all_lem d (m ∷ ms) pos e =
      let (sent, empty, same, size, count) = deliver-sent d m pos e in
      let (all, none_waits, none_lost, counted) =
        deliver_all_lem (deliver true d m) ms (omega arith) empty in
      (
        all ∙ ap (λ k. k ++ ms) sent ∙ append_assoc d.sent (m ∷ []) ms,
        none_waits,
        none_lost ∙ same,
        omega (arith, counted, count),
      )
