-- ===== src/Backpressure/Accounting.antt =====
-- What pushes and receives do to the channel's contents and to the counters.
use botmev.Prelude.{
  if-holds, ℕ, zero, suc, ◌+◌, ◌%◌, ◌≡◌, refl, sym, ap, ◌∙◌, Bool, true, false, not, ◌&&◌, List, [],
  ◌∷◌, ◌++◌, arith, length, take, drop, add64, u64_mod, if◌then◌else◌,
}
use mathlib.Core.List.{append-nil, append_assoc}
use botmev.Types.{ParsedTransaction}
use botmev.Backpressure.Interface.{Channel, Floats}
use botmev.Backpressure.Defs.{
  DropPolicy, oldest, newest, random, Outcome, accepted, failed, Buffer, send_counted, drop_new,
  apply_policy, utilization, push, receive_batch,
}

-- The transactions that a push with this outcome adds.
abbrev pub added : Outcome → ParsedTransaction → List ParsedTransaction
added accepted tx = tx ∷ []
added _ tx = []

abbrev pub one_if_failed : Outcome → ℕ
one_if_failed failed = 1
one_if_failed _ = 0

module _ (M : Channel ParsedTransaction) (R : Floats) where
  open M use {Chan, contents}
  open R use {F64}

  abbrev pub held : Buffer M R → List ParsedTransaction
  held b = contents b.channel

  abbrev pub counted : Buffer M R → ℕ
  counted b = b.total_processed + b.total_dropped

  -- What a push that ends in `b'` with outcome `o` has done to `b`, except for `total_received`.
  abbrev Adds : Buffer M R → ParsedTransaction → Outcome × Buffer M R → Type 0
  Adds b tx (o, b') =
      (held b' ≡ held b ++ added o tx)
      × ((counted b' + one_if_failed o) % u64_mod ≡ (counted b + 1) % u64_mod)
      × (b'.total_received ≡ b.total_received)
      × (b'.config ≡ b.config)

  send-Adds : (b : Buffer M R) (tx : ParsedTransaction) → Adds b tx (send_counted M R b tx)
  unfolding send_counted
  send-Adds b tx = ground (arith, M.sends b.channel tx, append-nil (held b))

  drop-Adds : (b : Buffer M R) (tx : ParsedTransaction) → Adds b tx (drop_new M R b)
  unfolding drop_new
  drop-Adds b tx = ground (arith, append-nil (held b))

  policy-Adds :
      (p : DropPolicy) (less_half : Bool) (b : Buffer M R) (tx : ParsedTransaction)
      → Adds b tx (apply_policy M R p less_half b tx)
  unfolding apply_policy
  policy-Adds oldest less_half b tx = send-Adds b tx
  policy-Adds newest less_half b tx = drop-Adds b tx
  policy-Adds random true b tx = drop-Adds b tx
  policy-Adds random false b tx = send-Adds b tx

  abbrev pub Pushed : Buffer M R → ParsedTransaction → Outcome × Buffer M R → Type 0
  Pushed b tx (o, b') =
      (held b' ≡ held b ++ added o tx)
      × ((counted b' + one_if_failed o) % u64_mod ≡ (counted b + 1) % u64_mod)
      × (b'.total_received ≡ add64 b.total_received 1)
      × (b'.config ≡ b.config)

  -- Under every drop policy, with or without back-pressure: an accepted transaction is appended
  -- and nothing that is buffered is removed, so that the policy `oldest` discards the new
  -- transaction as the others do; and the push counts as received and, unless the channel is
  -- closed, as either processed or dropped.
  pub push-Pushed :
      (less_half : Bool) (b : Buffer M R) (tx : ParsedTransaction)
      → Pushed b tx (push M R less_half b tx)
  unfolding push
  push-Pushed less_half b tx =
      let b' = record b { total_received = add64 b.total_received 1 } in
      let u = utilization M R b' in
      let policy =
        policy-Adds b.config.drop_policy less_half (record b' { backpressure_active = true }) tx in
      let normal =
        send-Adds
          (record b' {
            backpressure_active =
                if b.backpressure_active && R.at_least b.config.low_watermark u
                then false
                else b.backpressure_active;
          })
          tx in
      if-holds (Pushed b tx) (not b.config.enabled) (send-Adds b' tx)
        (if-holds (Pushed b tx) (R.at_least u b.config.high_watermark) policy normal)

  -- Pushes one after another, with the random choices that they make; the outcomes are kept.
  unfoldable pub push_all :
      Buffer M R → List (Bool × ParsedTransaction) → List (Outcome × ParsedTransaction) × Buffer M R
  push_all b [] = ([], b)
  push_all b ((r, tx) ∷ txs) =
      let (o, b') = push M R r b tx in let (os, b'') = push_all b' txs in ((o, tx) ∷ os, b'')

  abbrev pub accepted_of : List (Outcome × ParsedTransaction) → List ParsedTransaction
  accepted_of [] = []
  accepted_of ((o, tx) ∷ os) = added o tx ++ accepted_of os

  abbrev pub failures_of : List (Outcome × ParsedTransaction) → ℕ
  failures_of [] = 0
  failures_of ((o, tx) ∷ os) = one_if_failed o + failures_of os

  -- After any pushes the channel holds what it held and then the accepted transactions in order;
  -- each push has been counted as received; and as processed, as dropped or as one that found the
  -- channel closed (modulo 2^64).
  pub push_all_lem :
      (b : Buffer M R) (txs : List (Bool × ParsedTransaction))
      → let (os, b') = push_all b txs in
        (held b' ≡ held b ++ accepted_of os)
        × ((counted b' + failures_of os) % u64_mod ≡ (counted b + length txs) % u64_mod)
        × (b'.total_received % u64_mod ≡ (b.total_received + length txs) % u64_mod)
  unfolding push_all
  push_all_lem b [] = (sym (append-nil (held b)), omega arith, omega arith)
  push_all_lem b ((r, tx) ∷ txs) =
      let (o, b') = push M R r b tx in
      let (appends, counts, receives, _) = push-Pushed r b tx in
      let (all, count, received) = push_all_lem b' txs in
      (
        all
            ∙ ap (λ k. k ++ accepted_of (push_all b' txs).0) appends
            ∙ append_assoc (held b) (added o tx) (accepted_of (push_all b' txs).0),
        omega (arith, counts, count),
        omega (arith, receives, received),
      )

  -- A batch takes the oldest messages, at most `n` of them, in order and leaves the others.
  receive_batch_lem :
      (c : Chan) (n : ℕ)
      → let (txs, c') = receive_batch M R c n in
        (txs ≡ take n (contents c)) × (contents c' ≡ drop n (contents c))
  unfolding receive_batch
  receive_batch_lem c zero = (refl, refl)
  receive_batch_lem c (suc n) = ground (arith, M.receives c, receive_batch_lem (M.try_recv c).1 n)
