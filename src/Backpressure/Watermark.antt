-- ===== src/Backpressure/Watermark.antt =====
-- When back-pressure is active. `current_size` subtracts the room of the empty channel from what is
-- left of it, and so wraps round as soon as one message waits. The hypothesis on `ratio` is
-- IEEE 754's: a quotient of two numbers of which the first is not smaller is at least 1, hence at
-- least a watermark that is at most 1.
use botmev.Prelude.{
  ℕ, ◌+◌, ◌≤◌, ◌<◌, ◌≡◌, refl, ap, ◌∙◌, Bool, true, false, List, [], ◌∷◌, arith, length,
  length-append, add64, u64_mod,
}
use native.Mathlib.Decide.{dec_lt}
use botmev.Types.{ParsedTransaction}
use botmev.Backpressure.Interface.{Channel, Floats}
use botmev.Backpressure.Defs.{
  DropPolicy, oldest, newest, random, Outcome, accepted, dropped, failed, Buffer, send_counted,
  drop_new, apply_policy, current_size, utilization, push,
}
use botmev.Backpressure.Accounting.{added, held, push-Pushed, push_all}

length-added : (o : Outcome) (tx : ParsedTransaction) → length (added o tx) ≤ 1
length-added accepted tx = omega arith
length-added dropped tx = omega arith
length-added failed tx = omega arith

module _ (M : Channel ParsedTransaction) (R : Floats) where
  open M use {Chan, contents}
  open R use {F64}

  waiting_size :
      (b : Buffer M R)
      → 0 < length (held M R b)
      → current_size M R b + length (held M R b) ≡ u64_mod
  unfolding current_size
  waiting_size b h = omega (arith, M.room b.channel, M.max_small b.channel)

  waiting_high :
      (b : Buffer M R)
      → 0 < b.config.buffer_size
      → 0 < length (held M R b)
      → b.config.buffer_size + length (held M R b) ≤ u64_mod
      → ((m n : ℕ) → 0 < n → n ≤ m → R.at_least (R.ratio m n) b.config.high_watermark ≡ true)
      → R.at_least (utilization M R b) b.config.high_watermark ≡ true
  unfolding utilization
  waiting_high b pos some_wait fits high =
      high (current_size M R b) b.config.buffer_size pos (omega (arith, waiting_size b some_wait))

  send_keeps :
      (b : Buffer M R) (tx : ParsedTransaction)
      → (send_counted M R b tx).1.backpressure_active ≡ b.backpressure_active
  unfolding send_counted
  send_keeps b tx = ground arith

  policy_keeps :
      (p : DropPolicy) (r : Bool) (b : Buffer M R) (tx : ParsedTransaction)
      → (apply_policy M R p r b tx).1.backpressure_active ≡ b.backpressure_active
  unfolding apply_policy drop_new
  policy_keeps oldest r b tx = send_keeps b tx
  policy_keeps newest r b tx = refl
  policy_keeps random true b tx = refl
  policy_keeps random false b tx = send_keeps b tx

  -- With one transaction waiting, however large the buffer is, a push of an enabled buffer turns
  -- the back-pressure on (and leaves it on), for a watermark of at most 1.
  push-activates :
      (r : Bool) (b : Buffer M R) (tx : ParsedTransaction)
      → b.config.enabled ≡ true
      → 0 < b.config.buffer_size
      → 0 < length (held M R b)
      → b.config.buffer_size + length (held M R b) ≤ u64_mod
      → ((m n : ℕ) → 0 < n → n ≤ m → R.at_least (R.ratio m n) b.config.high_watermark ≡ true)
      → (push M R r b tx).1.backpressure_active ≡ true
  unfolding push
  push-activates r b tx on pos some_wait fits high =
      let b' = record b { total_received = add64 b.total_received 1 } in
      let active = record b' { backpressure_active = true } in
      ground (
        arith,
        waiting_high b' pos some_wait fits high,
        policy_keeps b.config.drop_policy r active tx,
      )

  newest_drops :
      (r : Bool) (b : Buffer M R) (tx : ParsedTransaction)
      → b.config.enabled ≡ true
      → b.config.drop_policy ≡ newest
      → 0 < b.config.buffer_size
      → 0 < length (held M R b)
      → b.config.buffer_size + length (held M R b) ≤ u64_mod
      → ((m n : ℕ) → 0 < n → n ≤ m → R.at_least (R.ratio m n) b.config.high_watermark ≡ true)
      → held M R (push M R r b tx).1 ≡ held M R b
  unfolding push apply_policy drop_new
  newest_drops r b tx on policy pos some_wait fits high =
      let b' = record b { total_received = add64 b.total_received 1 } in
      ground (arith, waiting_high b' pos some_wait fits high)

  newest_step :
      (r : Bool) (b : Buffer M R) (tx : ParsedTransaction)
      → b.config.enabled ≡ true
      → b.config.drop_policy ≡ newest
      → 0 < b.config.buffer_size
      → b.config.buffer_size < u64_mod
      → ((m n : ℕ) → 0 < n → n ≤ m → R.at_least (R.ratio m n) b.config.high_watermark ≡ true)
      → length (held M R b) ≤ 1
      → length (held M R (push M R r b tx).1) ≤ 1
  newest_step r b tx on policy pos small high few = elim (dec_lt 0 (length (held M R b))) [
    | yes waits ↦
        omega (arith, ap length (newest_drops r b tx on policy pos waits (omega arith) high))
    | no empty ↦
        let (appends, _, _, _) = push-Pushed M R r b tx in
        let o = (push M R r b tx).0 in
        omega (arith, ap length appends, length-append (held M R b) (added o tx), length-added o tx)
  ]

  -- Under the policy `newest` an enabled buffer never holds more than one transaction, whatever its
  -- size (for a watermark of at most 1): it drops every transaction that comes while one waits.
  pub newest-at_most_one :
      (b : Buffer M R) (txs : List (Bool × ParsedTransaction))
      → b.config.enabled ≡ true
      → b.config.drop_policy ≡ newest
      → 0 < b.config.buffer_size
      → b.config.buffer_size < u64_mod
      → ((m n : ℕ) → 0 < n → n ≤ m → R.at_least (R.ratio m n) b.config.high_watermark ≡ true)
      → length (held M R b) ≤ 1
      → length (held M R (push_all M R b txs).1) ≤ 1
  unfolding push_all
  newest-at_most_one b [] on policy pos small high few = few
  newest-at_most_one b ((r, tx) ∷ txs) on policy pos small high few =
      let (_, _, _, same) = push-Pushed M R r b tx in
      let step = newest_step r b tx on policy pos small high few in
      newest-at_most_one (push M R r b tx).1 txs (ap (λ c. c.enabled) same ∙ on)
        (ap (λ c. c.drop_policy) same ∙ policy) (omega (arith, ap (λ c. c.buffer_size) same))
        (omega (arith, ap (λ c. c.buffer_size) same))
        (λ m n p le. ap (λ c. R.at_least (R.ratio m n) c.high_watermark) same ∙ high m n p le) step
