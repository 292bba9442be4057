-- ===== src/Backpressure/Tests.antt =====
-- A list as the channel, quotients as pairs, runs on them, and the theorems at concrete inputs.
use botmev.Prelude.{
  ℕ, ◌+◌, ◌-◌, ◌*◌, ◌%◌, ◌≤◌, ◌<◌, ◌≡◌, refl, true, Bool, List, [], ◌∷◌, ◌++◌, Option, none, some,
  arith, length, length-append, u64_mod, leb,
}
use native.Mathlib.Decide.{dec_lt}
use botmev.Prelude.Text.{codes_eq, to_lowercase}
use botmev.Types.{ParsedTransaction, unknown}
use botmev.Backpressure.Interface.{Channel, Floats, SendResult, sent, full, Sends, Receives}
use botmev.Backpressure.Defs.{
  DropPolicy, newest, oldest, random, BackpressureConfig, BackpressureBuffer, Outcome, accepted,
  dropped, Buffer, push, policy_from,
}
use botmev.Backpressure.Defs
use botmev.Backpressure.Accounting.{
  Pushed, push-Pushed, push_all, push_all_lem, held, counted, accepted_of, failures_of,
}
use botmev.Backpressure.Watermark.{newest-at_most_one}

-- A channel with a million places that is never closed.
abbrev places : ℕ
places = 1_000_000

abbrev Bounded : Type 0 → Type 0
Bounded A = (xs : List A) × (length xs ≤ places)

module _ {A : Type 0} where
  place : (c : Bounded A) → A → Dec (length c.0 < places) → SendResult × Bounded A
  place (xs, h) a (yes room) = (sent, (xs ++ a ∷ [], omega (arith, length-append xs (a ∷ []))))
  place (xs, h) a (no _) = (full, (xs, h))

  list_send : Bounded A → A → SendResult × Bounded A
  list_send c a = place c a (dec_lt (length c.0) places)

  list_recv : Bounded A → Option A × Bounded A
  list_recv ([], h) = (none, ([], h))
  list_recv (x ∷ xs, h) = (some x, (xs, omega arith))

  place-Sends :
      (c : Bounded A) (a : A) (d : Dec (length c.0 < places))
      → Sends (place c a d).0 c.0 a (place c a d).1.0
  unfolding place
  place-Sends (xs, h) a (yes room) = refl
  place-Sends (xs, h) a (no _) = refl

  list-Receives : (c : Bounded A) → Receives (list_recv c).0 c.0 (list_recv c).1.0
  unfolding list_recv
  list-Receives ([], h) = (refl, refl)
  list-Receives (x ∷ xs, h) = refl

list_channel : Channel ParsedTransaction
unfolding list_send
list_channel = record {
  Chan = Bounded ParsedTransaction;
  try_send = list_send;
  try_recv = list_recv;
  capacity = λ c. places - length c.0;
  max_capacity = λ c. places;
  contents = λ c. c.0;
  sends = λ c a. place-Sends c a (dec_lt (length c.0) places);
  receives = list-Receives;
  room = λ c. omega (arith, c.1);
  max_small = λ c. omega arith;
}

-- Exact quotients, compared crosswise.
abbrev quotients : Floats
quotients = record {
  F64 = ℕ × ℕ;
  ratio = λ a b. (a, b);
  at_least = λ x y. leb (y.0 * x.1) (x.0 * y.1);
}

-- A transaction, told from others by its nonce.
abbrev sample : ℕ → ParsedTransaction
sample n = record {
  transaction = record {
    hash = "0x123";
    sender = "0x456";
    to = none;
    value = "1000";
    gas_price = "20000000000";
    gas_limit = "21000";
    nonce = n;
    input = "0x";
    timestamp = 0;
  };
  decoded_input = none;
  target_type = unknown;
  processing_time_ms = 5;
}

empty_fits : 0 ≤ places
empty_fits = omega arith

-- The default configuration, with the policy `newest`.
abbrev config : BackpressureConfig (ℕ × ℕ)
config = record {
  enabled = true;
  drop_policy = newest;
  high_watermark = (8, 10);
  low_watermark = (6, 10);
  buffer_size = 10_000;
}

abbrev buffer : Buffer list_channel quotients
unfolding list_channel
buffer = Defs.new list_channel quotients config ([], empty_fits)

abbrev pushes : List (Bool × ParsedTransaction)
pushes = (true, sample 1) ∷ (true, sample 2) ∷ []

abbrev one_waits : Buffer list_channel quotients
one_waits = (push list_channel quotients true buffer (sample 1)).1

-- The second of two transactions is dropped by a buffer for 10000.
second_dropped : (push list_channel quotients true one_waits (sample 2)).0 ≡ dropped
unfolding push list_channel list_send place list_recv Defs.new dec_lt Defs.utilization
    Defs.current_size Defs.send_counted Defs.apply_policy Defs.drop_new
second_dropped = refl

policy_names : policy_from "Newest" ≡ newest
unfolding policy_from codes_eq to_lowercase
policy_names = refl

at_least_full : (m n : ℕ) → 0 < n → n ≤ m → quotients.at_least (quotients.ratio m n) (8, 10) ≡ true
at_least_full m n pos h = ground arith

push-Pushed_example :
    Pushed list_channel quotients buffer
      (sample 1)
      (push list_channel quotients true buffer (sample 1))
push-Pushed_example = push-Pushed list_channel quotients true buffer (sample 1)

push_all_lem_example :
    let (os, b') = push_all list_channel quotients buffer pushes in
    (held list_channel quotients b'
      ≡ held list_channel quotients buffer ++ accepted_of list_channel quotients os)
    × ((counted list_channel quotients b' + failures_of list_channel quotients os) % u64_mod
        ≡ (counted list_channel quotients buffer + 2) % u64_mod)
    × (b'.total_received % u64_mod ≡ (buffer.total_received + 2) % u64_mod)
push_all_lem_example = push_all_lem list_channel quotients buffer pushes

newest-at_most_one_example :
    length (held list_channel quotients (push_all list_channel quotients buffer pushes).1) ≤ 1
unfolding list_channel Defs.new
newest-at_most_one_example =
    newest-at_most_one list_channel quotients buffer pushes refl refl (omega arith) (omega arith)
      at_least_full (omega arith)
