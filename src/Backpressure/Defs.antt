-- ===== src/Backpressure/Defs.antt =====
-- `BackpressureBuffer`, method by method. Counters are `AtomicU64` and `usize` has 64 bits; both
-- wrap round.
use botmev.Prelude.{
  ℕ, zero, suc, List, [], ◌∷◌, Bool, true, false, not, ◌&&◌, none, some, String, add64, sub64,
  if◌then◌else◌,
}
use botmev.Prelude.Text.{codes, to_lowercase, codes_eq}
use botmev.Types.{ParsedTransaction}
use botmev.Backpressure.Interface.{Channel, Floats, SendResult, sent, full, closed}

pub data DropPolicy : Type 0 where
  oldest newest random : DropPolicy

-- `From<&str>`.
unfoldable pub policy_from : String → DropPolicy
policy_from s =
    let l = to_lowercase s in
    if codes_eq l (codes "oldest")
    then oldest
    else if codes_eq l (codes "newest")
    then newest
    else if codes_eq l (codes "random")
    then random
    else oldest

pub record BackpressureConfig (F : Type 0) : Type 0 where
  pub enabled : Bool
  pub drop_policy : DropPolicy
  pub high_watermark : F
  pub low_watermark : F
  pub buffer_size : ℕ

-- What `push` returns: `Ok(true)`, `Ok(false)`, or `Err` when the channel is closed.
pub data Outcome : Type 0 where
  accepted dropped failed : Outcome

pub record BackpressureBuffer (C F : Type 0) : Type 0 where
  pub channel : C
  pub config : BackpressureConfig F
  pub total_received : ℕ
  pub total_dropped : ℕ
  pub total_processed : ℕ
  pub backpressure_active : Bool

module _ (M : Channel ParsedTransaction) (R : Floats) where
  open M use {Chan}
  open R use {F64}

  abbrev pub Buffer : Type 0
  Buffer = BackpressureBuffer Chan F64

  unfoldable pub new : BackpressureConfig F64 → Chan → Buffer
  new config channel = record {
    channel = channel;
    config = config;
    total_received = 0;
    total_dropped = 0;
    total_processed = 0;
    backpressure_active = false;
  }

  count_sent : Buffer → SendResult × Chan → Outcome × Buffer
  count_sent b (sent, c) =
      (accepted, record b { channel = c; total_processed = add64 b.total_processed 1 })
  count_sent b (full, c) =
      (dropped, record b { channel = c; total_dropped = add64 b.total_dropped 1 })
  count_sent b (closed, c) = (failed, record b { channel = c })

  -- The `match` on `try_send`, which every branch of `push` has.
  unfoldable pub send_counted : Buffer → ParsedTransaction → Outcome × Buffer
  unfolding count_sent
  send_counted b tx = count_sent b (M.try_send b.channel tx)

  unfoldable pub drop_new : Buffer → Outcome × Buffer
  drop_new b = (dropped, record b { total_dropped = add64 b.total_dropped 1 })

  -- `less_half` is `rand::random::<f64>() < 0.5`.
  unfoldable pub apply_policy : DropPolicy → Bool → Buffer → ParsedTransaction → Outcome × Buffer
  apply_policy oldest less_half b tx = send_counted b tx
  apply_policy newest less_half b tx = drop_new b
  apply_policy random less_half b tx = if less_half then drop_new b else send_counted b tx

  -- `capacity() - max_capacity()`, the other way round than it should be.
  unfoldable pub current_size : Buffer → ℕ
  current_size b = sub64 (M.capacity b.channel) (M.max_capacity b.channel)

  unfoldable pub utilization : Buffer → F64
  utilization b = R.ratio (current_size b) b.config.buffer_size

  unfoldable pub push : Bool → Buffer → ParsedTransaction → Outcome × Buffer
  push less_half b tx =
      let counted = record b { total_received = add64 b.total_received 1 } in
      let u = utilization counted in
      if not b.config.enabled
      then send_counted counted tx
      else if R.at_least u b.config.high_watermark
      then apply_policy b.config.drop_policy less_half
          (record counted { backpressure_active = true }) tx
      else send_counted
          (record counted {
            backpressure_active =
                if b.backpressure_active && R.at_least b.config.low_watermark u
                then false
                else b.backpressure_active;
          })
          tx

  unfoldable pub receive_batch : Chan → ℕ → List ParsedTransaction × Chan
  receive_batch c zero = ([], c)
  receive_batch c (suc n) =
      let (r, c') = M.try_recv c in
      elim r [ none ↦ ([], c') | some tx ↦ let (txs, c'') = receive_batch c' n in (tx ∷ txs, c'') ]
