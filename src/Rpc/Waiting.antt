-- ===== src/Rpc/Waiting.antt =====
-- `wait_for_confirmation` ends, and what it ends with.
use botmev.Prelude.{
  ℕ, zero, suc, ◌+◌, ◌≤◌, ◌<◌, ◌≡◌, ◌⊎◌, inl, inr, refl, ap, ◌∙◌, true, false, Option, some, List,
  [], ◌∷◌, arith, tests, leb, Bool-cases,
}
use mathlib.Core.Path.{subst}
use botmev.Rpc.Confirm.{
  Receipt, ReceiptReply, mined, not_mined, query_failed, never_returns, hangs, ConfirmationEvent,
  failed_by_timeout, Confirmation, timed_out, settle, nanos, wait_rounds, wait_for_confirmation,
  timeout_or_default,
}

-- A round that goes on to the next: the time is not up, and there is no receipt.
abbrev GoesOn : (ℕ → ℕ) → (ℕ → ReceiptReply) → ℕ → ℕ → Type 0
GoesOn elapsed reply timeout_secs i =
    (elapsed i < nanos timeout_secs) × ((reply i ≡ not_mined) ⊎ (reply i ≡ query_failed))

-- All rounds from `i` on before round `i + n` go on.
abbrev pub AllGoOn : (ℕ → ℕ) → (ℕ → ReceiptReply) → ℕ → ℕ → ℕ → Type 0
AllGoOn elapsed reply timeout_secs i zero = Unit
AllGoOn elapsed reply timeout_secs i (suc n) =
    GoesOn elapsed reply timeout_secs i × AllGoOn elapsed reply timeout_secs (suc i) n

-- A round that ends the loop with `o`, or in which it waits for ever.
abbrev pub Ends :
    (ℕ → ℕ) → (ℕ → ReceiptReply) → ℕ → ℕ → Confirmation × List ConfirmationEvent → Type 0
Ends elapsed reply timeout_secs i o =
    ((nanos timeout_secs ≤ elapsed i) × (o ≡ (timed_out, failed_by_timeout ∷ [])))
    ⊎ ((elapsed i < nanos timeout_secs)
        × (((r : Receipt) × (reply i ≡ mined r) × (o ≡ settle r r.block_number r.gas_used))
            ⊎ ((reply i ≡ never_returns) × (o ≡ (hangs, [])))))

reply-cases :
    (a : ReceiptReply)
    → (((r : Receipt) × (a ≡ mined r)) ⊎ (a ≡ never_returns))
      ⊎ ((a ≡ not_mined) ⊎ (a ≡ query_failed))
reply-cases (mined r) = inl (inl (r, refl))
reply-cases never_returns = inl (inr refl)
reply-cases not_mined = inr (inl refl)
reply-cases query_failed = inr (inr refl)

module _ (elapsed : ℕ → ℕ) (reply : ℕ → ReceiptReply) (timeout_secs : ℕ) where
  up_round :
      (n i : ℕ)
      → leb (nanos timeout_secs) (elapsed i) ≡ true
      → wait_rounds elapsed reply timeout_secs (suc n) i ≡ some (timed_out, failed_by_timeout ∷ [])
  unfolding wait_rounds
  up_round n i h = rw h refl

  mined_round :
      (n i : ℕ) (r : Receipt)
      → leb (nanos timeout_secs) (elapsed i) ≡ false
      → reply i ≡ mined r
      → wait_rounds elapsed reply timeout_secs (suc n) i ≡ some (settle r r.block_number r.gas_used)
  unfolding wait_rounds
  mined_round n i r h e = rw (h, e) refl

  silent_round :
      (n i : ℕ)
      → leb (nanos timeout_secs) (elapsed i) ≡ false
      → reply i ≡ never_returns
      → wait_rounds elapsed reply timeout_secs (suc n) i ≡ some (hangs, [])
  unfolding wait_rounds
  silent_round n i h e = rw (h, e) refl

  pending_round :
      (n i : ℕ)
      → leb (nanos timeout_secs) (elapsed i) ≡ false
      → (reply i ≡ not_mined) ⊎ (reply i ≡ query_failed)
      → wait_rounds elapsed reply timeout_secs (suc n) i
        ≡ wait_rounds elapsed reply timeout_secs n (suc i)
  unfolding wait_rounds
  pending_round n i h (inl e) = rw (h, e) refl
  pending_round n i h (inr e) = rw (h, e) refl

  -- The loop from round `i` on ends at round `j`, with `o`.
  abbrev pub EndsAt : ℕ → ℕ → Type 0
  EndsAt m i =
      (k : ℕ) × (k < m)
      × (j : ℕ) × (j ≡ i + k)
      × (o : Confirmation × List ConfirmationEvent) × (wait_rounds elapsed reply timeout_secs m i
          ≡ some o)
      × AllGoOn elapsed reply timeout_secs i k
      × Ends elapsed reply timeout_secs j o

  -- A round ends the loop, or it goes on.
  round-cases :
      (n i : ℕ)
      → EndsAt (suc n) i
        ⊎ ((leb (nanos timeout_secs) (elapsed i) ≡ false)
            × ((reply i ≡ not_mined) ⊎ (reply i ≡ query_failed)))
  round-cases n i = elim (Bool-cases (leb (nanos timeout_secs) (elapsed i))) [
    | inl late ↦
        let up : nanos timeout_secs ≤ elapsed i = omega tests in
        let ends : Ends elapsed reply timeout_secs i (timed_out, failed_by_timeout ∷ []) =
          inl (up, refl) in
        inl (0, omega arith, i, omega arith, _, up_round n i late, tt, ends)
    | inr early ↦ elim (reply-cases (reply i)) [
      | inl (inl (r, e)) ↦
          let time : elapsed i < nanos timeout_secs = omega tests in
          let ends : Ends elapsed reply timeout_secs i (settle r r.block_number r.gas_used) =
            inr (time, inl (r, e, refl)) in
          inl (0, omega arith, i, omega arith, _, mined_round n i r early e, tt, ends)
      | inl (inr e) ↦
          let time : elapsed i < nanos timeout_secs = omega tests in
          let ends : Ends elapsed reply timeout_secs i (hangs, []) = inr (time, inr (e, refl)) in
          inl (0, omega arith, i, omega arith, _, silent_round n i early e, tt, ends)
      | inr pending ↦ inr (early, pending)
    ]
  ]

  later-EndsAt :
      (n i : ℕ)
      → leb (nanos timeout_secs) (elapsed i) ≡ false
      → (reply i ≡ not_mined) ⊎ (reply i ≡ query_failed)
      → EndsAt n (suc i)
      → EndsAt (suc n) i
  later-EndsAt n i early pending (k, few, j, at, o, e, before, end) = (
    suc k,
    omega arith,
    j,
    omega arith,
    o,
    pending_round n i early pending ∙ e,
    ((omega tests, pending), before),
    end,
  )

  -- Enough rounds: `n + 1` from round `i`, if the time is up at round `i + n` at the latest.
  wait_rounds-EndsAt : (n i j : ℕ) → j ≡ i + n → nanos timeout_secs ≤ elapsed j → EndsAt (suc n) i
  wait_rounds-EndsAt zero i j at up = elim (round-cases 0 i) [
    | inl ends ↦ ends
    | inr (early, pending) ↦
        let here : j ≡ i = omega arith in absurd (omega (tests, ap elapsed here))
  ]
  wait_rounds-EndsAt (suc n) i j at up = elim (round-cases (suc n) i) [
    | inl ends ↦ ends
    | inr (early, pending) ↦
        later-EndsAt (suc n) i early pending (wait_rounds-EndsAt n (suc i) j (omega arith) up)
  ]

-- Where round `i + 1` begins `i` seconds after the start at the earliest, as tokio's `interval`
-- documents, one of the first `timeout + 2` rounds decides: the first that finds the time up, a receipt
-- or a query that never returns. The wait ends there with the time-out or with what the receipt says;
-- but for a query that never returns it goes on for ever, since no time-out bounds the query. In all
-- rounds before there was time, and the query returned without a receipt.
pub wait_for_confirmation-Ends :
    (elapsed : ℕ → ℕ) (reply : ℕ → ReceiptReply) (timeout : Option ℕ)
    → ((i : ℕ) → nanos i ≤ elapsed (suc i))
    → let secs = timeout_or_default timeout in
      (k : ℕ) × (k < secs + 2)
      × (o : Confirmation × List ConfirmationEvent) × (wait_for_confirmation elapsed reply timeout
            (secs + 2)
          ≡ some o)
      × AllGoOn elapsed reply secs 0 k
      × Ends elapsed reply secs k o
unfolding wait_for_confirmation
wait_for_confirmation-Ends elapsed reply timeout ticks =
    let secs = timeout_or_default timeout in
    let two : secs + 2 ≡ suc (suc secs) = omega arith in
    let (k, few, j, at, o, e, before, end) =
      wait_rounds-EndsAt elapsed reply secs (suc secs) 0 (suc secs) (omega arith) (ticks secs) in
    let same : j ≡ k = omega arith in
    (
      k,
      omega arith,
      o,
      ap (λ m. wait_rounds elapsed reply secs m 0) two ∙ e,
      before,
      subst (λ i. Ends elapsed reply secs i o) same end,
    )
