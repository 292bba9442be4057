-- ===== src/StateManager/Pending.antt =====
-- The pool of pending transactions and the nonces seen.
use botmev.Prelude.{
  ℕ, ◌+◌, ◌≤◌, ◌<◌, ◌≡◌, refl, Bool, not, Option, none, some, [], ◌∷◌, String, arith, length,
  Bool-cases, inl, inr, ltb, if◌then◌else◌, ◌⊎◌, if-holds_by, sym,
}
use mathlib.Core.Path.{subst}
use botmev.Prelude.Int.{ℤ, pos_part, neg_part}
use botmev.Prelude.Dict.{
  Dict, str_eq_iff, lookup, insert, retain, lookup-insert, lookup-insert_self, lookup-modify,
  length-insert_new,
}
use botmev.StateManager.Defs.{
  StateManager, PendingTransactionState, as_i64, is_expired, remove_expired, seen_again,
  store_pending, cleanup_old_transactions, track_nonce, nonce_of, finish_pending, finish_stored,
  update_pending_transaction, get_current_nonce,
}

-- In a map without the key, a retained insertion is found if its value passes the test.
lookup-retain-insert {ℓ} :
    {V : Type ℓ} (p : V → Bool) (k : String) (v : V) (m : Dict V)
    → lookup k m ≡ none
    → lookup k (retain p (insert k v m)) ≡ (if p v then some v else none)
unfolding lookup retain insert
lookup-retain-insert p k v [] h = ground (arith, str_eq_iff k k)
lookup-retain-insert p k v ((j, w) ∷ m) h =
    ground (arith, str_eq_iff j k, lookup-retain-insert p k v m)

-- What `update_pending_transaction` does to an entry, by what it found under the hash.
abbrev pub stored :
    ℕ → PendingTransactionState → Option PendingTransactionState → PendingTransactionState
stored now t none = t
stored now t (some existing) = seen_again now existing

-- The cutoff cannot be computed, or lies after the transaction was first seen.
abbrev pub Outlived : Option ℤ → PendingTransactionState → Type 0
Outlived none t = Unit
Outlived (some cutoff) t = t.first_seen + neg_part cutoff < pos_part cutoff

track_nonce-le :
    (t : PendingTransactionState) (m : Dict ℕ) (a : String)
    → (nonce_of (lookup a m) ≤ nonce_of (lookup a (track_nonce t m)))
      × (t.nonce ≤ nonce_of (lookup t.sender (track_nonce t m)))
unfolding track_nonce
track_nonce-le t m a = ground (
  arith,
  str_eq_iff t.sender a,
  lookup-insert t.sender a t.nonce m,
  lookup-insert_self t.sender t.nonce m,
)

module _ (minus_seconds : ℕ → ℤ → Option ℤ) where
  -- A new entry overflows the pool and has outlived its time already.
  abbrev pub IsLost : ℕ → StateManager → String → PendingTransactionState → Type 0
  IsLost now s h t =
      (lookup h s.pending_transactions ≡ none)
      × (s.config.max_pending_transactions < length s.pending_transactions + 1)
      × Outlived (minus_seconds now (as_i64 s.config.transaction_ttl_seconds)) t

  -- What the pool has under the hash: the entry as it should be, or nothing if the entry is lost.
  abbrev Found :
      ℕ → StateManager → String → PendingTransactionState → Option PendingTransactionState → Type 0
  Found now s h t r =
      ((r ≡ some (stored now t (lookup h s.pending_transactions))) × ¬ IsLost now s h t)
      ⊎ ((r ≡ none) × IsLost now s h t)

  -- The same of a pool that may not be there after a panic.
  abbrev Stored :
      ℕ
      → StateManager
      → String
      → PendingTransactionState
      → Option (Dict PendingTransactionState)
      → Type 0
  Stored now s h t none = IsLost now s h t
  Stored now s h t (some m) = Found now s h t (lookup h m)

  remove_expired-Stored :
      (now : ℕ) (s : StateManager) (h : String) (t : PendingTransactionState) (cutoff : Option ℤ)
      → minus_seconds now (as_i64 s.config.transaction_ttl_seconds) ≡ cutoff
      → lookup h s.pending_transactions ≡ none
      → s.config.max_pending_transactions < length s.pending_transactions + 1
      → Stored now s h t (remove_expired cutoff (insert h t s.pending_transactions))
  unfolding remove_expired
  remove_expired-Stored now s h t none e new over =
      (new, over, subst (λ c. Outlived c t) (sym e) tt)
  remove_expired-Stored now s h t (some cutoff) e new over =
      let found =
        lookup-retain-insert (λ x. not (is_expired cutoff x)) h t s.pending_transactions new in
      elim (Bool-cases (is_expired cutoff t)) [
        | inl old ↦ inr (
          ground (arith, found),
          (new, over, subst (λ c. Outlived c t) (sym e) (ground (arith, old))),
        )
        | inr young ↦ inl (
          ground (arith, found, new),
          λ lost.
              let late : Outlived (some cutoff) t = subst (λ c. Outlived c t) e lost.2 in
              ground (arith, late, young),
        )
      ]

  store_pending-Stored :
      (now : ℕ) (s : StateManager) (h : String) (t : PendingTransactionState)
      (o : Option PendingTransactionState)
      → lookup h s.pending_transactions ≡ o
      → Stored now s h t (store_pending minus_seconds now s.config h t o s.pending_transactions)
  unfolding store_pending cleanup_old_transactions
  store_pending-Stored now s h t (some x) e = inl (
    ground (arith, lookup-modify h h (seen_again now) s.pending_transactions, str_eq_iff h h),
    λ lost. cc (e, lost.0),
  )
  store_pending-Stored now s h t none e =
      let size = length-insert_new h t s.pending_transactions e in
      let m = insert h t s.pending_transactions in
      if-holds_by (Stored now s h t) (ltb s.config.max_pending_transactions (length m))
        (λ over. remove_expired-Stored now s h t _ refl e (ground arith))
        (λ fits. inl (rw e (lookup-insert_self h t s.pending_transactions), λ lost. ground arith))

  -- The outcome of `update_pending_transaction`, and the nonce of an address `a` over it.
  abbrev pub Updated :
      ℕ → StateManager → String → PendingTransactionState → String → Option StateManager → Type 0
  Updated now s h t a none = IsLost now s h t
  Updated now s h t a (some s') =
      let kept = stored now t (lookup h s.pending_transactions) in
      (¬ IsLost now s h t)
      × (lookup h s'.pending_transactions ≡ some kept)
      × (get_current_nonce s a ≤ get_current_nonce s' a)
      × (kept.nonce ≤ get_current_nonce s' kept.sender)

  finish_pending-Updated :
      (now : ℕ) (s : StateManager) (h : String) (t : PendingTransactionState) (a : String)
      (m : Dict PendingTransactionState) (r : Option PendingTransactionState)
      → lookup h m ≡ r
      → Found now s h t r
      → Updated now s h t a (finish_pending s m r)
  unfolding finish_pending get_current_nonce
  finish_pending-Updated now s h t a m none e (inl kept) = cc (kept.0)
  finish_pending-Updated now s h t a m none e (inr lost) = lost.1
  finish_pending-Updated now s h t a m (some x) e (inr lost) = cc (lost.0)
  finish_pending-Updated now s h t a m (some x) e (inl kept) =
      ground (arith, track_nonce-le x s.nonce_tracker a)

  finish_stored-Updated :
      (now : ℕ) (s : StateManager) (h : String) (t : PendingTransactionState) (a : String)
      (r : Option (Dict PendingTransactionState))
      → Stored now s h t r
      → Updated now s h t a (finish_stored s h r)
  unfolding finish_stored
  finish_stored-Updated now s h t a none lost = lost
  finish_stored-Updated now s h t a (some m) found =
      finish_pending-Updated now s h t a m (lookup h m) refl found

  -- The call panics exactly when the hash is new, the pool would go over its limit, and either the
  -- cutoff (the time less the time-to-live, which is read as a signed 64-bit number) is out of
  -- chrono's range or the transaction was first seen before it. Otherwise the entry under the hash is
  -- the new transaction, or the old one seen once more; no address's nonce falls, and that of the
  -- entry's sender is at least the entry's.
  pub update_pending_transaction-Updated :
      (now : ℕ) (s : StateManager) (h : String) (t : PendingTransactionState) (a : String)
      → Updated now s h t a (update_pending_transaction minus_seconds now s h t)
  unfolding update_pending_transaction
  update_pending_transaction-Updated now s h t a =
      finish_stored-Updated now s h t a _
        (store_pending-Stored now s h t (lookup h s.pending_transactions) refl)
