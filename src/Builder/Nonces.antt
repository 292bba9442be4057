-- ===== src/Builder/Nonces.antt =====
-- The nonces of the transactions that are signed, one by one and in a bundle.
use botmev.Prelude.{
  ℕ, zero, suc, ◌+◌, ◌^◌, ◌≡◌, refl, ap, ◌∙◌, Option, none, some, List, [], ◌∷◌, map, String,
  length, arith, ltb, if-cases, All,
}
use mathlib.Core.Path.{subst}
use botmev.Prelude.Dict.{Dict, insert, insert-insert}
use botmev.Prelude.Floats.{F64}
use botmev.Prelude.Results.{Result, ok, err, ok_or}
use botmev.Builder.Keys.{Wallets, get_default_wallet}
use botmev.Builder.Types.{SignedTransaction, TransactionTemplate, fixed, fits_u256}
use botmev.Builder.Keys.{no_default_wallet}
use botmev.Builder.Signer.{
  and_then_with, wallet, TransactionSigner, Eip1559TransactionRequest, SignError, sign_transaction,
  sign_transaction_with_wallet, get_nonce, update_nonce, finish_signing, tracked_as, request_of,
}
use botmev.Builder.Target.{Texts, BuildError}
use botmev.Builder.Defs.{Build, then_with, sign_one, sign_all, as_built}

fits_u256-some : (n m : ℕ) → fits_u256 n ≡ some m → m ≡ n
fits_u256-some n m h = if-cases (ltb n (2 ^ 256)) (λ _ e. cc) (λ _ e. cc) h

abbrev pub count_from : ℕ → ℕ → List ℕ
count_from n zero = []
count_from n (suc m) = n ∷ count_from (suc n) m

-- What a sequence of signatures from the nonce `n` leaves in the tracker.
abbrev pub tracked_after : String → ℕ → ℕ → Dict ℕ → Dict ℕ
tracked_after address n zero d = d
tracked_after address n (suc m) d = insert address (n + suc m) d

tracked_after-next :
    (address : String) (n m : ℕ) (d : Dict ℕ)
    → tracked_after address (suc n) m (insert address (n + 1) d) ≡ tracked_after address n (suc m) d
tracked_after-next address n zero d = refl
tracked_after-next address n (suc m) d =
    let same : suc n + suc m ≡ n + suc (suc m) = omega arith in
    rw same (insert-insert address (n + 1) (n + suc (suc m)) d)

-- What a step that ends well has done before its continuation.
pub then_with-ok :
    {W A B : Type 0} (r : Result BuildError A × TransactionSigner W) (f : A → Build W B) {b : B}
    {s' : TransactionSigner W}
    → then_with r f ≡ (ok b, s')
    → (a : A) × (s : TransactionSigner W) × (r ≡ (ok a, s)) × (f a s ≡ (ok b, s'))
then_with-ok (err e, s) f h = cc
then_with-ok (ok a, s) f h = (a, s, refl, h)

module _ {W : Type 0} (k : Wallets W)
    (sign : W → Eip1559TransactionRequest → Option (String × List ℕ)) where
  -- What must have been signed for a transaction to be what it says it is.
  abbrev pub request_for : SignedTransaction → Eip1559TransactionRequest
  request_for tx = record {
    to = elim tx.to [ none ↦ "0x0000000000000000000000000000000000000000" | some a ↦ a ];
    value = tx.value;
    gas = tx.gas_limit;
    max_fee_per_gas = tx.max_fee_per_gas;
    max_priority_fee_per_gas = tx.max_priority_fee_per_gas;
    nonce = tx.nonce;
    calldata = tx.calldata;
    chain_id = tx.chain_id;
  }

  -- A transaction that the wallet has signed, as it stands, for this chain.
  pub record Ours (w : W) (chain_id : ℕ) (tx : SignedTransaction) : Type 0 where
    pub sender : tx.sender ≡ k.address w
    pub chain : tx.chain_id ≡ chain_id
    pub signed : sign w (request_for tx) ≡ some (tx.hash, tx.raw_transaction)

  -- It does what the template says.
  pub record Follows (t : TransactionTemplate) (tx : SignedTransaction) : Type 0 where
    pub to : tx.to ≡ t.to
    pub value : tx.value ≡ t.value
    pub gas_limit : tx.gas_limit ≡ t.gas_limit
    pub calldata : tx.calldata ≡ t.calldata

  -- A signed transaction with its nonce, and what the signer then is.
  pub record Signed (w : W) (t : TransactionTemplate) (n : ℕ) (s : TransactionSigner W)
      (tx : SignedTransaction) (s' : TransactionSigner W) : Type 0 where
    pub nonce : tx.nonce ≡ n
    pub ours : Ours w s.chain_id tx
    pub follows : Follows t tx
    pub after : s' ≡ update_nonce (k.address w) (n + 1) s

  tracked_as-Signed :
      (w : W) (t : TransactionTemplate) (n : ℕ) (o : Option ℕ) (tx : SignedTransaction)
      (s : TransactionSigner W) {tx' : SignedTransaction} {s' : TransactionSigner W}
      → fits_u256 (n + 1) ≡ o
      → tx.nonce ≡ n
      → Ours w s.chain_id tx
      → Follows t tx
      → tracked_as k sign w o tx s ≡ (ok tx', s')
      → Signed w t n s tx' s'
  tracked_as-Signed w t n none tx s f same ours follows h = cc
  tracked_as-Signed w t n (some m) tx s {tx'} {s'} f same ours follows h =
      let next : m ≡ n + 1 = fits_u256-some (n + 1) m f in
      let eq : tx ≡ tx' = cc in
      record {
        nonce = cc;
        ours = subst (Ours w s.chain_id) eq ours;
        follows = subst (Follows t) eq follows;
        after = cc;
      }

  finish_signing-Signed :
      (w : W) (t : TransactionTemplate) (fee priority_fee n : ℕ)
      (signature : Option (String × List ℕ)) (s : TransactionSigner W) {tx : SignedTransaction}
      {s' : TransactionSigner W}
      → sign w (request_of k sign s t n fee priority_fee) ≡ signature
      → finish_signing k sign w t fee priority_fee n signature s ≡ (ok tx, s')
      → Signed w t n s tx s'
  finish_signing-Signed w t fee priority_fee n none s by h = cc
  finish_signing-Signed w t fee priority_fee n (some (hash, raw)) s {tx} {s'} by h =
      tracked_as-Signed w t n (fits_u256 (n + 1)) _ s {tx' = tx} {s' = s'} refl refl
        (record { sender = refl; chain = refl; signed = by })
        (record { to = refl; value = refl; gas_limit = refl; calldata = refl }) h

  sign_by-Signed :
      (w : W) (o : Option W) (t : TransactionTemplate) (n fee priority_fee : ℕ)
      (s : TransactionSigner W) {tx : SignedTransaction} {s' : TransactionSigner W}
      → o ≡ some w
      → and_then_with
          (wallet k sign (ok_or no_default_wallet o) s)
          (λ v. sign_transaction_with_wallet k sign v t (fixed n) fee priority_fee)
        ≡ (ok tx, s')
      → Signed w t n s tx s'
  unfolding sign_transaction_with_wallet get_nonce
  sign_by-Signed w none t n fee priority_fee s d h = cc
  sign_by-Signed w (some v) t n fee priority_fee s {tx} {s'} d h =
      let same : v ≡ w = cc in
      subst (λ u. Signed u t n s tx s') same
        (finish_signing-Signed v t fee priority_fee n _ s {tx = tx} {s' = s'} refl h)

  -- Signing with a fixed nonce and the default wallet.
  sign_fixed-Signed :
      (w : W) (t : TransactionTemplate) (n fee priority_fee : ℕ) (s : TransactionSigner W)
      {tx : SignedTransaction} {s' : TransactionSigner W}
      → s.key_manager.default_wallet ≡ some w
      → sign_transaction k sign t (fixed n) fee priority_fee s ≡ (ok tx, s')
      → Signed w t n s tx s'
  unfolding sign_transaction get_default_wallet
  sign_fixed-Signed w t n fee priority_fee s d h =
      sign_by-Signed w s.key_manager.default_wallet t n fee priority_fee s d h

  module _ {F : Type 0} (f : F64 F) (t : Texts F) where
    as_built-ok :
        {A : Type 0} (r : Result SignError A × TransactionSigner W) {a : A}
        {s' : TransactionSigner W}
        → as_built k sign f t r ≡ (ok a, s')
        → r ≡ (ok a, s')
    as_built-ok (err e, s) h = cc
    as_built-ok (ok a, s) h = cc

    sign_one-Signed :
        (w : W) (template : TransactionTemplate) (n fee priority_fee : ℕ) (s : TransactionSigner W)
        {tx : SignedTransaction} {s' : TransactionSigner W}
        → s.key_manager.default_wallet ≡ some w
        → sign_one k sign f t template n fee priority_fee s ≡ (ok tx, s')
        → Signed w template n s tx s'
    sign_one-Signed w template n fee priority_fee s {tx} {s'} d h =
        if-cases (ltb n (2 ^ 64))
          (λ _ e.
            sign_fixed-Signed w template n fee priority_fee s {tx = tx} {s' = s'} d
              (as_built-ok _ {a = tx} {s' = s'} e))
          (λ _ e. cc) h

  -- One transaction for each template, in their order.
  abbrev pub AllFollow : List TransactionTemplate → List SignedTransaction → Type 0
  AllFollow [] [] = Unit
  AllFollow (t ∷ ts) (tx ∷ txs) = Follows t tx × AllFollow ts txs
  AllFollow _ _ = ⊥

  pub record Sequenced (w : W) (templates : List TransactionTemplate) (n : ℕ)
      (s : TransactionSigner W) (txs : List SignedTransaction) (s' : TransactionSigner W)
      : Type 0 where
    pub nonces : map (λ tx. tx.nonce) txs ≡ count_from n (length txs)
    pub ours : All (Ours w s.chain_id) txs
    pub follow : AllFollow templates txs
    pub same_keys : s'.key_manager ≡ s.key_manager
    pub same_chain : s'.chain_id ≡ s.chain_id
    pub tracker : s'.nonce_tracker ≡ tracked_after (k.address w) n (length txs) s.nonce_tracker

  Sequenced-cons :
      (w : W) (t : TransactionTemplate) (ts : List TransactionTemplate) (n : ℕ)
      (s s1 : TransactionSigner W) (tx : SignedTransaction) (txs : List SignedTransaction)
      (s' : TransactionSigner W)
      → Signed w t n s tx s1
      → Sequenced w ts (suc n) s1 txs s'
      → Sequenced w (t ∷ ts) n s (tx ∷ txs) s'
  unfolding update_nonce
  Sequenced-cons w t ts n s s1 tx txs s' h q =
      let chain : s1.chain_id ≡ s.chain_id = ap (λ x. x.chain_id) h.after in
      let moved = ap (λ (x : TransactionSigner W). x.nonce_tracker) h.after in
      record {
        nonces = cc (h.nonce, q.nonces);
        follow = (h.follows, q.follow);
        ours = (h.ours, subst (λ c. All (Ours w c) txs) chain q.ours);
        same_keys = q.same_keys ∙ ap (λ x. x.key_manager) h.after;
        same_chain = q.same_chain ∙ chain;
        tracker =
            q.tracker
            ∙ ap (tracked_after (k.address w) (suc n) (length txs)) moved
            ∙ tracked_after-next (k.address w) n (length txs) s.nonce_tracker;
      }

  module _ {F : Type 0} (f : F64 F) (t : Texts F) where
    pub sign_all-Sequenced :
        (w : W) (templates : List TransactionTemplate) (n fee priority_fee : ℕ)
        (s : TransactionSigner W) {txs : List SignedTransaction} {s' : TransactionSigner W}
        → s.key_manager.default_wallet ≡ some w
        → sign_all k sign f t templates n fee priority_fee s ≡ (ok txs, s')
        → Sequenced w templates n s txs s' × (length txs ≡ length templates)
    unfolding sign_all update_nonce
    sign_all-Sequenced w [] n fee priority_fee s {txs} {s'} d h =
        subst
          (λ (p : List SignedTransaction × TransactionSigner W).
            Sequenced w [] n s p.0 p.1 × (length p.0 ≡ 0))
          {x = ([], s)} {y = (txs, s')} (cc)
          (
            record {
              nonces = refl;
              ours = tt;
              follow = tt;
              same_keys = refl;
              same_chain = refl;
              tracker = refl;
            },
            refl,
          )
    sign_all-Sequenced w (x ∷ xs) n fee priority_fee s {txs} {s'} d h =
        let (tx, s1, one, rest) =
          then_with-ok (sign_one k sign f t x n fee priority_fee s) _ {b = txs} {s' = s'} h in
        let (more, s2, later, final) =
          then_with-ok (sign_all k sign f t xs (suc n) fee priority_fee s1) _ {b = txs} {s' = s'}
            rest in
        let first = sign_one-Signed f t w x n fee priority_fee s {tx = tx} {s' = s1} d one in
        let d1 = ap (λ (m : TransactionSigner W). m.key_manager.default_wallet) first.after ∙ d in
        let (q, len) =
          sign_all-Sequenced w xs (suc n) fee priority_fee s1 {txs = more} {s' = s2} d1 later in
        subst
          (λ (p : List SignedTransaction × TransactionSigner W).
            Sequenced w (x ∷ xs) n s p.0 p.1 × (length p.0 ≡ length (x ∷ xs)))
          {x = (tx ∷ more, s2)} {y = (txs, s')} (cc)
          (Sequenced-cons w x xs n s s1 tx more s2 first q, omega (arith, len))
