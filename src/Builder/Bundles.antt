-- ===== src/Builder/Bundles.antt =====
-- What a bundle consists of that has been built.
use botmev.Prelude.{
  ℕ, zero, suc, ◌+◌, ◌≡◌, refl, sym, ap, ◌∙◌, Option, none, some, List, ◌∷◌, ◌++◌, map, String,
  length, arith, All, All-append, length-append, if-cases,
}
use mathlib.Core.Path.{subst}
use mathlib.Core.List.{map-append}
use botmev.Prelude.Dict.{Dict, lookup, insert-insert}
use botmev.Prelude.Floats.{F64}
use botmev.Prelude.Results.{ok_or-ok, Result, ok, err, unwrap_or, ok_or}
use botmev.Opportunities.{Opportunity}
use botmev.Builder.Keys.{Wallets, no_default_wallet, get_default_wallet}
use botmev.Builder.Types.{
  SignedTransaction, TransactionTemplate, BundleParams, Bundle, BundleValidation,
}
use botmev.Builder.Signer.{TransactionSigner, Eip1559TransactionRequest, get_tracked_nonce}
use botmev.Builder.Target.{
  Texts, BuildError, StrategyBundleBuilder, build_bundle_transactions,
  create_target_signed_transaction, create_target_template, calculate_gas_prices, validate_bundle,
  panic, invalid_opportunity,
}
use botmev.Builder.Defs.{
  BundleBuilder, Build, then_with, lift, sign_all, sign_bundle, build_from,
  build_bundle_with_params, build_by, validated, put_signer, get_starting_nonce, nonce_from,
  bundle_of,
}
use botmev.Builder.Readable.{IsTarget, create_target_signed_transaction-IsTarget}
use botmev.Builder.Nonces.{
  count_from, tracked_after, then_with-ok, Sequenced, AllFollow, Ours, sign_all-Sequenced,
}

count_from-append : (n m p : ℕ) → count_from n m ++ count_from (n + m) p ≡ count_from n (m + p)
count_from-append n zero p =
    let right : n + 0 ≡ n = omega arith in let left : 0 + p ≡ p = omega arith in rw (right, left)
count_from-append n (suc m) p =
    let start : n + suc m ≡ suc n + m = omega arith in
    let both : suc m + p ≡ suc (m + p) = omega arith in
    rw (start, both) (ap (◌∷◌ n) (count_from-append (suc n) m p))

tracked_after-append :
    (a : String) (n m p : ℕ) (d : Dict ℕ)
    → tracked_after a (n + m) p (tracked_after a n m d) ≡ tracked_after a n (m + p) d
tracked_after-append a n zero p d =
    let right : n + 0 ≡ n = omega arith in let left : 0 + p ≡ p = omega arith in rw (right, left)
tracked_after-append a n (suc m) zero d = let right : suc m + 0 ≡ suc m = omega arith in rw right
tracked_after-append a n (suc m) (suc p) d =
    let both : suc m + suc p ≡ suc (m + suc p) = omega arith in
    let last : n + suc m + suc p ≡ n + suc (m + suc p) = omega arith in
    rw (both, last) (insert-insert a (n + suc m) (n + suc (m + suc p)) d)

pair_eq : {A B : Type 0} {a a' : A} {b b' : B} → a ≡ a' → b ≡ b' → ◌≡◌ {A = A × B} (a, b) (a', b')
pair_eq p q = λ i. (p i, q i)

-- A step that leaves the signer alone.
pure-ok :
    {W A B : Type 0} (r : Result BuildError A) (s : TransactionSigner W) (f : A → Build W B) {b : B}
    {s' : TransactionSigner W}
    → then_with (r, s) f ≡ (ok b, s')
    → (a : A) × (r ≡ ok a) × (f a s ≡ (ok b, s'))
pure-ok (err e) s f h = cc
pure-ok (ok a) s f h = (a, refl, h)

module _ {W F : Type 0} (k : Wallets W)
    (sign : W → Eip1559TransactionRequest → Option (String × List ℕ)) (f : F64 F)
    (t : Texts F) where
  nonce_from-tracked :
      (w : W) (o : Option W) (s : TransactionSigner W) {n : ℕ}
      → o ≡ some w
      → nonce_from k sign f t (ok_or no_default_wallet o) s ≡ ok n
      → n ≡ unwrap_or 0 (lookup (k.address w) s.nonce_tracker)
  unfolding get_tracked_nonce
  nonce_from-tracked w none s d h = cc
  nonce_from-tracked w (some v) s {n} d h =
      let same : v ≡ w = cc in
      let is : unwrap_or 0 (lookup (k.address v) s.nonce_tracker) ≡ n = cc in
      sym is ∙ ap (λ u. unwrap_or 0 (lookup (k.address u) s.nonce_tracker)) same

  validated-ok :
      (v : Option BundleValidation) (b : Bundle) {b' : Bundle}
      → validated k sign f t v b ≡ ok b'
      → b ≡ b'
  validated-ok none b h = cc
  validated-ok (some v) b h = if-cases v.is_valid (λ _ e. cc) (λ _ e. cc) h

  -- A bundle built for the opportunity `o` with `w` as the default wallet, and what the signer then is.
  pub record Built (w : W) (builder : StrategyBundleBuilder) (o : Opportunity F)
      (s : TransactionSigner W) (b : Bundle) (s' : TransactionSigner W) : Type 0 where
    pub first : ℕ
    pub first_tracked : first ≡ unwrap_or 0 (lookup (k.address w) s.nonce_tracker)
    pub templates : List TransactionTemplate × List TransactionTemplate
    pub by_strategy : build_bundle_transactions builder o.opportunity_type ≡ some templates
    pub before : AllFollow k sign templates.0 b.pre_transactions
    pub after : AllFollow k sign templates.1 b.post_transactions
    pub nonces :
        map (λ tx. tx.nonce) (b.pre_transactions ++ b.post_transactions)
        ≡ count_from first (length (templates.0 ++ templates.1))
    pub ours : All (Ours k sign w s.chain_id) (b.pre_transactions ++ b.post_transactions)
    pub target : IsTarget f t o.target_transaction.transaction b.target_transaction
    pub tracker :
        s'.nonce_tracker
        ≡ tracked_after (k.address w) first (length (templates.0 ++ templates.1)) s.nonce_tracker
    pub same_keys : s'.key_manager ≡ s.key_manager

  joined :
      (w : W) (builder : StrategyBundleBuilder) (o : Opportunity F) (p : BundleParams F)
      (id : String) (now : ℕ) (before after : List TransactionTemplate) (first : ℕ)
      (s : TransactionSigner W) (pre : List SignedTransaction) (s1 : TransactionSigner W)
      (target : SignedTransaction) (post : List SignedTransaction) (s2 : TransactionSigner W)
      → first ≡ unwrap_or 0 (lookup (k.address w) s.nonce_tracker)
      → build_bundle_transactions builder o.opportunity_type ≡ some (before, after)
      → Sequenced k sign w before first s pre s1
      → Sequenced k sign w after (first + length before) s1 post s2
      → length pre ≡ length before
      → length post ≡ length after
      → create_target_signed_transaction f t o.target_transaction.transaction ≡ ok target
      → Built w builder o s (bundle_of k sign f t o p id now pre target post) s2
  joined w builder o p id now before after first s pre s1 target post s2 is by q1 q2 l1 l2 e2 =
      let all : length (before ++ after) ≡ length before + length after =
        length-append before after in
      record {
        first = first;
        first_tracked = is;
        templates = (before, after);
        by_strategy = by;
        before = q1.follow;
        after = q2.follow;
        nonces =
            map-append (λ (tx : SignedTransaction). tx.nonce) pre post
            ∙ rw (q1.nonces, q2.nonces, l1, l2, all)
                (count_from-append first (length before) (length after));
        ours =
            All-append _ pre post q1.ours
              (subst (λ c. All (Ours k sign w c) post) q1.same_chain q2.ours);
        target =
            create_target_signed_transaction-IsTarget f t o.target_transaction.transaction
              {target = target} e2;
        tracker =
            q2.tracker
            ∙ ap (tracked_after (k.address w) (first + length before) (length post)) q1.tracker
            ∙ rw (l1, l2, all)
                (tracked_after-append (k.address w) first (length before) (length after)
                  s.nonce_tracker);
        same_keys = q2.same_keys ∙ q1.same_keys;
      }

  finished :
      (w : W) (builder : StrategyBundleBuilder) (o : Opportunity F) (p : BundleParams F)
      (id : String) (now : ℕ) (before after : List TransactionTemplate) (first : ℕ)
      (s : TransactionSigner W) (pre : List SignedTransaction) (s1 : TransactionSigner W)
      (target : SignedTransaction) (post : List SignedTransaction) (s2 : TransactionSigner W)
      {b : Bundle} {s' : TransactionSigner W}
      → Built w builder o s (bundle_of k sign f t o p id now pre target post) s2
      → lift
          (validated k sign f t
            (validate_bundle builder (bundle_of k sign f t o p id now pre target post))
            (bundle_of k sign f t o p id now pre target post))
          s2
        ≡ (ok b, s')
      → Built w builder o s b s'
  finished w builder o p id now before after first s pre s1 target post s2 {b} {s'} built h =
      let v = validate_bundle builder (bundle_of k sign f t o p id now pre target post) in
      subst (λ (x : Bundle × TransactionSigner W). Built w builder o s x.0 x.1)
        {x = (bundle_of k sign f t o p id now pre target post, s2)} {y = (b, s')}
        (pair_eq
          (validated-ok v (bundle_of k sign f t o p id now pre target post) {b' = b}
            (ap (λ x. x.0) h))
          (ap (λ x. x.1) h))
        built

  sign_bundle-Built :
      (w : W) (builder : StrategyBundleBuilder) (o : Opportunity F) (p : BundleParams F)
      (id : String) (now : ℕ) (before after : List TransactionTemplate) (fee priority_fee first : ℕ)
      (s : TransactionSigner W) {b : Bundle} {s' : TransactionSigner W}
      → s.key_manager.default_wallet ≡ some w
      → first ≡ unwrap_or 0 (lookup (k.address w) s.nonce_tracker)
      → build_bundle_transactions builder o.opportunity_type ≡ some (before, after)
      → sign_bundle k sign f t builder o p id now (before, after) (fee, priority_fee) first s
        ≡ (ok b, s')
      → Built w builder o s b s'
  unfolding sign_bundle
  sign_bundle-Built w builder o p id now before after fee priority_fee first s {b} {s'} d is by h =
      let tx = o.target_transaction.transaction in
      let (pre, s1, e1, h4) =
        then_with-ok (sign_all k sign f t before first fee priority_fee s) _ {b = b} {s' = s'} h in
      let (target, e2, h5) =
        pure-ok (create_target_signed_transaction f t tx) s1 _ {b = b} {s' = s'} h4 in
      let (post, s2, e3, h6) =
        then_with-ok (sign_all k sign f t after (first + length before) fee priority_fee s1) _
          {b = b} {s' = s'} h5 in
      let (q1, l1) =
        sign_all-Sequenced k sign f t w before first fee priority_fee s {txs = pre} {s' = s1} d
          e1 in
      let (q2, l2) =
        sign_all-Sequenced k sign f t w after (first + length before) fee priority_fee s1
          {txs = post} {s' = s2} (ap (λ m. m.default_wallet) q1.same_keys ∙ d) e3 in
      finished w builder o p id now before after first s pre s1 target post s2 {b = b} {s' = s'}
        (joined w builder o p id now before after first s pre s1 target post s2 is by q1 q2 l1 l2
          e2)
        h6

  build_from-Built :
      (w : W) (builder : StrategyBundleBuilder) (o : Opportunity F) (p : BundleParams F)
      (id : String) (now : ℕ) (templates : List TransactionTemplate × List TransactionTemplate)
      (s : TransactionSigner W) {b : Bundle} {s' : TransactionSigner W}
      → s.key_manager.default_wallet ≡ some w
      → build_bundle_transactions builder o.opportunity_type ≡ some templates
      → build_from k sign f t builder o p id now templates s ≡ (ok b, s')
      → Built w builder o s b s'
  unfolding build_from get_starting_nonce get_default_wallet
  build_from-Built w builder o p id now templates s {b} {s'} d by h =
      let tx = o.target_transaction.transaction in
      let (_, _, h1) = pure-ok (create_target_template f t tx) s _ {b = b} {s' = s'} h in
      let (fees, _, h2) =
        pure-ok (ok_or panic (calculate_gas_prices f t p)) s _ {b = b} {s' = s'} h1 in
      let (first, is, h3) =
        pure-ok (nonce_from k sign f t (ok_or no_default_wallet s.key_manager.default_wallet) s) s _
          {b = b} {s' = s'} h2 in
      sign_bundle-Built w builder o p id now templates.0 templates.1 fees.0 fees.1 first s {b = b}
        {s' = s'} d (nonce_from-tracked w s.key_manager.default_wallet s {n = first} d is) by h3

  build_by-Built :
      (w : W) (r : Option StrategyBundleBuilder) (o : Opportunity F) (p : BundleParams F)
      (id : String) (now : ℕ) (s : TransactionSigner W) {b : Bundle} {s' : TransactionSigner W}
      → s.key_manager.default_wallet ≡ some w
      → build_by k sign f t r o p id now s ≡ (ok b, s')
      → (builder : StrategyBundleBuilder) × (r ≡ some builder) × Built w builder o s b s'
  build_by-Built w none o p id now s d h = cc
  build_by-Built w (some builder) o p id now s {b} {s'} d h =
      let (templates, by, rest) =
        pure-ok (ok_or invalid_opportunity (build_bundle_transactions builder o.opportunity_type)) s
          _ {b = b} {s' = s'} h in
      (
        builder,
        refl,
        build_from-Built w builder o p id now templates s {b = b} {s' = s'} d
            (ok_or-ok (build_bundle_transactions builder o.opportunity_type) invalid_opportunity by)
            rest,
      )

  put_signer-ok :
      (b b' : BundleBuilder W F) (r : Result BuildError Bundle × TransactionSigner W) {x : Bundle}
      → put_signer k sign f t b r ≡ (ok x, b')
      → r ≡ (ok x, b'.signer)
  put_signer-ok b b' (r, s) h = pair_eq (ap (λ y. y.0) h) (ap (λ y. y.1.signer) h)

  -- What a bundle that is returned consists of. Before and behind the target stands one transaction of
  -- our own for each template that the builder registered for the opportunity's strategy gives, in their
  -- order, with the template's recipient, value, gas limit and calldata. Their nonces are consecutive
  -- from the tracked one on (0 if there is none), and what the default wallet has signed for each is that
  -- very transaction: this nonce, these fees, the signer's chain and no other. The target has the
  -- hash, sender, recipient, value, gas limit, gas price, calldata and nonce of the opportunity's
  -- transaction. The tracker is moved behind the last of these nonces.
  pub build_bundle_with_params-Built :
      (w : W) (o : Opportunity F) (p : BundleParams F) (id : String) (now : ℕ)
      (b : BundleBuilder W F) {bundle : Bundle} {b' : BundleBuilder W F}
      → b.signer.key_manager.default_wallet ≡ some w
      → build_bundle_with_params k sign f t o p id now b ≡ (ok bundle, b')
      → (builder : StrategyBundleBuilder) × (lookup o.strategy_name b.strategy_builders
          ≡ some builder)
        × Built w builder o b.signer bundle b'.signer
  unfolding build_bundle_with_params
  build_bundle_with_params-Built w o p id now b {bundle} {b'} d h =
      build_by-Built w (lookup o.strategy_name b.strategy_builders) o p id now b.signer {b = bundle}
        {s' = b'.signer} d (put_signer-ok b b' _ {x = bundle} h)
