-- ===== src/Builder/Burned.antt =====
-- A bundle that fails after its first signature.
use botmev.Prelude.{
  ℕ, ◌+◌, ◌<◌, ◌^◌, ◌≡◌, ap, true, Option, none, some, List, [], ◌∷◌, String, arith, ltb, lt→ltb,
}
use mathlib.Core.Path.{subst}
use botmev.Prelude.Dict.{lookup}
use botmev.Prelude.Floats.{F64}
use botmev.Prelude.Results.{ok, err, unwrap_or, ok_or}
use botmev.Opportunities.{Opportunity, sandwich, OpportunityType}
use botmev.Builder.Keys.{Wallets, get_default_wallet, no_default_wallet}
use botmev.Builder.Types.{TransactionTemplate, BundleParams, fixed}
use botmev.Builder.Signer.{
  TransactionSigner, Eip1559TransactionRequest, get_tracked_nonce, sign_transaction,
  sign_transaction_with_wallet, get_nonce, update_nonce, request_of, and_then_with, wallet,
  transaction_of,
}
use botmev.Builder.Target.{
  Texts, BuildError, sandwich_builder, build_bundle_transactions, create_target_signed_transaction,
  create_target_template, calculate_gas_prices, our_call,
}
use botmev.Builder.Defs.{
  BundleBuilder, sign_one, sign_all, sign_bundle, build_from, build_bundle_with_params,
  get_starting_nonce, nonce_from,
}

sandwich_templates :
    {F : Type 0} (type : OpportunityType F) (victim : String) (pair : String × String)
    (front back profit : ℕ)
    → type ≡ sandwich victim pair front back profit
    → build_bundle_transactions sandwich_builder type
      ≡ some (
        our_call 200_000 (0xf0 ∷ 0x0d ∷ 0xfa ∷ 0xce ∷ []) ∷ [],
        our_call 200_000 (0xde ∷ 0xad ∷ 0xc0 ∷ 0xde ∷ []) ∷ [],
      )
unfolding build_bundle_transactions
sandwich_templates type victim pair front back profit e = rw e

module _ {W F : Type 0} (k : Wallets W)
    (sign : W → Eip1559TransactionRequest → Option (String × List ℕ)) (f : F64 F)
    (t : Texts F) where
  with_wallet-signed :
      (w : W) (template : TransactionTemplate) (n fee priority_fee : ℕ)
      (signature : String × List ℕ) (s : TransactionSigner W)
      → n < 2 ^ 64
      → sign w (request_of k sign s template n fee priority_fee) ≡ some signature
      → sign_transaction_with_wallet k sign w template (fixed n) fee priority_fee s ≡ (
        ok (transaction_of k sign s w template n fee priority_fee signature),
        update_nonce (k.address w) (n + 1) s,
      )
  unfolding sign_transaction_with_wallet get_nonce
  with_wallet-signed w template n fee priority_fee signature s small e =
      let room : ltb (n + 1) (2 ^ 256) ≡ true = lt→ltb (n + 1) (2 ^ 256) (omega arith) in
      rw (e, room)

  default-signed :
      (w : W) (o : Option W) (template : TransactionTemplate) (n fee priority_fee : ℕ)
      (signature : String × List ℕ) (s : TransactionSigner W)
      → o ≡ some w
      → n < 2 ^ 64
      → sign w (request_of k sign s template n fee priority_fee) ≡ some signature
      → and_then_with
          (wallet k sign (ok_or no_default_wallet o) s)
          (λ v. sign_transaction_with_wallet k sign v template (fixed n) fee priority_fee)
        ≡ (
          ok (transaction_of k sign s w template n fee priority_fee signature),
          update_nonce (k.address w) (n + 1) s,
        )
  default-signed w none template n fee priority_fee signature s d small e = cc
  default-signed w (some v) template n fee priority_fee signature s d small e =
      let same : w ≡ v = cc in
      subst
        (λ u. sign_transaction_with_wallet k sign u template (fixed n) fee priority_fee s ≡ (
          ok (transaction_of k sign s w template n fee priority_fee signature),
          update_nonce (k.address w) (n + 1) s,
        ))
        same (with_wallet-signed w template n fee priority_fee signature s small e)

  sign_one-signed :
      (w : W) (template : TransactionTemplate) (n fee priority_fee : ℕ)
      (signature : String × List ℕ) (s : TransactionSigner W)
      → s.key_manager.default_wallet ≡ some w
      → n < 2 ^ 64
      → sign w (request_of k sign s template n fee priority_fee) ≡ some signature
      → sign_one k sign f t template n fee priority_fee s ≡ (
        ok (transaction_of k sign s w template n fee priority_fee signature),
        update_nonce (k.address w) (n + 1) s,
      )
  unfolding sign_transaction get_default_wallet
  sign_one-signed w template n fee priority_fee signature s d small e =
      let room : ltb n (2 ^ 64) ≡ true = lt→ltb n (2 ^ 64) small in
      rw (
        room,
        default-signed w s.key_manager.default_wallet template n fee priority_fee signature s d
            small e,
      )

  -- The front-run is signed, then the target turns out to be unreadable.
  sign_bundle-fails :
      (w : W) (o : Opportunity F) (p : BundleParams F) (id : String) (now : ℕ)
      (template : TransactionTemplate) (after : List TransactionTemplate) (fee priority_fee n : ℕ)
      (signature : String × List ℕ) (s : TransactionSigner W) (e : BuildError)
      → s.key_manager.default_wallet ≡ some w
      → n < 2 ^ 64
      → sign w (request_of k sign s template n fee priority_fee) ≡ some signature
      → create_target_signed_transaction f t o.target_transaction.transaction ≡ err e
      → sign_bundle k sign f t sandwich_builder o p id now
          (template ∷ [], after)
          (fee, priority_fee)
          n
          s
        ≡ (err e, update_nonce (k.address w) (n + 1) s)
  unfolding sign_bundle sign_all
  sign_bundle-fails w o p id now template after fee priority_fee n signature s e d small h bad =
      rw (sign_one-signed w template n fee priority_fee signature s d small h, bad)

  tracked_by :
      (w : W) (o : Option W) (s : TransactionSigner W)
      → o ≡ some w
      → nonce_from k sign f t (ok_or no_default_wallet o) s
        ≡ ok (unwrap_or 0 (lookup (k.address w) s.nonce_tracker))
  unfolding get_tracked_nonce
  tracked_by w none s d = cc
  tracked_by w (some v) s d =
      let same : v ≡ w = cc in
      ap (λ u. ok (unwrap_or 0 (lookup (k.address u) s.nonce_tracker))) same

  build_from-fails :
      (w : W) (o : Opportunity F) (p : BundleParams F) (id : String) (now : ℕ)
      (template : TransactionTemplate) (after : List TransactionTemplate) (fees : ℕ × ℕ)
      (x : TransactionTemplate) (signature : String × List ℕ) (s : TransactionSigner W)
      (e : BuildError)
      → let first = unwrap_or 0 (lookup (k.address w) s.nonce_tracker) in
        s.key_manager.default_wallet ≡ some w
        → first < 2 ^ 64
        → create_target_template f t o.target_transaction.transaction ≡ ok x
        → calculate_gas_prices f t p ≡ some fees
        → sign w (request_of k sign s template first fees.0 fees.1) ≡ some signature
        → create_target_signed_transaction f t o.target_transaction.transaction ≡ err e
        → build_from k sign f t sandwich_builder o p id now (template ∷ [], after) s
          ≡ (err e, update_nonce (k.address w) (first + 1) s)
  unfolding build_from get_starting_nonce get_default_wallet get_tracked_nonce
  build_from-fails w o p id now template after fees x signature s e d small good priced h bad =
      let first = unwrap_or 0 (lookup (k.address w) s.nonce_tracker) in
      let found = tracked_by w s.key_manager.default_wallet s d in
      rw (good, priced, found)
        (sign_bundle-fails w o p id now template after fees.0 fees.1 first signature s e d small h
          bad)

  -- Where a sandwich's target is readable but for its hash, its sender or its gas price, and the default
  -- wallet signs the front-run: the call fails with the error of the target, and the signer goes on with
  -- the next nonce all the same, so that no later transaction of the account can be included before one
  -- with the nonce that was given to the lost front-run.
  pub build_bundle_with_params-burns :
      (w : W) (o : Opportunity F) (p : BundleParams F) (id : String) (now : ℕ)
      (b : BundleBuilder W F) (victim : String) (pair : String × String) (front back profit : ℕ)
      (fees : ℕ × ℕ) (x : TransactionTemplate) (signature : String × List ℕ) (e : BuildError)
      → let first = unwrap_or 0 (lookup (k.address w) b.signer.nonce_tracker) in
        o.opportunity_type ≡ sandwich victim pair front back profit
        → lookup o.strategy_name b.strategy_builders ≡ some sandwich_builder
        → b.signer.key_manager.default_wallet ≡ some w
        → first < 2 ^ 64
        → create_target_template f t o.target_transaction.transaction ≡ ok x
        → calculate_gas_prices f t p ≡ some fees
        → sign w (
            request_of k sign b.signer
              (our_call 200_000 (0xf0 ∷ 0x0d ∷ 0xfa ∷ 0xce ∷ []))
              first
              fees.0
              fees.1)
          ≡ some signature
        → create_target_signed_transaction f t o.target_transaction.transaction ≡ err e
        → build_bundle_with_params k sign f t o p id now b
          ≡ (err e, record b { signer = update_nonce (k.address w) (first + 1) b.signer })
  unfolding build_bundle_with_params
  build_bundle_with_params-burns w o p id now b victim pair front back profit fees x signature e
        type registered d small good priced h bad =
      rw (
        registered,
        sandwich_templates o.opportunity_type victim pair front back profit type,
        build_from-fails w o p id now (our_call 200_000 (0xf0 ∷ 0x0d ∷ 0xfa ∷ 0xce ∷ []))
            (our_call 200_000 (0xde ∷ 0xad ∷ 0xc0 ∷ 0xde ∷ []) ∷ []) fees x signature b.signer e d
            small good priced h bad,
      )
