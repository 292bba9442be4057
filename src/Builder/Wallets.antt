-- ===== src/Builder/Wallets.antt =====
-- What is kept of the wallets of a key manager.
use botmev.Prelude.{
  ℕ, ◌≡◌, ◌≢◌, refl, sym, ap, ◌∙◌, Bool, true, false, Option, none, some, List, [], ◌∷◌, String,
  arith, if-holds,
}
use mathlib.Core.Path.{subst}
use botmev.Prelude.Dict.{
  Dict, lookup, insert, lookup-insert, lookup-insert_self, str_eq, str_eq_iff,
}
use botmev.Prelude.Results.{Result, ok, err}
use botmev.Builder.Keys.{
  Wallets, KeyManager, KeyError, EncryptedKeyFile, new, store, or_first, load_private_key,
  load_encrypted_key, create_encrypted_key, set_default_wallet, default_to, encrypt_key, wallet_of,
  stored_key, stored_wallet, created,
}

-- The calls that change a key manager.
pub data Call (W : Type 0) : Type 0 where
  load_private : String → Call W
  load_encrypted : Option String → String → Call W
  create : W → Bool → List ℕ → List ℕ → String → Call W
  set_default : String → Call W

module _ {W : Type 0} (k : Wallets W) where
  abbrev pub call : Call W → KeyManager W → KeyManager W
  call (load_private s) m = (load_private_key k s m).1
  call (load_encrypted file password) m = (load_encrypted_key k file password m).1
  call (create w written salt nonce password) m =
      (create_encrypted_key k w written salt nonce password m).1
  call (set_default a) m = (set_default_wallet k a m).1

  abbrev pub calls : List (Call W) → KeyManager W → KeyManager W
  calls [] m = m
  calls (c ∷ cs) m = calls cs (call c m)

  pub record IsKept (m : KeyManager W) : Type 0 where
    pub own_address : (a : String) (w : W) → lookup a m.wallets ≡ some w → k.address w ≡ a
    pub default_loaded :
        {d : W} → m.default_wallet ≡ some d → (w : W) × (lookup (k.address d) m.wallets ≡ some w)
    pub default_set : (a : String) (w : W) → lookup a m.wallets ≡ some w → m.default_wallet ≢ none

  abbrev IsFound : Option W → Type 0
  IsFound o = (w : W) × (o ≡ some w)

  IsFound-insert :
      (a b : String) (w : W) (d : Dict W) → IsFound (lookup b d) → IsFound (lookup b (insert a w d))
  IsFound-insert a b w d h = rw (lookup-insert a b w d) (if-holds IsFound (str_eq a b) (w, refl) h)

  first_loaded :
      (w : W) (o : Option W) (m : KeyManager W) {d : W}
      → m.default_wallet ≡ o
      → IsKept m
      → or_first k o w ≡ some d
      → IsFound (lookup (k.address d) (insert (k.address w) w m.wallets))
  first_loaded w none m {d} same h e =
      let eq : w ≡ d = cc in
      subst (λ v. IsFound (lookup (k.address v) (insert (k.address w) w m.wallets))) eq
        (w, lookup-insert_self (k.address w) w m.wallets)
  first_loaded w (some v) m {d} same h e =
      IsFound-insert (k.address w) (k.address d) w m.wallets (h.default_loaded {d = d} (cc))

  or_first-some : (o : Option W) (w : W) → or_first k o w ≢ none
  or_first-some none w e = cc
  or_first-some (some v) w e = cc

  store-IsKept : (w : W) (m : KeyManager W) → IsKept m → IsKept (store k w m)
  store-IsKept w m h = record {
    own_address = λ a v e. ground (
      arith,
      lookup-insert (k.address w) a w m.wallets,
      str_eq_iff (k.address w) a,
      h.own_address a v,
    );
    default_loaded = λ {d} e. first_loaded w m.default_wallet m {d = d} refl h e;
    default_set = λ a v e. or_first-some m.default_wallet w;
  }

  default_to-IsKept :
      (a : String) (o : Option W) (m : KeyManager W)
      → lookup a m.wallets ≡ o
      → IsKept m
      → IsKept (default_to k o m).1
  default_to-IsKept a none m e h = h
  default_to-IsKept a (some w) m e h = record {
    own_address = λ b v f. h.own_address b v f;
    default_loaded = λ {d} f.
        let same : w ≡ d = cc in
        (w, ap (λ x. lookup x m.wallets) (ap k.address (sym same) ∙ h.own_address a w e) ∙ e);
    default_set = λ b v f g. cc;
  }

  stored_key-IsKept : (o : Option W) (m : KeyManager W) → IsKept m → IsKept (stored_key k o m).1
  stored_key-IsKept none m h = h
  stored_key-IsKept (some w) m h = store-IsKept w m h

  stored_wallet-IsKept :
      (r : Result KeyError W) (m : KeyManager W) → IsKept m → IsKept (stored_wallet k r m).1
  stored_wallet-IsKept (err e) m h = h
  stored_wallet-IsKept (ok w) m h = store-IsKept w m h

  created-IsKept :
      (w : W) (written : Bool) (r : Result KeyError EncryptedKeyFile) (m : KeyManager W)
      → IsKept m
      → IsKept (created k w written r m).1
  created-IsKept w written (err e) m h = h
  created-IsKept w false (ok f) m h = h
  created-IsKept w true (ok f) m h = store-IsKept w m h

  call-IsKept : (c : Call W) (m : KeyManager W) → IsKept m → IsKept (call c m)
  unfolding load_private_key load_encrypted_key create_encrypted_key set_default_wallet
  call-IsKept (load_private s) m h = stored_key-IsKept (k.parse s) m h
  call-IsKept (load_encrypted file password) m h =
      stored_wallet-IsKept (wallet_of k file password) m h
  call-IsKept (create w written salt nonce password) m h =
      created-IsKept w written (encrypt_key k salt nonce (k.key_hex w) password) m h
  call-IsKept (set_default a) m h = default_to-IsKept a (lookup a m.wallets) m refl h

  calls-IsKept : (cs : List (Call W)) (m : KeyManager W) → IsKept m → IsKept (calls cs m)
  calls-IsKept [] m h = h
  calls-IsKept (c ∷ cs) m h = calls-IsKept cs (call c m) (call-IsKept c m h)

  -- After any calls on a new key manager, with good and bad keys, files and passwords: every wallet
  -- stands under its own address, there is a default wallet as soon as there is any wallet, and its
  -- address is one of those that are loaded.
  pub new-IsKept : (cs : List (Call W)) → IsKept (calls cs new)
  unfolding new lookup
  new-IsKept cs = calls-IsKept cs new (record {
    own_address = λ a w e. cc;
    default_loaded = λ {d} e. cc;
    default_set = λ a w e f. cc;
  })
