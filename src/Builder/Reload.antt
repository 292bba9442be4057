-- ===== src/Builder/Reload.antt =====
-- A key file gives back the wallet it holds.
use botmev.Prelude.{
  ℕ, zero, suc, ◌≡◌, refl, ap, Bool, true, false, some, List, [], ◌∷◌, ◌++◌, String, length, take,
  drop, arith, ltb, length-append,
}
use mathlib.Core.Path.{subst}
use botmev.Prelude.Dict.{lookup-insert_self}
use botmev.Prelude.Results.{ok_or-ok, ok_inj, Result, ok, err, >>=-ok, ok_or}
use botmev.Builder.Keys.{
  Wallets, KeyManager, KeyError, EncryptedKeyFile, load_encrypted_key, create_encrypted_key,
  get_wallet, encrypt_key, decrypt_key, wallet_of, encryption_failed, created,
}

take_of_length :
    {A : Type 0} (n : ℕ) (l k : List A)
    → length l ≡ n
    → (take n (l ++ k) ≡ l) × (drop n (l ++ k) ≡ k)
take_of_length zero [] k h = (refl, refl)
take_of_length zero (x ∷ l) k h = absurd (omega arith)
take_of_length (suc n) [] k h = absurd (omega arith)
take_of_length (suc n) (x ∷ l) k h =
    let (t, d) = take_of_length n l k (omega arith) in (ap (◌∷◌ x) t, d)

module _ {W : Type 0} (k : Wallets W) where
  -- What the libraries document: hexadecimal, UTF-8, AES-GCM and JSON give back what was put in, and a
  -- private key is that of one wallet.
  pub record IsLossless : Type 0 where
    pub decode-encode : (l : List ℕ) → k.decode (k.encode l) ≡ some l
    pub utf8-bytes : (w : W) → k.from_utf8 (k.as_bytes (k.key_hex w)) ≡ some (k.key_hex w)
    pub decrypt-encrypt :
        (key nonce text : List ℕ) {c : List ℕ}
        → k.encrypt key nonce text ≡ some c
        → k.decrypt key nonce c ≡ some text
    pub json_round : (f : EncryptedKeyFile) → k.from_json (k.to_json f) ≡ some f
    pub parse-key_hex : (w : W) → k.parse (k.key_hex w) ≡ some w

  module _ (laws : IsLossless) where
    decrypt_key_of :
        (salt nonce c : List ℕ) (private_key password : String)
        → length nonce ≡ 12
        → k.from_utf8 (k.as_bytes private_key) ≡ some private_key
        → k.encrypt (k.derive (k.as_bytes password) salt 100_000) nonce (k.as_bytes private_key)
          ≡ some c
        → decrypt_key k
            (record {
              encrypted_key = k.encode (nonce ++ c);
              kdf_params = record { salt = k.encode salt; iterations = 100_000; key_length = 32 };
              cipher = "aes-256-gcm";
              version = 1;
            })
            password
          ≡ ok private_key
    unfolding decrypt_key
    decrypt_key_of salt nonce c private_key password h text e =
        let (front, back) = take_of_length 12 nonce c h in
        let long : ltb (length (nonce ++ c)) 12 ≡ false = ground (arith, length-append nonce c) in
        rw (laws.decode-encode salt, laws.decode-encode (nonce ++ c), long, front, back)
          (rw (
            laws.decrypt-encrypt (k.derive (k.as_bytes password) salt 100_000) nonce
                (k.as_bytes private_key) {c = c} e,
            text,
          ))

    decrypt_key-encrypt_key :
        (salt nonce : List ℕ) (private_key password : String) (f : EncryptedKeyFile)
        → length nonce ≡ 12
        → k.from_utf8 (k.as_bytes private_key) ≡ some private_key
        → encrypt_key k salt nonce private_key password ≡ ok f
        → decrypt_key k f password ≡ ok private_key
    unfolding encrypt_key
    decrypt_key-encrypt_key salt nonce private_key password f h text e =
        let o =
          k.encrypt (k.derive (k.as_bytes password) salt 100_000) nonce (k.as_bytes private_key) in
        let (c, is, file) = >>=-ok (ok_or encryption_failed o) _ {b = f} e in
        subst (λ g. decrypt_key k g password ≡ ok private_key) (ok_inj file)
          (decrypt_key_of salt nonce c private_key password h text
            (ok_or-ok o encryption_failed is))

    wallet_of_file :
        (w : W) (salt nonce : List ℕ) (password : String) (f : EncryptedKeyFile)
        → length nonce ≡ 12
        → encrypt_key k salt nonce (k.key_hex w) password ≡ ok f
        → wallet_of k (some (k.to_json f)) password ≡ ok w
    unfolding wallet_of
    wallet_of_file w salt nonce password f h e = rw (
      laws.json_round f,
      decrypt_key-encrypt_key salt nonce (k.key_hex w) password f h (laws.utf8-bytes w) e,
      laws.parse-key_hex w,
    )

    -- Created and loaded.
    abbrev pub Reloads : W → String → String → String → KeyManager W → Type 0
    Reloads w password addr content m =
        let (r, m') = load_encrypted_key k (some content) password m in
        (r ≡ ok addr) × (get_wallet k addr m' ≡ ok w) × (addr ≡ k.address w)

    created-Reloads :
        (w : W) (written : Bool) (salt nonce : List ℕ) (password : String)
        (r : Result KeyError EncryptedKeyFile) (m : KeyManager W) {addr content : String}
        {m' : KeyManager W}
        → length nonce ≡ 12
        → encrypt_key k salt nonce (k.key_hex w) password ≡ r
        → created k w written r m ≡ (ok (addr, content), m')
        → (other : KeyManager W) → Reloads w password addr content other
    unfolding load_encrypted_key get_wallet
    created-Reloads w written salt nonce password (err x) m h e c other = cc
    created-Reloads w false salt nonce password (ok f) m h e c other = cc
    created-Reloads w true salt nonce password (ok f) m {addr} {content} h e c other =
        let at : k.address w ≡ addr = cc in
        let text : k.to_json f ≡ content = cc in
        let found = wallet_of_file w salt nonce password f h e in
        subst
          (λ (p : String × String).
            let (r, n) = load_encrypted_key k (some p.1) password other in
            (r ≡ ok p.0) × (get_wallet k p.0 n ≡ ok w) × (p.0 ≡ k.address w))
          {x = (k.address w, k.to_json f)} {y = (addr, content)} (cc)
          (rw found (refl, rw (lookup-insert_self (k.address w) w other.wallets), refl))

    -- Where the libraries give back what was put in: a key file that has just been created gives with its
    -- password, in any key manager, the same address, under which the same wallet is then found.
    pub create_encrypted_key-Reloads :
        (w : W) (written : Bool) (salt nonce : List ℕ) (password : String) (m : KeyManager W)
        {addr content : String} {m' : KeyManager W}
        → length nonce ≡ 12
        → create_encrypted_key k w written salt nonce password m ≡ (ok (addr, content), m')
        → (other : KeyManager W) → Reloads w password addr content other
    unfolding create_encrypted_key
    create_encrypted_key-Reloads w written salt nonce password m h =
        created-Reloads w written salt nonce password
          (encrypt_key k salt nonce (k.key_hex w) password) m h refl
