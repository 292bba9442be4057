-- ===== src/Builder/Keys.antt =====
-- `KeyManager`. Wallets, the ciphers, hexadecimal and the format of key files are those of other
-- crates, an interface; an address is its text. Random bytes are arguments.
use botmev.Prelude.{
  ℕ, Bool, true, false, not, Option, none, some, List, [], ◌++◌, map, String, length, take, drop,
  ltb, if◌then◌else◌,
}
use botmev.Prelude.Dict.{Dict, lookup, insert, str_eq}
use botmev.Prelude.Results.{Result, ok, err, ◌>>=◌, ok_or}

pub record KdfParams : Type 0 where
  pub salt : String
  pub iterations : ℕ
  pub key_length : ℕ

pub record EncryptedKeyFile : Type 0 where
  pub encrypted_key : String
  pub kdf_params : KdfParams
  pub cipher : String
  pub version : ℕ

-- `W` is `LocalWallet`; bytes are numbers.
pub record Wallets (W : Type 0) : Type 0 where
  -- `str::parse::<LocalWallet>`, `address`, and the private key in hexadecimal.
  pub parse : String → Option W
  pub address : W → String
  pub key_hex : W → String
  -- `hex::encode` and `hex::decode`; the bytes of a text, and `String::from_utf8`.
  pub encode : List ℕ → String
  pub decode : String → Option (List ℕ)
  pub as_bytes : String → List ℕ
  pub from_utf8 : List ℕ → Option String
  -- PBKDF2 over the password, the salt and the iterations, and AES-GCM with the key and the nonce.
  pub derive : List ℕ → List ℕ → ℕ → List ℕ
  pub encrypt : List ℕ → List ℕ → List ℕ → Option (List ℕ)
  pub decrypt : List ℕ → List ℕ → List ℕ → Option (List ℕ)
  -- `serde_json::to_string_pretty` and `from_str` of a key file.
  pub to_json : EncryptedKeyFile → String
  pub from_json : String → Option EncryptedKeyFile

pub data KeyError : Type 0 where
  unsupported_cipher invalid_hex invalid_length decryption_failed invalid_utf8 : KeyError
  encryption_failed not_read not_written invalid_file invalid_key wallet_not_found
        no_default_wallet :
      KeyError

pub record KeyManager (W : Type 0) : Type 0 where
  pub wallets : Dict W
  pub default_wallet : Option W

unfoldable pub new : {W : Type 0} → KeyManager W
new = record { wallets = []; default_wallet = none }

module _ {W : Type 0} (k : Wallets W) where
  abbrev pub or_first : Option W → W → Option W
  or_first none w = some w
  or_first (some d) w = some d

  -- The wallet is stored, and becomes the default if it is the first.
  abbrev pub store : W → KeyManager W → KeyManager W
  store w m = record {
    wallets = insert (k.address w) w m.wallets;
    default_wallet = or_first m.default_wallet w;
  }

  abbrev pub stored_key : Option W → KeyManager W → Result KeyError String × KeyManager W
  stored_key none m = (err invalid_key, m)
  stored_key (some w) m = (ok (k.address w), store w m)

  unfoldable pub load_private_key : String → KeyManager W → Result KeyError String × KeyManager W
  load_private_key private_key m = stored_key (k.parse private_key) m

  unfoldable pub get_wallet : String → KeyManager W → Result KeyError W
  get_wallet address m = ok_or wallet_not_found (lookup address m.wallets)

  unfoldable pub get_default_wallet : KeyManager W → Result KeyError W
  get_default_wallet m = ok_or no_default_wallet m.default_wallet

  abbrev pub default_to : Option W → KeyManager W → Result KeyError Unit × KeyManager W
  default_to none m = (err wallet_not_found, m)
  default_to (some w) m = (ok tt, record m { default_wallet = some w })

  unfoldable pub set_default_wallet : String → KeyManager W → Result KeyError Unit × KeyManager W
  set_default_wallet address m = default_to (lookup address m.wallets) m

  unfoldable pub list_addresses : KeyManager W → List String
  list_addresses m = map (λ (e : String × W). e.0) m.wallets

  unfoldable pub encrypt_key : List ℕ → List ℕ → String → String → Result KeyError EncryptedKeyFile
  encrypt_key salt nonce private_key password = do
    ciphertext ←
        ok_or encryption_failed
          (k.encrypt (k.derive (k.as_bytes password) salt 100_000) nonce (k.as_bytes private_key))
    ok (record {
      encrypted_key = k.encode (nonce ++ ciphertext);
      kdf_params = record { salt = k.encode salt; iterations = 100_000; key_length = 32 };
      cipher = "aes-256-gcm";
      version = 1;
    })

  abbrev pub decrypt_data : List ℕ → List ℕ → Result KeyError String
  decrypt_data key encrypted = do
    plaintext ← ok_or decryption_failed (k.decrypt key (take 12 encrypted) (drop 12 encrypted))
    ok_or invalid_utf8 (k.from_utf8 plaintext)

  abbrev pub check_length : List ℕ → Result KeyError String → Result KeyError String
  check_length encrypted rest = if ltb (length encrypted) 12 then err invalid_length else rest

  unfoldable pub decrypt_key : EncryptedKeyFile → String → Result KeyError String
  decrypt_key f password =
      if not (str_eq f.cipher "aes-256-gcm") then err unsupported_cipher else do
        salt ← ok_or invalid_hex (k.decode f.kdf_params.salt)
        encrypted ← ok_or invalid_hex (k.decode f.encrypted_key)
        check_length encrypted
            (decrypt_data (k.derive (k.as_bytes password) salt f.kdf_params.iterations) encrypted)

  -- The wallet of a key file, `none` if it cannot be read.
  unfoldable pub wallet_of : Option String → String → Result KeyError W
  wallet_of file password = do
    content ← ok_or not_read file
    f ← ok_or invalid_file (k.from_json content)
    private_key ← decrypt_key f password
    ok_or invalid_key (k.parse private_key)

  abbrev pub stored_wallet :
      Result KeyError W → KeyManager W → Result KeyError String × KeyManager W
  stored_wallet (err e) m = (err e, m)
  stored_wallet (ok w) m = (ok (k.address w), store w m)

  unfoldable pub load_encrypted_key :
      Option String → String → KeyManager W → Result KeyError String × KeyManager W
  load_encrypted_key file password m = stored_wallet (wallet_of file password) m

  abbrev pub created :
      W
      → Bool
      → Result KeyError EncryptedKeyFile
      → KeyManager W
      → Result KeyError (String × String) × KeyManager W
  created w written (err e) m = (err e, m)
  created w false (ok f) m = (err not_written, m)
  created w true (ok f) m = (ok (k.address w, k.to_json f), store w m)

  -- A fresh wallet, and whether its file can be written; returned are its address and the content of
  -- the file.
  unfoldable pub create_encrypted_key :
      W
      → Bool
      → List ℕ
      → List ℕ
      → String
      → KeyManager W
      → Result KeyError (String × String) × KeyManager W
  create_encrypted_key w written salt nonce password m =
      created w written (encrypt_key salt nonce (k.key_hex w) password) m
