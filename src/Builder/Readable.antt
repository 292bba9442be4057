-- ===== src/Builder/Readable.antt =====
-- The target of a bundle, read off the opportunity's transaction.
use botmev.Prelude.{◌≡◌, refl, sym, Option, none, some, String}
use mathlib.Core.Path.{subst}
use botmev.Prelude.Floats.{F64}
use botmev.Prelude.Results.{ok, err, >>=-ok, ok_or-ok, ok_inj}
use botmev.Types.{Transaction}
use botmev.Builder.Types.{SignedTransaction}
use botmev.Builder.Target.{Texts, invalid_target, to_of, field, create_target_signed_transaction}

module _ {F : Type 0} (f : F64 F) (t : Texts F) where
  -- No recipient for none, and that of the text for a text.
  abbrev pub ReadsTo : Option String → Option String → Type 0
  ReadsTo none to = to ≡ none
  ReadsTo (some a) to = (x : String) × (t.parse_address a ≡ some x) × (to ≡ some x)

  -- Each field is that of the transaction, read as a number, an address, a hash or bytes.
  pub record IsTarget (tx : Transaction) (target : SignedTransaction) : Type 0 where
    pub hash : t.parse_hash tx.hash ≡ some target.hash
    pub sender : t.parse_address tx.sender ≡ some target.sender
    pub to : ReadsTo tx.to target.to
    pub value : t.parse_u256 tx.value ≡ some target.value
    pub gas_limit : t.parse_u256 tx.gas_limit ≡ some target.gas_limit
    pub gas_price : t.parse_u256 tx.gas_price ≡ some target.max_fee_per_gas
    pub calldata : t.decode_input tx.input ≡ some target.calldata
    pub nonce : target.nonce ≡ tx.nonce

  field-ok : {A : Type 0} (o : Option A) {a : A} → field f t o ≡ ok a → o ≡ some a
  field-ok o {a} h = ok_or-ok o invalid_target {a = a} h

  to_of-ReadsTo : (o : Option String) {to : Option String} → to_of f t o ≡ ok to → ReadsTo o to
  to_of-ReadsTo none h = sym (ok_inj h)
  to_of-ReadsTo (some a) {to} h = read (t.parse_address a) refl h
    where
      read :
          (p : Option String)
          → t.parse_address a ≡ p
          → elim p [ none ↦ err invalid_target | some x ↦ ok (some x) ] ≡ ok to
          → ReadsTo (some a) to
      read none e g = cc
      read (some x) e g = (x, e, sym (ok_inj g))

  pub create_target_signed_transaction-IsTarget :
      (tx : Transaction) {target : SignedTransaction}
      → create_target_signed_transaction f t tx ≡ ok target
      → IsTarget tx target
  unfolding create_target_signed_transaction
  create_target_signed_transaction-IsTarget tx {target} h =
      let (hash, e1, h1) = >>=-ok (field f t (t.parse_hash tx.hash)) _ {b = target} h in
      let (sender, e2, h2) = >>=-ok (field f t (t.parse_address tx.sender)) _ {b = target} h1 in
      let (to, e3, h3) = >>=-ok (to_of f t tx.to) _ {b = target} h2 in
      let (value, e4, h4) = >>=-ok (field f t (t.parse_u256 tx.value)) _ {b = target} h3 in
      let (gas, e5, h5) = >>=-ok (field f t (t.parse_u256 tx.gas_limit)) _ {b = target} h4 in
      let (fee, e6, h6) = >>=-ok (field f t (t.parse_u256 tx.gas_price)) _ {b = target} h5 in
      let (input, e7, h7) = >>=-ok (field f t (t.decode_input tx.input)) _ {b = target} h6 in
      subst (IsTarget tx) (ok_inj h7) (record {
        hash = field-ok (t.parse_hash tx.hash) e1;
        sender = field-ok (t.parse_address tx.sender) e2;
        to = to_of-ReadsTo tx.to {to = to} e3;
        value = field-ok (t.parse_u256 tx.value) e4;
        gas_limit = field-ok (t.parse_u256 tx.gas_limit) e5;
        gas_price = field-ok (t.parse_u256 tx.gas_price) e6;
        calldata = field-ok (t.decode_input tx.input) e7;
        nonce = refl;
      })
