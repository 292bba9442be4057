-- ===== src/Ingest/Parsing.antt =====
-- What the parser makes of a transaction whose fields are well formed.
use botmev.Prelude.{
  ℕ, ◌≤◌, ◌<◌, ◌≡◌, refl, ap, true, false, Option, none, some, String, arith, leb, Bool, Bool-cases,
  inl, inr, if◌then◌else◌, leb→le, leb_false→lt, lt→ltb, if-same,
}
use mathlib.Core.Option
use botmev.Prelude.Dict.{str_eq, str_eq_iff, lookup, insert}
use botmev.Prelude.Results.{Result, ok, and_then, unwrap_or}
use botmev.Prelude.Text.{
  byte_len, concat, to_lowercase, codes, from_str_radix16, trim_start_matches,
}
use botmev.Types.{
  Transaction, DecodedInput, ParsedTransaction, TargetType, uniswap_v2, uniswap_v3, sushi_swap,
  curve, balancer, unknown,
}
use botmev.Parser.Json.{Json}
use botmev.Ingest.Abi.{new, decode_input, determine_target_type, by_address}
use botmev.Ingest.Defs.{
  IngestError, has_input, fields_of, nonce_field, extract_transaction_fields, parse_transaction,
  classified, decoded_of,
}
use botmev.Ingest.Slices.{IsAscii, decode_input-Decoded}

-- The protocol that a function signature stands for.
abbrev pub protocol_of : String → Option TargetType
protocol_of s =
    if str_eq "0xa9059cbb" s
    then some uniswap_v2
    else if str_eq "0x7ff36ab5" s
    then some uniswap_v2
    else if str_eq "0x38ed1739" s
    then some sushi_swap
    else if str_eq "0x18cbafe5" s
    then some uniswap_v2
    else if str_eq "0x414bf389" s
    then some uniswap_v3
    else if str_eq "0xc04b8d59" s
    then some uniswap_v3
    else if str_eq "0x3df02124" s
    then some curve
    else if str_eq "0xa6417ed6" s
    then some curve
    else if str_eq "0x52bbbe29" s
    then some balancer
    else none

-- The protocol of the contract, by its address.
abbrev pub router_of : Option String → TargetType
router_of none = unknown
router_of (some a) = by_address (to_lowercase a)

map-if :
    (c : Bool) (a : String × TargetType) (o : Option (String × TargetType))
    → Option.map (λ (e : String × TargetType). e.1) (if c then some a else o)
      ≡ (if c then some a.1 else Option.map (λ (e : String × TargetType). e.1) o)
map-if true a o = refl
map-if false a o = refl

lookup-new :
    (s : String) → Option.map (λ (e : String × TargetType). e.1) (lookup s new) ≡ protocol_of s
unfolding new lookup insert
lookup-new s = simp map-if

of_entry :
    (to : Option String) (f : Option (String × TargetType))
    → elim f [
      | some (_, t) ↦ t
      | none ↦ elim to [ some a ↦ by_address (to_lowercase a) | none ↦ unknown ]
    ]
      ≡ elim (Option.map (λ (e : String × TargetType). e.1) f) [ some t ↦ t | none ↦ router_of to ]
of_entry none none = refl
of_entry (some a) none = refl
of_entry to (some (n, t)) = refl

determine_target_type-new :
    (to : Option String) (s : String)
    → determine_target_type new to s ≡ elim (protocol_of s) [ some t ↦ t | none ↦ router_of to ]
unfolding determine_target_type
determine_target_type-new to s = rw (← lookup-new s) (of_entry to (lookup s new))

differs_by_length : (s k : String) → 10 ≤ byte_len s → byte_len k < 10 → str_eq s k ≡ false
differs_by_length s k long short = elim (Bool-cases (str_eq s k)) [
  | inl same ↦ absurd (omega (arith, ap byte_len ((str_eq_iff s k).0 same)))
  | inr other ↦ other
]

long-has_input : (t : Transaction) → 10 ≤ byte_len t.input → has_input t ≡ true
unfolding byte_len
long-has_input t h =
    rw
      (differs_by_length t.input "" h (omega arith), differs_by_length t.input "0x" h (omega arith))

-- What becomes of a transaction `t`, in both cases of its calldata.
pub record Parsed (t : Transaction) (r : Option (Result IngestError ParsedTransaction))
    : Type 0 where
  pub parsed : ParsedTransaction
  pub returns : r ≡ some (ok parsed)
  pub same : parsed.transaction ≡ t
  pub call :
      10 ≤ byte_len t.input
      → (d : DecodedInput) × (arguments : String) × (parsed.decoded_input ≡ some d)
        × (concat d.function_signature arguments ≡ t.input)
        × (byte_len d.function_signature ≡ 10)
        × (parsed.target_type
            ≡ elim (protocol_of d.function_signature) [ some p ↦ p | none ↦ router_of t.to ])
  pub no_call :
      byte_len t.input < 10 → (parsed.decoded_input ≡ none) × (parsed.target_type ≡ router_of t.to)

parsed_call :
    (t : Transaction)
    → IsAscii t.input
    → 10 ≤ byte_len t.input
    → Parsed t (Option.map (λ i. ok (classified new t i)) (decoded_of new t))
unfolding classified
parsed_call t h long =
    let k = decode_input-Decoded new t.input h long in
    rw (long-has_input t long, k.returns)
      (record {
        parsed = classified new t (some k.decoded_input);
        returns = refl;
        same = refl;
        call = λ _. (
          k.decoded_input,
          k.arguments,
          refl,
          k.signature,
          k.length_signature,
          determine_target_type-new t.to k.decoded_input.function_signature,
        );
        no_call = λ short. absurd (omega arith);
      })

decoded_short : (t : Transaction) → byte_len t.input < 10 → decoded_of new t ≡ some none
unfolding decode_input
decoded_short t h = rw (lt→ltb (byte_len t.input) 10 h) (if-same (has_input t) (some none))

parsed_no_call :
    (t : Transaction)
    → byte_len t.input < 10
    → Parsed t (Option.map (λ i. ok (classified new t i)) (decoded_of new t))
unfolding classified
parsed_no_call t short = rw (decoded_short t short) (record {
  parsed = classified new t none;
  returns = refl;
  same = refl;
  call = λ long. absurd (omega arith);
  no_call = λ _. (refl, determine_target_type-new t.to "");
})

-- The text under a key of the announcement, as JSON-RPC names the keys.
abbrev pub text_under : {V N F : Type 0} → Json V N F → V → String → Option String
text_under j v key = and_then (j.get v key) j.as_str

-- The transaction that an announcement describes.
abbrev pub announced : {V N F : Type 0} → Json V N F → ℕ → String → String → V → Transaction
announced j now hash sender v = record {
  hash = hash;
  sender = sender;
  to = text_under j v "to";
  value = unwrap_or "0x0" (text_under j v "value");
  gas_price = unwrap_or "0x0" (text_under j v "gasPrice");
  gas_limit = unwrap_or "0x0" (text_under j v "gas");
  nonce = unwrap_or 0 (
      and_then (text_under j v "nonce")
        (λ s. from_str_radix16 64 (trim_start_matches (codes "0x") (codes s))));
  input = unwrap_or "0x" (text_under j v "input");
  timestamp = now;
}

-- Where the hash (under `hash`) and the sender (under `from`) are texts and the calldata is ASCII, the
-- transaction is parsed, with no panic. Its recipient is the text under `to` if there is one; its value,
-- gas price and gas limit are the texts under `value`, `gasPrice` and `gas`, `0x0` where there is none;
-- its calldata that under `input`, else `0x`; its nonce the hexadecimal number under `nonce`, else 0. Its
-- call is decoded exactly when the calldata has ten bytes, by their first ten, and the protocol is the
-- one that these stand for, whichever contract is called. Only where they stand for none, or there is
-- no call, does the address decide.
pub parse_transaction-Parsed :
    {V N F : Type 0} (j : Json V N F) (now : ℕ) (v : V) (hash sender : String)
    → text_under j v "hash" ≡ some hash
    → text_under j v "from" ≡ some sender
    → IsAscii (announced j now hash sender v).input
    → Parsed (announced j now hash sender v) (parse_transaction j new now v)
unfolding parse_transaction extract_transaction_fields fields_of nonce_field
parse_transaction-Parsed j now v hash sender h k ascii =
    let t = announced j now hash sender v in
    rw (h, k)
      (elim (Bool-cases (leb 10 (byte_len t.input))) [
        | inl long ↦ parsed_call t ascii (leb→le 10 (byte_len t.input) long)
        | inr short ↦ parsed_no_call t (leb_false→lt 10 (byte_len t.input) short)
      ])
