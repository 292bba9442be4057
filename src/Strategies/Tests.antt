-- ===== src/Strategies/Tests.antt =====
-- A swap of five thousand ETH that no strategy looks at.
use botmev.Prelude.{ℕ, ◌-◌, ◌*◌, ◌/◌, ◌^◌, none, List, [], ◌∷◌, ltb, leb, min}
use botmev.Types.{ParsedTransaction, uniswap_v2}
use botmev.Parser.Samples.{Value, text, object, reading}
use botmev.Ingest.Defs.{fields_of}
use botmev.Ingest.Abi.{AbiDecoder}
use botmev.Strategies.Unread.{Unread}

abbrev announcement : Value
announcement = object (
    ("hash", text "0xaa")
    ∷ ("from", text "0xbb")
    ∷ ("to", text "0x7a250d5630b4cf539739df2c5dacb4c659f2488d")
    ∷ ("value", text "0x10f0cf064dd59200000")
    ∷ [])

abbrev parsed : ParsedTransaction
parsed = record {
  transaction = fields_of (reading announcement) 5 "0xaa" "0xbb" announcement;
  decoded_input = none;
  target_type = uniswap_v2;
  processing_time_ms = 0;
}

-- With an empty table, so that the address decides.
abbrev table : AbiDecoder
table = []
