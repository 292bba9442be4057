-- ===== src/Parser.antt =====
-- crates/mev-hyperliquid/src/parser.rs, the parser of the exchange's text messages: `Json` is the
-- library that reads JSON, `Types` the messages (types.rs), `Defs` and `Message` the parser, `Checks` what
-- validation asks for, `RoundTrip` the messages as the exchange writes them.
pub mod Json
pub mod Types
pub mod Defs
pub mod Message
pub mod Checks
pub mod RoundTrip
pub mod Samples
mod Tests
