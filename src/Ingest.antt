-- ===== src/Ingest.antt =====
-- crates/mev-mempool/src/parser.rs and abi_decoder.rs: the reading of the transactions that the
-- mempool announces.
pub mod Abi
mod Slices
mod Parsing
mod Hex
mod Tests
pub mod Defs
