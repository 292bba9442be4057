-- ===== src/Adapter.antt =====
-- crates/mev-hyperliquid/src/adapter.rs: trades of the exchange as swaps.
pub mod Defs
mod Swaps
mod Mirror
mod Tests
