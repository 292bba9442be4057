-- ===== src/Detector.antt =====
-- crates/mev-hyperliquid/src/opportunity_detector.rs, which compares the exchange's prices with those
-- it has seen: `Floats` is `f64`, `Defs` the detector and its events, `Sends` and `Soundness`
-- what it emits, `Prices` what it remembers.
pub mod Floats
pub mod Types
pub mod Defs
pub mod Loop
pub mod Sends
pub mod Soundness
pub mod Prices
mod Tests
