-- ===== src/Backpressure.antt =====
-- crates/mev-mempool/src/backpressure.rs, the buffer with drop policies: `Interface` says what it
-- relies on of tokio and of `f64`, `Defs` has its methods.
mod Interface
mod Defs
pub mod Accounting
pub mod Watermark
mod Tests
