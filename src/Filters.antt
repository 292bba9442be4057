-- ===== src/Filters.antt =====
-- crates/mev-mempool/src/filters.rs: the rules that a transaction passes before it reaches the
-- strategies. `Conditions` has the rules and their conditions, `Limiter` the rate limiter, and
-- `Engine` the `FilterEngine`; the other modules prove what they show.
pub mod Conditions
pub mod Limiter
pub mod Engine
pub mod Order
pub mod Accounting
pub mod Verdict
pub mod Window
pub mod Templates
mod Tests
