-- ===== src/DecisionPath.antt =====
-- crates/mev-core/src/decision_path.rs: the pipeline of filter, simulation and bundle workers.
pub mod Workers
pub mod Defs
mod Start
mod Balance
mod Channels
mod Safety
mod Turns
mod Stopping
mod Tests
