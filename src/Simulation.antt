-- ===== src/Simulation.antt =====
-- crates/mev-core/src/simulation_optimizer.rs, the simulation of bundles in batches: `Defs` has the
-- accounts, one simulation, the safety checks and the batch; `Safety` what the checks accept, `Pool`
-- the order of the accounts.
pub mod Defs
pub mod Safety
pub mod Pool
mod Tests
