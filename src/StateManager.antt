-- ===== src/StateManager.antt =====
-- crates/mev-core/src/state_manager.rs: the chain's head and recent headers, reorg detection, and
-- the pool of pending transactions with the nonces seen. `Defs` has the state and its operations.
pub mod Data
pub mod Defs
pub mod Chain
pub mod Pending
mod Tests
