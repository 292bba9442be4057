-- ===== src/Tracker.antt =====
-- crates/mev-core/src/bundle/execution_tracker.rs, which watches for submitted bundles in new
-- blocks, with `Bundle` and `SignedTransaction` of bundle/types.rs.
pub mod Defs
pub mod Inclusion
pub mod Ordering
pub mod Gas
pub mod Cleanup
mod Tests
