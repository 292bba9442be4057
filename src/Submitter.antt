-- ===== src/Submitter.antt =====
-- crates/mev-core/src/bundle/submitter.rs, the submitter that resubmits with a higher gas price: `Defs`
-- has its `BundleSubmitter` and `FastResubmitter`, `Bumps` what a resubmission does.
pub mod Defs
pub mod Bumps
mod Tests
