-- ===== src/Submission.antt =====
-- crates/mev-core/src/bundle/submission.rs, the submission of bundles: `Defs` has `BundleSubmitter`,
-- `Direct` the path transaction by transaction, `Attempts` what is kept of the attempts.
pub mod Defs
pub mod Direct
pub mod Attempts
mod Tests
