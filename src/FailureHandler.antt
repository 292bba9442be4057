-- ===== src/FailureHandler.antt =====
-- crates/mev-core/src/bundle/failure_handler.rs: what the bot does when a bundle fails, its kill
-- switch, and the checklist of safety measures.
pub mod Data
pub mod Defs
pub mod Resolution
pub mod Switch
pub mod Stats
pub mod Checklist
mod Tests
