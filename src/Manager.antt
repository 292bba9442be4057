-- ===== src/Manager.antt =====
-- crates/mev-hyperliquid/src/service_manager.rs, which runs the feed and the polling side by side:
-- `Feed` has the conversion of messages for the detector, `Polling` the loop of the polling, `Stopping`
-- the start and the stop of the tasks.
pub mod Feed
pub mod Polling
pub mod Stopping
mod Tests
