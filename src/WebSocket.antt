-- ===== src/WebSocket.antt =====
-- crates/mev-hyperliquid/src/websocket.rs, the client of HyperLiquid's feed, without its sockets:
-- `Reconnection` has the reconnection state and the back-off, with `ReconnectConfig` of types.rs;
-- `Queue` the queue of messages in front of the bot; `Subscription` the subscriptions of a coin.
pub mod Reconnection
pub mod Failures
pub mod Backoff
pub mod Queue
pub mod Subscription
pub mod Attempts
pub mod Handler
mod Tests
