-- ===== src/RingBuffer.antt =====
-- crates/mev-mempool/src/ring_buffer.rs: the buffer between the mempool's parser and its
-- consumers. `crossbeam::queue::ArrayQueue` is the parameter `Q` of `RingBuffer/Interface.antt`.
-- `RingBuffer/Shared.antt` has the handles (clones and consumers) that share one queue.
pub mod Interface
pub mod Defs
pub mod Shared
pub mod Laws
pub mod Fifo
mod Tests
