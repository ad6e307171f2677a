-- ===== src/Disruptor.antt =====
-- modules/concurrency/disruptor-single-producer: the ring, its producer and its consumers.
pub mod State
pub mod Publish
pub mod Consume
pub mod Log
pub mod Invariant
pub mod System
pub mod Threads
pub mod Weak
pub mod Debug
mod Tests
