-- ===== src/Disruptor/Weak.antt =====
-- The threads of Threads on the memory that the header's memory orders promise: a load may read a
-- store that is not the latest, and accesses of slots are ordered by acquire and release alone.
pub mod Orders
pub mod System
pub mod Clocks
pub mod Invariant
pub mod Scanning
pub mod Publishing
pub mod Producing
pub mod Loading
pub mod Reading
pub mod Consuming
pub mod Inv
pub mod Safety
pub mod Races
mod Tests
