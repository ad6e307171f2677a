-- ===== src/Disruptor/Threads.antt =====
-- The producer's handle and the consumers' handles at work in threads of their own: one move is one
-- access of the memory that they share, with what the thread does on its own up to the next.
pub mod Producing
pub mod Consuming
pub mod System
pub mod Memory
pub mod Invariant
pub mod Checking
pub mod Publishing
pub mod Taking
pub mod Others
pub mod Inv
pub mod Safety
pub mod WaitFree
pub mod Alone
pub mod TakingAlone
pub mod Uninterrupted
mod Tests
