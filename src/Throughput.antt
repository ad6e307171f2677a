-- ===== src/Throughput.antt =====
-- modules/concurrency/disruptor-single-producer/benchmarks/throughput.cpp: one producer sends the
-- numbers from 0 on to a consumer, which adds them up; the sum is checked at the end.
pub mod Queue
pub mod Window
pub mod MutexRing
pub mod SpscRing
pub mod Channel
pub mod Pair
pub mod Rings
pub mod Event
pub mod Stream
mod Tests
