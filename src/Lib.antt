-- ===== src/Lib.antt =====
-- Verification of the disruptor, the socket helpers and the small programs of this repository.
--
-- The single-producer disruptor
-- (modules/concurrency/disruptor-single-producer/include/lls/concurrency/disruptor_single_producer.hpp)
-- is a ring of `Capacity` events that one producer fills and `ConsumerCount` consumers read in full.
-- Positions are 64-bit and wrap around; a slot is a position masked by `Capacity - 1`.
--   Words           wrap-around arithmetic (`add64`, `sub64`), the static assertions
--                   (`is_valid_config`), `event_at` (`slot`); Bits has the laws of the mask.
--   Disruptor.State `Shared` is storage_, published_ and consumers_, `ProducerCursor` the three
--                   producer fields, `Disruptor` both; the two handles with make_producer,
--                   make_consumer, the moves and synchronize_owner_state.
--   Disruptor.Publish  refresh_available_capacity, and try_publish and try_publish_batch of the
--                   disruptor and of producer_handle. A writer is a function from the index and the
--                   recycled event to the new event.
--   Disruptor.Consume  consume_available and try_consume of the disruptor and of consumer_handle. A
--                   handler is a fold over the state that it captures.
--   Disruptor.Log   the specification: a log of all events published, and one read position for each
--                   consumer, both unbounded. Disruptor.Invariant says when memory, cursor and handle
--                   stand for a log; Publish.Refine, Publish.Contract, Consume.Refine and
--                   Consume.Handle prove the calls against it.
--   Disruptor.System  the calls, one step each, in any order, under the rules of use that the header
--                   states: one publication path at a time, and a consumer index by one path.
--                   System.Standing says when all of it stands for a log; Publishing, Consuming and Inv keep this over a
--                   step, Safety draws the conclusions for all reachable states.
--   Disruptor.Threads  producer_handle and the consumer handles in threads of their own: Producing and
--                   Consuming take the calls apart into moves, each one access of the shared memory
--                   (an atomic load or store, or a writer or handler on one event), and System
--                   interleaves them in any order. Memory and Invariant say when memory and threads
--                   stand for a log in the middle of calls; Checking, Publishing, Taking, Others and Inv
--                   keep this over a move. Safety has the conclusions for all interleavings, WaitFree the
--                   number of moves of a call. Alone and TakingAlone compare the moves with the calls
--                   of Publish and Consume, and Uninterrupted with the log.
--   Disruptor.Weak  the same moves on the memory that acquire and release promise: Orders has the stores
--                   of each location, what a thread has read of them, and clocks that say which
--                   accesses of slots happen before which; System lets each load read any store that is
--                   not before the one that the thread read last. Clocks and Invariant read this in positions of
--                   the log; Scanning, Publishing and Producing, Loading, Reading and Consuming, and Inv keep it over a
--                   move. Safety has the order of delivery, Races that there is no data race.
--   Disruptor.Debug  `producer_state_` and the assertions of a build without NDEBUG; a failed assertion
--                   is `none`. Debug.Rules has the rules of use that they check.
--   Example         examples/basic.cpp of the module: the main thread and the two consumers, one round
--                   of a loop at a time; the handlers are parameters. Publishing and Consuming have one
--                   round each, Progress and Turns what a turn leaves to do, Finish the whole run.
--
-- The wait policies (modules/concurrency/spin-wait/include/lls/concurrency/spin_wait.hpp) are used
-- between unsuccessful polls.
--   SpinWait        the two stateless policies, and adaptive_spin_wait with `wait` and `reset`;
--                   `waits` runs a whole idle period.
--
-- The socket helpers
-- (modules/networking/low-latency-sockets/include/lls/networking/low_latency_sockets.hpp) turn system
-- calls into exact transfers.
--   Sockets.Types   the result types; `Errno` has the codes that the code tells apart.
--   Sockets.Kernel  the system calls as a parameter (`Calls`), on a state that holds the kernel, the
--                   peer, the clock and the stop predicate, and what the theorems ask of them:
--                   `SendsPrefix`, `ReceivesStream`, `TiresBlocking`, `StopsAtLast`, `Ticks`,
--                   `SendsPacket`, `ReceivesPackets`.
--   Sockets.Loop    loops of steps on fuel, and the rule that an invariant and a falling measure give
--                   a result.
--   Sockets.Stream  send_all, receive_exact_blocking, receive_exact_busy_spin; Stream.Deadline has
--                   receive_exact_busy_spin_until, whose clock is a parameter.
--   Sockets.Datagram  receive_datagram_once and the receives and sends of whole datagrams.
--   Sockets.Options  the option helpers over `OptionCalls`; an option is a pair of level and name.
--                   Readback is about any kernel, Obedient about one that holds the values that it accepts.
--
-- The throughput benchmark
-- (modules/concurrency/disruptor-single-producer/benchmarks/throughput.cpp) sends the numbers from 0 on
-- from one thread to another, which adds them up.
--   Throughput.Queue  what a bounded queue does with a list, and the interface of a ring that does it;
--                   MutexRing and SpscRing are mutex_ring and spsc_ring, Window what the arrays of
--                   both hold. A call is one step.
--   Throughput.Channel  expected_checksum, and what the two threads need of a queue or stream;
--                   Rings fills it with the loops of benchmark_mutex_ring and benchmark_spsc_ring over
--                   any Queue, Stream with those of benchmark_disruptor over the direct calls of
--                   Disruptor. Event has event, event_64, write_event and event_checksum.
--   Throughput.Pair  run_pair over any Channel: the flags ready and start, and a round of either loop
--                   as a turn. Pair.Turns has what a turn keeps and gets done, Pair.Finish the run.
--   The number of events, the capacity, the size of a batch and the payload are parameters.
--
-- The socket latency benchmark (benchmarks/scenarios/socket-latency/socket_latency.cpp):
--   SocketLatency   the wire message: write_header, read_sequence, initialize_message; Williams has
--                   williams_first_row and the order in which the runs take the workloads.
--
-- The program lls-info (apps/lls-info/main.cpp, include/lls/compiler_info.hpp):
--   CompilerInfo    the queries of the compiler; its predefined macros are a parameter (`Build`).
--   LlsInfo         `main` on the command line, as the texts written to the two streams and the exit
--                   code; how a stream writes a number is a parameter.
--
-- Fuel: every loop over system calls has fuel. It is enough if it exceeds the bytes to move and the
-- interruptions and refusals to stop that are still to come, which the law records bound by
-- `patience`; without such a bound the code need not return either. The loops of the disruptor are
-- bounded by their counts.
--
-- Not modelled: alignment, the relaxed load by which a direct `consume_available` reads the position
-- that its own thread stores, the memory orders of the benchmark's rings, the other benchmark programs
-- and parts of programs (sockets set up, threads pinned, clocks read, tables printed), and the test
-- programs. In Disruptor.Weak a thread's accesses take effect in the order of the program, as they do
-- for release stores and acquire loads alone: an order of all accesses that happens-before allows.
pub mod Prelude
pub mod Bits
pub mod Words
pub mod CompilerInfo
pub mod LlsInfo
pub mod Disruptor
pub mod Sockets
pub mod SpinWait
pub mod Example
pub mod SocketLatency
pub mod Throughput
