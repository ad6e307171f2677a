-- ===== src/Disruptor/Threads/Tests.antt =====
-- Two threads on a ring of four slots, started two positions before the wrap of the sequence: the
-- consumer is reading the first event while the producer is writing the third.
use low_latency_showcase.Prelude.{
  ℕ, ◌+◌, ◌-◌, ◌%◌, ◌^◌, ◌≤◌, ◌<◌, ◌≡◌, ◌≢◌, refl, true, List, [], ◌∷◌, ◌++◌, get_or, replicate,
  arith,
}
use low_latency_showcase.Words.{word, IsCapacity, slot, is_valid_config-IsCapacity}
use low_latency_showcase.Disruptor.State.{
  Shared, ProducerHandle, ConsumerHandle, init, make_producer, make_consumer,
}
use low_latency_showcase.Disruptor.Log
use low_latency_showcase.Disruptor.Invariant.{IsShared, IsCursor, IsHandle, init-IsShared}
use low_latency_showcase.Disruptor.Log.{Log, deliver, empty}
use low_latency_showcase.Disruptor.Publish.{handle_try_publish_batch}
use low_latency_showcase.Disruptor.Publish.Contract.{handle_try_publish_batch-Agrees}
use low_latency_showcase.Disruptor.Consume.Handle.{handle_boundary}
use low_latency_showcase.Disruptor.Threads.Producing.{
  ProducerPc, span_slot, begin_publish, producer_move, producer_slot,
}
use low_latency_showcase.Disruptor.Threads.Consuming.{
  ConsumerPc, begin_consume, consumer_move, consumer_slot,
}
use low_latency_showcase.Disruptor.Threads.System.{
  Threads, Reach, here, later, publish, produce, consume, take, start, after_producer,
  after_consumer,
}
use low_latency_showcase.Disruptor.Threads.Invariant.{done, View}
use low_latency_showcase.Disruptor.Threads.Inv.{Onward, Step-Onward}
use low_latency_showcase.Disruptor.Threads.Safety.{
  start-View, Reach-race_free, Reach-delivered_in_order,
}
use low_latency_showcase.Disruptor.Threads.WaitFree.{
  producer_moves, consumer_moves, HasReturned, HasTaken, publish_wait_free, consume_wait_free,
}
use low_latency_showcase.Disruptor.Threads.Uninterrupted.{
  Publishes, Draws, publish_uninterrupted, consume_uninterrupted,
}

abbrev near_wrap : ℕ
near_wrap = 18446744073709551614

abbrev collect : ℕ → List ℕ → ℕ → ℕ → List ℕ
collect i seen event sequence = seen ++ event ∷ []

abbrev number : ℕ → ℕ → ℕ
number index old = 10 + index

abbrev s0 : Threads ℕ (List ℕ)
s0 = start 4 2 0 collect near_wrap []

abbrev moved : Threads ℕ (List ℕ) → Threads ℕ (List ℕ)
moved s = after_producer 4 2 0 collect s (producer_move 4 2 0 s.memory s.producer)

abbrev begun : ℕ → Threads ℕ (List ℕ) → Threads ℕ (List ℕ)
begun count s = record s { producer = begin_publish 4 2 0 count number s.producer }

abbrev asked : Threads ℕ (List ℕ) → Threads ℕ (List ℕ)
asked s =
    after_consumer 4 2 0 collect s 1 (s.memory, begin_consume 4 0 (collect 1) 3 (s.consumers 1))

abbrev taken : Threads ℕ (List ℕ) → Threads ℕ (List ℕ)
taken s = after_consumer 4 2 0 collect s 1 (consumer_move 4 0 (collect 1) s.memory (s.consumers 1))

-- Two events published; consumer 1 has loaded the publication; a batch of two begun.
abbrev published : Threads ℕ (List ℕ)
published = moved (moved (moved (begun 2 s0)))

abbrev racing : Threads ℕ (List ℕ)
racing = begun 2 (taken (asked published))

published-Reach : Reach 4 2 0 collect near_wrap [] published
unfolding make_producer
published-Reach = later (later (later (later here (publish 2 number refl)) produce) produce) produce

racing-Reach : Reach 4 2 0 collect near_wrap [] racing
unfolding begin_publish producer_move make_producer make_consumer init
racing-Reach =
    later (later (later published-Reach (consume 1 3 (omega arith) refl)) (take 1 (omega arith)))
      (publish 2 number refl)

Reach-race_free_example : ◌≢◌ {A = ℕ} 0 2
unfolding span_slot slot begin_publish producer_move producer_slot consumer_slot begin_consume
    consumer_move make_producer make_consumer init
Reach-race_free_example =
    Reach-race_free 4 2 near_wrap 0 collect [] refl (omega arith) racing-Reach 1 (omega arith) 0 2
      refl refl

Reach-delivered_in_order_example :
    (l : Log ℕ) × (racing.memory.published ≡ l.tail % word)
    × ((i : ℕ)
        → i < 2
        → let position = get_or l.cursors i 0 in
          (get_or racing.memory.consumers i 0 ≡ position % word)
          × (word + near_wrap ≤ position)
          × (position + done (racing.consumers i).pc ≤ l.tail)
          × (l.tail ≤ position + 4)
          × ((racing.consumers i).state
              ≡ deliver
                  (collect i)
                  l.stream
                  (word + near_wrap)
                  (position + done (racing.consumers i).pc - (word + near_wrap))
                  []))
Reach-delivered_in_order_example =
    Reach-delivered_in_order 4 2 near_wrap 0 collect [] refl (omega arith) racing-Reach

new_threads-stand : View 4 2 0 collect (word + near_wrap) [] s0 (empty 0 2 near_wrap)
new_threads-stand = start-View 4 2 near_wrap 0 collect [] refl (omega arith)

Step-Onward_example :
    Onward
      (is_valid_config-IsCapacity 4 2 refl).0
      2
      0
      collect
      (word + near_wrap)
      []
      (empty 0 2 near_wrap)
      (begun 2 s0)
unfolding make_producer
Step-Onward_example =
    Step-Onward (is_valid_config-IsCapacity 4 2 refl).0 2 0 collect (word + near_wrap) []
      (publish 2 number refl) new_threads-stand

publish_wait_free_example :
    HasReturned 4 2 0
      (producer_moves 4 2 0 (replicate 7 racing.memory) (begin_publish 4 2 0 2 number s0.producer))
publish_wait_free_example =
    publish_wait_free 4 2 0 2 number s0.producer (replicate 7 racing.memory) (omega arith)

consume_wait_free_example : HasTaken 4 0 (collect 1) (
    consumer_moves 4 0
      (collect 1)
      (replicate 5 racing.memory)
      (begin_consume 4 0 (collect 1) 3 (s0.consumers 1)))
consume_wait_free_example =
    consume_wait_free 4 0 (collect 1) 3 (s0.consumers 1) (replicate 5 racing.memory) (omega arith)

abbrev handle : ProducerHandle
handle = make_producer {A = ℕ} (init 0 4 2 near_wrap)

abbrev four : IsCapacity 4
four = (is_valid_config-IsCapacity 4 2 refl).0

abbrev nothing : Log ℕ
nothing = empty 0 2 near_wrap

fresh_stands :
    IsShared 4 0 (init 0 4 2 near_wrap).shared nothing × IsCursor 4 0 handle.cursor nothing
unfolding make_producer
fresh_stands = init-IsShared four 0 2 near_wrap (omega arith) (omega arith)

publish_uninterrupted_example :
    Publishes 4 2 0
      (
        (init 0 4 2 near_wrap).shared,
        begin_publish 4 2 0 3 number
            (record { cursor = handle.cursor; pc = ProducerPc.returned true }),
      )
      (Log.publish 4 3 number nothing)
unfolding empty
publish_uninterrupted_example =
    publish_uninterrupted four 0 3 number (init 0 4 2 near_wrap).shared handle
      (ProducerPc.returned true) {l = nothing} fresh_stands.0 fresh_stands.1

abbrev filled : Shared ℕ
filled = (handle_try_publish_batch 4 0 3 number (init 0 4 2 near_wrap).shared handle).1

abbrev three : Log ℕ
three = (Log.publish 4 3 number nothing).1

filled-IsShared : IsShared 4 0 filled three
filled-IsShared =
    (handle_try_publish_batch-Agrees four 0 3 number handle {l = nothing} fresh_stands.0
      fresh_stands.1).1

-- A handle made before the publication: its cached boundary has nothing left.
abbrev waiting : ConsumerHandle
waiting = record {
  owned = true;
  consumer_index = 1;
  next_position = near_wrap;
  cached_published_position = near_wrap;
}

waiting-IsHandle : IsHandle 4 0 waiting (2 ^ 65 - 2) three
unfolding Log.publish Log.has_room empty
waiting-IsHandle = omega arith

abbrev reached : ℕ
reached = handle_boundary 2 (2 ^ 65 - 2) (get_or three.cursors 1 0) three.tail

consume_uninterrupted_example :
    Draws 4 0
      (collect 1)
      reached
      (
        filled,
        begin_consume 4 0
            (collect 1)
            2
            (record { handle = waiting; pc = ConsumerPc.returned 0; state = [] }),
      )
      (Log.consume (collect 1) reached 1 2 three [])
consume_uninterrupted_example =
    consume_uninterrupted four 0 (collect 1) 2 filled waiting (ConsumerPc.returned 0) []
      filled-IsShared waiting-IsHandle
