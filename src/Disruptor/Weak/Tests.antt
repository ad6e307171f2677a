-- ===== src/Disruptor/Weak/Tests.antt =====
-- A ring of two slots and one consumer, started one position before the wrap of the sequence: the
-- consumer finds nothing where its load reads the old publication, then reads both events, and the
-- producer is about to write the first slot again.
use low_latency_showcase.Prelude.{
  ℕ, ◌+◌, ◌-◌, ◌%◌, ◌≤◌, ◌<◌, ◌≡◌, refl, List, [], ◌∷◌, ◌++◌, get_or, arith, update,
}
use low_latency_showcase.Words.{word, slot}
use low_latency_showcase.Disruptor.State.{init, make_producer, make_consumer}
use low_latency_showcase.Disruptor.Log.{Log, deliver}
use low_latency_showcase.Disruptor.Threads.Producing.{span_slot, begin_publish, producer_move}
use low_latency_showcase.Disruptor.Threads.Consuming.{begin_consume, consumer_move}
use low_latency_showcase.Disruptor.Threads.Invariant.{done}
use low_latency_showcase.Disruptor.Weak.Orders.{Ordered, no_accesses}
use low_latency_showcase.Disruptor.Weak.System.{
  Weak, WeakReach, here, later, publish, produce, consume, take, weak_start, produce_reading,
  take_reading,
}
use low_latency_showcase.Disruptor.Weak.Safety.{WeakReach-delivered_in_order}
use low_latency_showcase.Disruptor.Weak.Races.{WeakReach-no_race_writing, WeakReach-no_race_reading}

abbrev last_position : ℕ
last_position = 18446744073709551615

abbrev collect : ℕ → List ℕ → ℕ → ℕ → List ℕ
collect i seen event sequence = seen ++ event ∷ []

abbrev number : ℕ → ℕ → ℕ
number index old = 10 + index

abbrev begun : ℕ → Weak ℕ (List ℕ) → Weak ℕ (List ℕ)
begun count s = record s {
  system = record s.system { producer = begin_publish 2 1 0 count number s.system.producer };
}

abbrev asked : Weak ℕ (List ℕ) → Weak ℕ (List ℕ)
asked s = record s {
  system = record s.system {
    consumers =
        update s.system.consumers 0 (begin_consume 2 0 (collect 0) 3 (s.system.consumers 0));
  };
}

abbrev moved : ℕ → Weak ℕ (List ℕ) → Weak ℕ (List ℕ)
moved = produce_reading 2 1 0 collect

abbrev taken : ℕ → Weak ℕ (List ℕ) → Weak ℕ (List ℕ)
taken = take_reading 2 1 0 collect 0

abbrev s0 : Weak ℕ (List ℕ)
s0 = weak_start 2 1 0 collect last_position []

abbrev published : Weak ℕ (List ℕ)
published = moved 0 (moved 0 (moved 0 (begun 2 s0)))

published-Reach : WeakReach 2 1 0 collect last_position [] published
unfolding make_producer produce_reading begin_publish producer_move init
published-Reach =
    later (later (later (later here (publish 2 number refl)) (produce 0 tt)) (produce 0 tt))
      (produce 0 tt)

-- The consumer's first load reads the publication of the constructor, its second the new one.
abbrev missed : Weak ℕ (List ℕ)
missed = taken 0 (asked published)

abbrev loaded : Weak ℕ (List ℕ)
loaded = taken 1 (asked missed)

loaded-Reach : WeakReach 2 1 0 collect last_position [] loaded
unfolding make_producer produce_reading begin_publish producer_move init make_consumer take_reading
    begin_consume consumer_move no_accesses
loaded-Reach =
    later
      (later
        (later (later published-Reach (consume 0 3 (omega arith) refl))
          (take 0 0 (omega arith) (omega arith, omega arith)))
        (consume 0 3 (omega arith) refl))
      (take 0 1 (omega arith) (omega arith, omega arith))

abbrev emptied : Weak ℕ (List ℕ)
emptied = taken 0 (taken 0 (taken 0 loaded))

emptied-Reach : WeakReach 2 1 0 collect last_position [] emptied
unfolding make_producer produce_reading begin_publish producer_move init make_consumer take_reading
    begin_consume consumer_move no_accesses
emptied-Reach =
    later (later (later loaded-Reach (take 0 0 (omega arith) tt)) (take 0 0 (omega arith) tt))
      (take 0 0 (omega arith) tt)

abbrev rescanned : Weak ℕ (List ℕ)
rescanned = moved 0 (moved 0 (moved 1 (begun 1 emptied)))

rescanned-Reach : WeakReach 2 1 0 collect last_position [] rescanned
unfolding make_producer produce_reading begin_publish producer_move init make_consumer take_reading
    begin_consume consumer_move no_accesses
rescanned-Reach =
    later
      (later
        (later (later emptied-Reach (publish 1 number refl)) (produce 1 (omega arith, omega arith)))
        (produce 0 tt))
      (produce 0 tt)

WeakReach-no_race_reading_example : Ordered loaded.orders 0 1 1
unfolding make_producer produce_reading begin_publish producer_move init make_consumer take_reading
    begin_consume consumer_move no_accesses span_slot slot
WeakReach-no_race_reading_example =
    WeakReach-no_race_reading 2 1 last_position 0 collect [] refl (omega arith) loaded-Reach 0
      (omega arith) 1 refl

WeakReach-no_race_writing_example : Ordered rescanned.orders 1 0 1
unfolding make_producer produce_reading begin_publish producer_move init make_consumer take_reading
    begin_consume consumer_move no_accesses span_slot slot
WeakReach-no_race_writing_example =
    WeakReach-no_race_writing 2 1 last_position 0 collect [] refl (omega arith) rescanned-Reach 1
      refl 0 (omega arith)

WeakReach-delivered_in_order_example :
    (l : Log ℕ) × (loaded.system.memory.published ≡ l.tail % word)
    × ((i : ℕ)
        → i < 1
        → let position = get_or l.cursors i 0 in
          let read = done (loaded.system.consumers i).pc in
          (get_or loaded.system.memory.consumers i 0 ≡ position % word)
          × (word + last_position ≤ position)
          × (position + read ≤ l.tail)
          × (l.tail ≤ position + 2)
          × ((loaded.system.consumers i).state
              ≡ deliver
                  (collect i)
                  l.stream
                  (word + last_position)
                  (position + read - (word + last_position))
                  []))
WeakReach-delivered_in_order_example =
    WeakReach-delivered_in_order 2 1 last_position 0 collect [] refl (omega arith) loaded-Reach

-- What the last two states hold.
rescanned_state :
    ((emptied.system.consumers 0).state ≡ 10 ∷ 11 ∷ [])
    × (rescanned.orders.last_access 1 1 ≡ 1)
    × (missed.orders.last_access 0 1 ≡ 1)
    × ((missed.system.consumers 0).state ≡ [])
unfolding make_producer produce_reading begin_publish producer_move init make_consumer take_reading
    begin_consume consumer_move no_accesses span_slot slot
rescanned_state = (refl, refl, refl, refl)
