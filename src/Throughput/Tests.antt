-- ===== src/Throughput/Tests.antt =====
-- Three events over a mutex ring of two slots, and over the stream in batches of two.
use mathlib.Core.List.{Memᴰ}
use low_latency_showcase.Prelude.{
  ℕ, zero, suc, ◌+◌, ◌*◌, ◌%◌, ◌<◌, ◌≡◌, refl, List, [], ◌∷◌, replicate, length-replicate,
  All-replicate, arith, get_or,
}
use low_latency_showcase.Words.{word, is_valid_config-IsCapacity, IsCapacity}
use low_latency_showcase.Disruptor.State.{Disruptor}
use low_latency_showcase.Throughput.Queue.{push, pop}
use low_latency_showcase.Throughput.MutexRing.{
  MutexRing, IsMutexRing, mutex_ring-eq-queue, mutex_queue, mutex_ring_try_push, mutex_ring_try_pop,
  new_mutex_ring,
}
use low_latency_showcase.Throughput.SpscRing.{
  SpscRing, IsSpscRing, spsc_ring_try_push, spsc_ring_try_pop, spsc_ring-eq-queue,
}
use low_latency_showcase.Throughput.Channel.{Channel, expected_checksum}
use low_latency_showcase.Throughput.Pair.{
  Turn, producer_turn, consumer_turn, IsStretch, steps, stretches, begin,
}
use low_latency_showcase.Throughput.Pair.Finish.{stretches-finish}
use low_latency_showcase.Throughput.Rings.{queue_channel, produce_one, consume_one}
use low_latency_showcase.Throughput.Event.{Event}
use low_latency_showcase.Throughput.Stream.{stream_channel}

abbrev ring_channel : Channel 3 MutexRing
unfolding mutex_queue
ring_channel = queue_channel (mutex_queue 2 (omega arith)) 3 (omega arith)

abbrev two : IsCapacity 2
two = (is_valid_config-IsCapacity 2 1 refl).0

-- Events of eight words.
abbrev batch_channel : Channel 3 (Disruptor Event)
batch_channel = stream_channel 7 3 2 2 two (omega arith) (omega arith) (omega arith)

abbrev both : List Turn
both = producer_turn ∷ consumer_turn ∷ []

both-IsStretch : IsStretch 3 batch_channel both
unfolding IsStretch
both-IsStretch = (Memᴰ.head refl, Memᴰ.tail (Memᴰ.head refl))

stretches-finish_example :
    let p = stretches 3 batch_channel (replicate 9 both) (begin 3 batch_channel) in
    (p.consumed ≡ 3) × (p.checksum ≡ batch_channel.weight * expected_checksum 3 % word)
stretches-finish_example =
    stretches-finish 3 batch_channel (replicate 9 both) (omega arith)
      (All-replicate (IsStretch 3 batch_channel) 9 both both-IsStretch)
      (omega (arith, length-replicate 9 both))

abbrev uneven : List Turn
uneven =
    consumer_turn ∷ producer_turn ∷ producer_turn ∷ producer_turn ∷ producer_turn ∷ consumer_turn
    ∷ producer_turn ∷ consumer_turn ∷ []

-- The ring is full at the third push; after two pops the sum is 0 + 1.
uneven_result :
    let p = steps 3 ring_channel uneven (begin 3 ring_channel) in
    (p.published ≡ 3) × (p.consumed ≡ 2) × (p.checksum ≡ 1)
unfolding steps begin queue_channel mutex_queue produce_one consume_one mutex_ring_try_push
    mutex_ring_try_pop new_mutex_ring
uneven_result = (refl, refl, refl)

-- A ring whose positions are about to wrap: the write position is 0, the read position 2^64 - 1.
abbrev wrapping : SpscRing
wrapping = record { values = 5 ∷ 7 ∷ []; read = 18446744073709551615; write = 0 }

wrapping-IsSpscRing : IsSpscRing 2 wrapping (7 ∷ [])
wrapping-IsSpscRing = record {
  from = 18446744073709551615;
  read_at = refl;
  write_at = refl;
  window = record {
    array = refl;
    fits = omega arith;
    held = λ j lt.
        elim j
            as (λ k.
              k < 1
              → get_or (5 ∷ 7 ∷ []) ((18446744073709551615 + k) % 2) 0 ≡ get_or (7 ∷ []) k 0) [
                | zero ↦ λ lt'. refl
                | suc k ↦ λ lt'. absurd (omega arith)
              ]
          lt;
  };
}

spsc_ring-eq-queue_example :
    (((spsc_ring_try_push 2 9 wrapping).0 ≡ (push 2 9 (7 ∷ [])).0)
      × IsSpscRing 2 (spsc_ring_try_push 2 9 wrapping).1 (push 2 9 (7 ∷ [])).1)
    × ((spsc_ring_try_pop 2 wrapping).0 ≡ (pop (7 ∷ [])).0)
    × IsSpscRing 2 (spsc_ring_try_pop 2 wrapping).1 (pop (7 ∷ [])).1
spsc_ring-eq-queue_example = spsc_ring-eq-queue 2 two 9 wrapping (7 ∷ []) wrapping-IsSpscRing

-- A full ring, whose oldest value is in the last slot.
abbrev full_ring : MutexRing
full_ring = record { values = 5 ∷ 7 ∷ []; read_index = 1; write_index = 1; size = 2 }

abbrev queued : List ℕ
queued = 7 ∷ 5 ∷ []

full_ring-held : (j : ℕ) → j < 2 → get_or full_ring.values ((1 + j) % 2) 0 ≡ get_or queued j 0
full_ring-held zero lt = refl
full_ring-held (suc zero) lt = refl
full_ring-held (suc (suc j)) lt = absurd (omega arith)

full_ring-IsMutexRing : IsMutexRing 2 full_ring queued
full_ring-IsMutexRing = record {
  counted = refl;
  read_in = omega arith;
  write_at = refl;
  window = record { array = refl; fits = omega arith; held = full_ring-held };
}

mutex_ring-eq-queue_example :
    (((mutex_ring_try_push 2 9 full_ring).0 ≡ (push 2 9 queued).0)
      × IsMutexRing 2 (mutex_ring_try_push 2 9 full_ring).1 (push 2 9 queued).1)
    × ((mutex_ring_try_pop 2 full_ring).0 ≡ (pop queued).0)
    × IsMutexRing 2 (mutex_ring_try_pop 2 full_ring).1 (pop queued).1
mutex_ring-eq-queue_example =
    mutex_ring-eq-queue 2 (omega arith) 9 full_ring queued full_ring-IsMutexRing
