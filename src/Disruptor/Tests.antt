-- ===== src/Disruptor/Tests.antt =====
-- The disruptor on a ring of four slots and two consumers, started two positions before the wrap
-- of the sequence.
use low_latency_showcase.Prelude.{
  ℕ, ◌+◌, ◌-◌, ◌^◌, ◌≤◌, ◌<◌, ◌≡◌, refl, Bool, true, false, ◌⊎◌, List, [], ◌∷◌, ◌++◌, arith, get_or,
  length,
}
use low_latency_showcase.Words.{word, slot, sub64, IsCapacity, is_valid_config-IsCapacity}
use low_latency_showcase.Disruptor.State.{
  Shared, ProducerCursor, Disruptor, ProducerHandle, ConsumerHandle, init, make_producer,
  synchronize_owner_state,
}
use low_latency_showcase.Disruptor.Log
use low_latency_showcase.Disruptor.Log.{Log, empty}
use low_latency_showcase.Disruptor.Invariant.{IsShared, IsCursor, IsHandle, init-IsShared}
use low_latency_showcase.Disruptor.Publish.{
  write_span, write_events, write_two_spans, try_publish_batch, handle_try_publish_batch,
  refresh_available_capacity,
}
use low_latency_showcase.Disruptor.Publish.Loop.{write_two_spans-eq-write_events}
use low_latency_showcase.Disruptor.Publish.Capacity.{
  Refreshed, refresh_available_capacity-Refreshed,
}
use low_latency_showcase.Disruptor.Publish.Contract.{
  try_publish_batch-Agrees, handle_try_publish_batch-Agrees, handle-eq-direct, publish_when_drained,
}
use low_latency_showcase.Disruptor.Consume.One.{try_consume-Takes}
use low_latency_showcase.Disruptor.Consume.{
  try_consume, read_span, read_events, read_two_spans, consume_available, handle_consume_available,
}
use low_latency_showcase.Disruptor.Consume.Loop.{read_two_spans-eq-read_events}
use low_latency_showcase.Disruptor.Consume.Refine.{advance, Takes, consume_available-Takes}
use low_latency_showcase.Disruptor.Consume.Handle.{
  HandleTakes, handle_boundary, handle_consume_available-HandleTakes,
}
use low_latency_showcase.Disruptor.System.{
  System, publish_directly, consume_directly, after_publish, after_consume, Reach, here, later,
  start,
}
use low_latency_showcase.Disruptor.System.Standing.{Next}
use low_latency_showcase.Disruptor.System.Inv.{Step-Next}
use low_latency_showcase.Disruptor.System.Safety.{
  Delivers, Reach-Delivers, Reach-no_overrun, Reach-multicast, Ahead, start-Inv,
}

abbrev near_wrap : ℕ
near_wrap = 2 ^ 64 - 2

-- The event at index `j` of a batch is 10 + j.
abbrev tens : ℕ → ℕ → ℕ
tens j old = 10 + j

-- A handler that keeps every event, newest last.
abbrev keep : ℕ → List ℕ → ℕ → ℕ → List ℕ
keep i seen event sequence = seen ++ event ∷ []

four_slots_for_two_IsCapacity : IsCapacity 4 × (0 < 2)
four_slots_for_two_IsCapacity = is_valid_config-IsCapacity 4 2 refl

abbrev four : IsCapacity 4
four = (is_valid_config-IsCapacity 4 2 refl).0

abbrev fresh : Disruptor ℕ
fresh = record {
  shared = record {
    events = 0 ∷ 0 ∷ 0 ∷ 0 ∷ [];
    published = near_wrap;
    consumers = near_wrap ∷ near_wrap ∷ [];
  };
  cursor = record {
    next_to_publish = near_wrap;
    available_before_rescan = 4;
    blocking_consumer = 0;
  };
}

abbrev nothing : Log ℕ
nothing = record { stream = λ _. 0; tail = 2 ^ 65 - 2; cursors = (2 ^ 65 - 2) ∷ (2 ^ 65 - 2) ∷ [] }

fresh-stands : IsShared 4 0 fresh.shared nothing × IsCursor 4 0 fresh.cursor nothing
unfolding init empty
fresh-stands = init-IsShared four 0 2 near_wrap (omega arith) (omega arith)

two_spans_across_the_end :
    write_two_spans 4 0 tens 2 3 (1 ∷ 2 ∷ 3 ∷ 4 ∷ [])
    ≡ write_events 4 0 tens 2 3 (1 ∷ 2 ∷ 3 ∷ 4 ∷ [])
two_spans_across_the_end =
    write_two_spans-eq-write_events four 0 tens 2 3 (1 ∷ 2 ∷ 3 ∷ 4 ∷ []) (omega arith)

two_spans_read_in_order :
    read_two_spans 4 0 (keep 0) 2 3 (1 ∷ 2 ∷ 3 ∷ 4 ∷ []) []
    ≡ read_events 4 0 (keep 0) 2 3 (1 ∷ 2 ∷ 3 ∷ 4 ∷ []) []
two_spans_read_in_order =
    read_two_spans-eq-read_events four 0 (keep 0) 2 3 (1 ∷ 2 ∷ 3 ∷ 4 ∷ []) [] (omega arith)

-- Consumer 1 is behind, and the cache has run out.
abbrev stale : ProducerCursor
stale = record { next_to_publish = 1; available_before_rescan = 0; blocking_consumer = 0 }

refresh_available_capacity-Refreshed_example :
    Refreshed 4
      (1 ∷ near_wrap ∷ [])
      stale
      2
      (refresh_available_capacity 4 (1 ∷ near_wrap ∷ []) stale 2)
refresh_available_capacity-Refreshed_example =
    refresh_available_capacity-Refreshed 4 (1 ∷ near_wrap ∷ []) stale 2 (omega arith) (omega arith)
      (omega arith)

try_publish_batch-Agrees_example :
    let (done, d) = try_publish_batch 4 0 3 tens fresh in
    let (done', l) = Log.publish 4 3 tens nothing in
    (done ≡ done') × IsShared 4 0 d.shared l × IsCursor 4 0 d.cursor l
try_publish_batch-Agrees_example =
    try_publish_batch-Agrees four 0 3 tens {d = fresh} {l = nothing} fresh-stands.0 fresh-stands.1

abbrev producer : ProducerHandle
producer = record { owned = true; cursor = fresh.cursor }

handle_try_publish_batch-Agrees_example :
    let (done, m, h) = handle_try_publish_batch 4 0 3 tens fresh.shared producer in
    let (done', l) = Log.publish 4 3 tens nothing in
    (done ≡ done') × IsShared 4 0 m l × IsCursor 4 0 h.cursor l
handle_try_publish_batch-Agrees_example =
    handle_try_publish_batch-Agrees four 0 3 tens {m = fresh.shared} producer {l = nothing}
      fresh-stands.0 fresh-stands.1

publish_when_drained_example : (try_publish_batch 4 0 4 tens fresh).0 ≡ true
publish_when_drained_example =
    publish_when_drained four 0 4 tens {d = fresh} {l = nothing} fresh-stands.0 fresh-stands.1
      (refl, (refl, tt)) (omega arith)

-- Three events published round the end of the sequence range.
abbrev filled : Shared ℕ
filled = (try_publish_batch 4 0 3 tens fresh).1.shared

abbrev three : Log ℕ
three = (Log.publish 4 3 tens nothing).1

filled-IsShared : IsShared 4 0 filled three
filled-IsShared =
    (try_publish_batch-Agrees four 0 3 tens {d = fresh} {l = nothing} fresh-stands.0
      fresh-stands.1).1

consume_available-Takes_example :
    Takes four 0
      (keep 1)
      (consume_available 4 0 (keep 1) 1 2 filled [])
      (Log.consume (keep 1) three.tail 1 2 three [])
unfolding Log.publish Log.has_room
consume_available-Takes_example =
    consume_available-Takes four 0 (keep 1) filled-IsShared 1 2 [] (omega arith)

-- A handle made before the publication: its cached boundary has nothing left.
abbrev waiting : ConsumerHandle
waiting = record {
  owned = true;
  consumer_index = 1;
  next_position = near_wrap;
  cached_published_position = near_wrap;
}

waiting-IsHandle : IsHandle 4 0 waiting (2 ^ 65 - 2) three
unfolding Log.publish Log.has_room
waiting-IsHandle = omega arith

handle_consume_available-HandleTakes_example :
    HandleTakes four 0
      (keep 1)
      (handle_boundary 2 (2 ^ 65 - 2) (2 ^ 65 - 2) three.tail)
      (handle_consume_available 4 0 (keep 1) 2 filled waiting [])
      (Log.consume (keep 1) (handle_boundary 2 (2 ^ 65 - 2) (2 ^ 65 - 2) three.tail) 1 2 three [])
unfolding Log.publish Log.has_room
handle_consume_available-HandleTakes_example =
    handle_consume_available-HandleTakes four 0 (keep 1) filled-IsShared {h = waiting}
      waiting-IsHandle 2 []

handle-eq-direct_example :
    let (done, m, h) = handle_try_publish_batch 4 0 3 tens fresh.shared (make_producer fresh) in
    ◌≡◌ {A = Bool × Disruptor ℕ}
      (done, synchronize_owner_state h (record fresh { shared = m }))
      (try_publish_batch 4 0 3 tens fresh)
handle-eq-direct_example = handle-eq-direct four 0 3 tens fresh

abbrev started : System ℕ (List ℕ)
started = start 4 0 keep 2 near_wrap []

abbrev published : System ℕ (List ℕ)
published = after_publish 4 0 keep started (try_publish_batch 4 0 3 tens started.disruptor)

abbrev consumed : System ℕ (List ℕ)
consumed =
    after_consume 4 0 keep published 0
      (consume_available 4 0 (keep 0) 0 2 published.disruptor.shared [])

-- A publication of three events, of which consumer 0 takes two.
consumed-Reach : Reach 4 0 keep 2 near_wrap [] consumed
unfolding try_publish_batch init refresh_available_capacity
consumed-Reach =
    later (later here (publish_directly 3 tens refl)) (consume_directly 0 2 (omega arith) refl)

Reach-Delivers_example :
    (l : Log ℕ) × Delivers 4 2 near_wrap 0 keep [] refl (omega arith) consumed l
Reach-Delivers_example = Reach-Delivers 4 2 near_wrap 0 keep [] refl (omega arith) consumed-Reach

both_inside : 1 < length consumed.disruptor.shared.consumers
unfolding try_publish_batch init refresh_available_capacity consume_available
both_inside = omega arith

Reach-no_overrun_example :
    sub64 consumed.disruptor.shared.published (get_or consumed.disruptor.shared.consumers 1 0) ≤ 4
Reach-no_overrun_example =
    Reach-no_overrun 4 2 near_wrap 0 keep [] refl (omega arith) consumed-Reach 1 both_inside

Reach-multicast_example :
    (l : Log ℕ) × (Ahead 4 2 near_wrap 0 keep [] refl
        (omega arith)
        (keep 1)
        l
        (consumed.states 0)
        (consumed.states 1)
      ⊎ Ahead 4 2 near_wrap 0 keep [] refl
          (omega arith)
          (keep 0)
          l
          (consumed.states 1)
          (consumed.states 0))
Reach-multicast_example =
    Reach-multicast 4 2 near_wrap 0 keep [] refl (omega arith) consumed-Reach 0 1
      (omega (arith, both_inside)) both_inside refl

-- What the calls compute: the events round the end of the ring, and what consumer 0 has seen.
consumed_runs :
    (consumed.disruptor.shared.events ≡ 12 ∷ 0 ∷ 10 ∷ 11 ∷ [])
    × (consumed.disruptor.shared.published ≡ 1)
    × (consumed.disruptor.shared.consumers ≡ 0 ∷ near_wrap ∷ [])
    × (consumed.states 0 ≡ 10 ∷ 11 ∷ [])
unfolding try_publish_batch init refresh_available_capacity consume_available slot write_span
    read_events read_span
consumed_runs = (refl, refl, refl, refl)

Step-Next_example : Next four 0 keep (word + near_wrap) [] nothing published
unfolding empty
Step-Next_example =
    Step-Next four 0 keep (word + near_wrap) [] {s = started} {t = published} {l = nothing}
      (publish_directly 3 tens refl) (start-Inv 4 2 near_wrap 0 keep [] refl (omega arith))

abbrev collect : List ℕ → ℕ → List ℕ
collect seen event = seen ++ event ∷ []

one_event_taken :
    let c = get_or three.cursors 1 0 in
    let (done, m, seen) = try_consume 4 0 collect 1 filled [] in
    ((done ≡ true)
      × (c < three.tail)
      × (seen ≡ collect [] (three.stream c))
      × IsShared 4 0 m (advance 4 0 1 (c + 1) three))
    ⊎ ((done ≡ false) × (c ≡ three.tail) × (seen ≡ []) × IsShared 4 0 m three)
unfolding Log.publish Log.has_room
one_event_taken = try_consume-Takes four 0 collect filled-IsShared 1 [] (omega arith)
