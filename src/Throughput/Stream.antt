-- ===== src/Throughput/Stream.antt =====
-- benchmark_disruptor: batches by direct calls, for both types of event and any size of batch.
use native.Mathlib.Nat.{add-zero}
use low_latency_showcase.Prelude.{
  ℕ, ◌+◌, ◌-◌, ◌*◌, ◌%◌, ◌≤◌, ◌<◌, ◌≡◌, refl, ap, inl, inr, true, false, [], ◌∷◌, length, get_or,
  set, replicate, min, All-get_or, arith, Bool-cases, ltb, leb, ◌==◌, dec_lt, if◌then◌else◌,
}
use low_latency_showcase.Words.{word, add64, IsCapacity}
use low_latency_showcase.Disruptor.State.{Disruptor, init}
use low_latency_showcase.Disruptor.Log.{Log, append, deliver, has_room, empty}
use low_latency_showcase.Disruptor.Log
use low_latency_showcase.Disruptor.Invariant.{IsShared, IsCursor, init-IsShared}
use low_latency_showcase.Disruptor.Publish.{try_publish_batch}
use low_latency_showcase.Disruptor.Publish.Contract.{try_publish_batch-Agrees}
use low_latency_showcase.Disruptor.Consume.{consume_available}
use low_latency_showcase.Disruptor.Consume.Refine.{consume_available-Takes, advance-IsCursor}
use low_latency_showcase.Throughput.Channel.{Channel, sum_below}
use low_latency_showcase.Throughput.Event.{Event, write_event, add_event, deliver-sum_below}

module _ (payload_words events capacity batch_size : ℕ) where
  abbrev initial_event : Event
  initial_event = record { value = 0; payload = replicate payload_words 0 }

  -- A round of the producer's loop.
  unfoldable pub produce_batch : ℕ → Disruptor Event → ℕ × Disruptor Event
  produce_batch published stream =
      let remaining = events - published in
      let count = if ltb remaining batch_size then remaining else batch_size in
      let (done, stream') =
        try_publish_batch capacity initial_event count
          (λ index output. write_event payload_words (add64 published index)) stream in
      (if done then count else 0, stream')

  -- A round of the consumer's loop.
  unfoldable pub consume_batch : Disruptor Event → ℕ → ℕ × Disruptor Event × ℕ
  consume_batch stream checksum =
      let (n, m, checksum') =
        consume_available capacity initial_event (add_event payload_words) 0 batch_size
          stream.shared checksum in
      (n, record stream { shared = m }, checksum')

  -- The stream is in step with a log of the numbers.
  pub record HoldsNumbers (d : Disruptor Event) (consumed published : ℕ) : Type 0 where
    pub log : Log Event
    pub shared : IsShared capacity initial_event d.shared log
    pub cursor : IsCursor capacity initial_event d.cursor log
    pub tail : log.tail ≡ word + published
    pub cursors : log.cursors ≡ (word + consumed) ∷ []
    pub written : (k : ℕ) → k < published → log.stream (word + k) ≡ write_event payload_words k
    pub bounded : published ≤ events

  module _ (ok : IsCapacity capacity) (fits : batch_size ≤ capacity) (some : 0 < batch_size)
      (small : events < word) where
    pub new-HoldsNumbers : HoldsNumbers (init initial_event capacity 1 0) 0 0
    unfolding empty
    new-HoldsNumbers =
        let (shared, cursor) = init-IsShared ok initial_event 1 0 (omega arith) (omega arith) in
        record {
          log = empty initial_event 1 0;
          shared = shared;
          cursor = cursor;
          tail = refl;
          cursors = refl;
          written = λ k lt. absurd (omega arith);
          bounded = omega arith;
        }

    publish-HoldsNumbers :
        (d : Disruptor Event) (consumed published count : ℕ)
        → HoldsNumbers d consumed published
        → 0 < count
        → count ≤ capacity
        → published + count ≤ events
        → let (done, d') =
            try_publish_batch capacity initial_event count
              (λ index output. write_event payload_words (add64 published index))
              d in
          let n = if done then count else 0 in
          HoldsNumbers d' consumed (published + n)
          × (published + n ≤ events)
          × ((consumed ≡ published) → 0 < n)
    unfolding Log.publish append has_room
    publish-HoldsNumbers d consumed published count v something allowed enough =
        let l = v.log in
        let (answer, shared, cursor) =
          try_publish_batch-Agrees ok initial_event count
            (λ index output. write_event payload_words (add64 published index)) v.shared v.cursor in
        let nonempty : (count == 0) ≡ false = ground arith in
        let within : leb count capacity ≡ true = ground arith in
        elim (Bool-cases (has_room capacity (l.tail + count) l.cursors)) [
          | inl free ↦ rw (rw (nonempty, within, free) at answer) (
            record {
              log = _;
              shared = rw (nonempty, within, free) at shared;
              cursor = rw (nonempty, within, free) at cursor;
              tail = rw v.tail (omega arith);
              cursors = v.cursors;
              written = λ k lt. elim (dec_lt k published) [
                | yes old ↦
                    let before : leb l.tail (word + k) ≡ false = ground (arith, v.tail) in
                    rw before (v.written k old)
                | no new ↦
                    let from : leb l.tail (word + k) ≡ true = ground (arith, v.tail) in
                    let upto : ltb (word + k) (l.tail + count) ≡ true = ground (arith, v.tail) in
                    let number : add64 published (word + k - l.tail) ≡ k =
                      rw v.tail (omega arith) in
                    rw (from, upto, number) refl
              ];
              bounded = enough;
            },
            enough,
            λ e. something,
          )
          | inr full ↦
              let close = rw v.cursors at full in
              rw (rw (nonempty, within, full) at answer, add-zero)
                (
                  record {
                    log = l;
                    shared = rw (nonempty, within, full) at shared;
                    cursor = rw (nonempty, within, full) at cursor;
                    tail = v.tail;
                    cursors = v.cursors;
                    written = v.written;
                    bounded = v.bounded;
                  },
                  v.bounded,
                  λ e. absurd (ground (arith, close, v.tail)),
                )
        ]

    pub produce_batch-HoldsNumbers :
        (d : Disruptor Event) (consumed published : ℕ)
        → HoldsNumbers d consumed published
        → published < events
        → let (n, d') = produce_batch published d in
          HoldsNumbers d' consumed (published + n)
          × (published + n ≤ events)
          × ((consumed ≡ published) → 0 < n)
    unfolding produce_batch
    produce_batch-HoldsNumbers d consumed published v lt =
        elim (Bool-cases (ltb (events - published) batch_size)) [
          | inl last ↦ rw last (
              publish-HoldsNumbers d consumed published (events - published) v (omega arith)
                (ground arith) (omega arith))
          | inr whole ↦
              rw whole
                (publish-HoldsNumbers d consumed published batch_size v some fits (ground arith))
        ]

    pub consume_batch-HoldsNumbers :
        (d : Disruptor Event) (consumed published checksum : ℕ)
        → HoldsNumbers d consumed published
        → checksum ≡ (1 + payload_words) * sum_below consumed % word
        → let (n, d', checksum') = consume_batch d checksum in
          HoldsNumbers d' (consumed + n) published
          × (consumed + n ≤ published)
          × (checksum' ≡ (1 + payload_words) * sum_below (consumed + n) % word)
          × (consumed < published → 0 < n)
    unfolding consume_batch Log.consume
    consume_batch-HoldsNumbers d consumed published checksum v summed =
        let l = v.log in
        let lt : 0 < length l.cursors = rw v.cursors (omega arith) in
        let (answer, shared, total) =
          consume_available-Takes ok initial_event (add_event payload_words) v.shared 0 batch_size
            checksum lt in
        let near = All-get_or _ l.cursors 0 0 v.shared.within lt in
        let at : get_or l.cursors 0 0 ≡ word + consumed = rw v.cursors refl in
        let n = min batch_size (published - consumed) in
        let left : l.tail - (word + consumed) ≡ published - consumed = rw v.tail (omega arith) in
        let bounded = v.bounded in
        let behind : consumed ≤ published = omega (arith, rw (at, v.tail) at near) in
        rw (answer, total, at, left)
          (
            record {
              log = record l { cursors = set l.cursors 0 (word + consumed + n) };
              shared = rw (at, left) at shared;
              cursor =
                  advance-IsCursor capacity initial_event 0 (word + consumed + n) v.cursor lt
                    (rw at (omega arith));
              tail = v.tail;
              cursors = rw v.cursors (ap (λ x. x ∷ []) (omega arith));
              written = v.written;
              bounded = v.bounded;
            },
            omega arith,
            deliver-sum_below payload_words l.stream consumed n checksum (omega arith)
                (λ k below. v.written k (omega arith)) summed,
            λ more. omega arith,
          )

    unfoldable pub stream_channel : Channel events (Disruptor Event)
    stream_channel = record {
      weight = 1 + payload_words;
      new = init initial_event capacity 1 0;
      produce = produce_batch;
      consume = consume_batch;
      Holds = HoldsNumbers;
      new-Holds = new-HoldsNumbers;
      produces = produce_batch-HoldsNumbers;
      consumes = consume_batch-HoldsNumbers;
    }
