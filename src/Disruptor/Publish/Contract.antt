-- ===== src/Disruptor/Publish/Contract.antt =====
-- The two publication paths, each against the log, and against one another.
use low_latency_showcase.Prelude.{
  ℕ, ◌+◌, ◌≤◌, ◌≡◌, refl, Bool, true, inl, inr, All, All-mono, arith, ltb, Bool-cases,
}
use low_latency_showcase.Words.{IsCapacity}
use low_latency_showcase.Disruptor.State.{
  Shared, ProducerCursor, Disruptor, ProducerHandle, make_producer, synchronize_owner_state,
}
use low_latency_showcase.Disruptor.Log
use low_latency_showcase.Disruptor.Log.{Log, has_room}
use low_latency_showcase.Disruptor.Invariant.{IsShared, IsCursor, All→has_room}
use low_latency_showcase.Disruptor.Publish.{
  write_events, write_two_spans, commit, publish_with, try_publish_batch, handle_try_publish_batch,
  refresh_available_capacity,
}
use low_latency_showcase.Disruptor.Publish.Loop.{write_two_spans-eq-write_events}
use low_latency_showcase.Disruptor.Publish.Refine.{publish_with-Agrees}

module _ {ℓ} {A : Type ℓ} {capacity : ℕ} (ok : IsCapacity capacity) (default : A) where
  module _ (count : ℕ) (writer : ℕ → A → A) where
    -- For a disruptor whose memory and producer's cursor stand for a log, a direct batch of any
    -- size answers as the log's `publish`, and leaves memory and cursor standing for the log that
    -- this leaves: all of the batch, or nothing.
    pub try_publish_batch-Agrees :
        {d : Disruptor A} {l : Log A}
        → IsShared capacity default d.shared l
        → IsCursor capacity default d.cursor l
        → let (done, d') = try_publish_batch capacity default count writer d in
          let (done', l') = Log.publish capacity count writer l in
          (done ≡ done')
          × IsShared capacity default d'.shared l'
          × IsCursor capacity default d'.cursor l'
    unfolding try_publish_batch
    try_publish_batch-Agrees v w =
        publish_with-Agrees ok default (write_events capacity default writer) writer
          (λ first count events fits. refl) v count w

    -- For a memory and a producer handle whose cursor stand for a log, a batch of any size by the
    -- handle answers as the log's `publish`, and leaves both standing for the log that this leaves.
    pub handle_try_publish_batch-Agrees :
        {m : Shared A} (h : ProducerHandle) {l : Log A}
        → IsShared capacity default m l
        → IsCursor capacity default h.cursor l
        → let (done, m', h') = handle_try_publish_batch capacity default count writer m h in
          let (done', l') = Log.publish capacity count writer l in
          (done ≡ done') × IsShared capacity default m' l' × IsCursor capacity default h'.cursor l'
    unfolding handle_try_publish_batch
    handle_try_publish_batch-Agrees h v w =
        publish_with-Agrees ok default (write_two_spans capacity default writer) writer
          (write_two_spans-eq-write_events ok default writer) v count w

    commit-same :
        (m : Shared A) (c : ProducerCursor)
        → count ≤ capacity
        → commit capacity default (write_two_spans capacity default writer) count m c
          ≡ commit capacity default (write_events capacity default writer) count m c
    unfolding commit
    commit-same m c le =
        rw (write_two_spans-eq-write_events ok default writer c.next_to_publish count m.events le)

    publish_with-same :
        (m : Shared A) (c : ProducerCursor)
        → publish_with capacity default (write_two_spans capacity default writer) count m c
          ≡ publish_with capacity default (write_events capacity default writer) count m c
    unfolding publish_with
    publish_with-same m c =
        let c' = (refresh_available_capacity capacity m.consumers c count).1 in
        elim (Bool-cases (ltb capacity count)) [
          | inl big ↦ rw big
          | inr fits ↦
              let le : count ≤ capacity = ground arith in
              rw (commit-same m c le, commit-same m c' le)
        ]

    -- Making a handle, publishing a batch by it and destroying it has on every disruptor the answer
    -- and the effect of publishing the batch directly, with a capacity that the static
    -- assertions accept.
    pub handle-eq-direct :
        (d : Disruptor A)
        → let (done, m, h) =
            handle_try_publish_batch capacity default count writer d.shared (make_producer d) in
          ◌≡◌ {A = Bool × Disruptor A}
            (done, synchronize_owner_state h (record d { shared = m }))
            (try_publish_batch capacity default count writer d)
    unfolding handle_try_publish_batch try_publish_batch make_producer synchronize_owner_state
    handle-eq-direct d =
        let same = publish_with-same d.shared d.cursor in
        λ i. ((same i).0, record { shared = (same i).1; cursor = (same i).2 })

  -- For a disruptor that stands for a log, with every consumer at the log's tail, a direct batch of
  -- at most `capacity` events is published.
  pub publish_when_drained :
      (count : ℕ) (writer : ℕ → A → A) {d : Disruptor A} {l : Log A}
      → IsShared capacity default d.shared l
      → IsCursor capacity default d.cursor l
      → All (λ c. c ≡ l.tail) l.cursors
      → count ≤ capacity
      → (try_publish_batch capacity default count writer d).0 ≡ true
  unfolding Log.publish
  publish_when_drained count writer {d} {l} v w drained fits =
      let room : has_room capacity (l.tail + count) l.cursors ≡ true =
        All→has_room capacity (l.tail + count) l.cursors
          (All-mono _ _ l.cursors (λ c e. omega arith) drained) in
      ground (arith, (try_publish_batch-Agrees count writer v w).0)
