-- ===== src/Disruptor/Threads/Alone.antt =====
-- A call whose moves no other thread's come between is the call as one step.
use native.Mathlib.Nat.{zero-add, add-zero}
use low_latency_showcase.Prelude.{
  ℕ, zero, suc, ◌+◌, ◌<◌, ◌≡◌, refl, sym, ap, ◌∙◌, inl, inr, Bool, true, false, List, [], ◌∷◌,
  length, get_or, arith, Bool-cases, ltb, leb, ◌==◌, if◌then◌else◌,
}
use low_latency_showcase.Words.{sub64, slot}
use low_latency_showcase.Disruptor.State.{Shared, ProducerCursor, ProducerHandle}
use low_latency_showcase.Disruptor.Publish.{
  scan, settle, refresh_available_capacity, contiguous_count, write_span, write_two_spans, commit,
  publish_with, handle_try_publish_batch,
}
use low_latency_showcase.Disruptor.Publish.Loop.{write_span-split}
use low_latency_showcase.Disruptor.Threads.Producing.{
  ProducerPc, scanning, writing, Producer, span_slot, begin_publish, scan_move, load_blocker,
  write_move, store_published, pc_move, producer_move,
}

module _ {ℓ} {A : Type ℓ} (capacity consumer_count : ℕ) (default : A) where
  unfoldable pub producer_run : ℕ → Shared A × Producer A → Shared A × Producer A
  producer_run zero x = x
  producer_run (suc k) x = producer_run k (producer_move capacity consumer_count default x.0 x.1)

  -- Some number of moves leads from one state to another.
  pub record Runs (x y : Shared A × Producer A) : Type ℓ where
    pub moves : ℕ
    pub leads : producer_run moves x ≡ y

  Runs-refl : (x : Shared A × Producer A) → Runs x x
  unfolding producer_run
  Runs-refl x = record { moves = 0; leads = refl }

  -- One move, and the rest of the run.
  Runs-cons :
      (x y : Shared A × Producer A)
      → Runs (producer_move capacity consumer_count default x.0 x.1) y
      → Runs x y
  unfolding producer_run
  Runs-cons x y r = record { moves = suc r.moves; leads = r.leads }

  module _ (count : ℕ) (writer : ℕ → A → A) where
    abbrev written : ℕ → ℕ → ProducerCursor → List A → List A
    written n index c =
        write_span capacity default writer (span_slot capacity c.next_to_publish count) n index

    -- What the rest of a call leaves once it writes.
    abbrev finished : List A → Shared A → ProducerCursor → Shared A × Producer A
    finished events m c =
        let (m', c') = store_published capacity consumer_count default count m c in
        (record m' { events = events }, record { cursor = c'; pc = ProducerPc.returned true })

    writing-Runs :
        (n index : ℕ) (m : Shared A) (c : ProducerCursor)
        → index + n ≡ count
        → Runs
            (m, record { cursor = c; pc = writing count writer index })
            (finished (written n index c m.events) m c)
    unfolding producer_move pc_move write_move write_span
    writing-Runs zero index m c e =
        let stop : ltb index count ≡ false = ground arith in
        Runs-cons _ _ (rw stop (unfold store_published in Runs-refl _))
    writing-Runs (suc n) index m c e =
        let more : ltb index count ≡ true = ground arith in
        Runs-cons _ _
          (rw more (unfold store_published in writing-Runs n (index + 1) _ c (omega arith)))

    -- The loops over the spans visit the slots of the moves.
    written-eq-write_two_spans :
        (c : ProducerCursor) (events : List A)
        → written count 0 c events
          ≡ write_two_spans capacity default writer c.next_to_publish count events
    unfolding write_two_spans span_slot contiguous_count
    written-eq-write_two_spans c events =
        let first_index = slot capacity c.next_to_publish in
        let contiguous = contiguous_count capacity first_index count in
        sym (
          write_span-split capacity default writer (span_slot capacity c.next_to_publish count) _ _
            contiguous count events (ground arith) (λ j lt. ground arith) (λ j lo hi. ground arith))

    commit-Runs :
        (m : Shared A) (c : ProducerCursor)
        → let (done, m', c') =
            commit capacity default (write_two_spans capacity default writer) count m c in
          Runs
            (m, record { cursor = c; pc = writing count writer 0 })
            (m', record { cursor = c'; pc = ProducerPc.returned done })
    unfolding commit
    commit-Runs m c =
        rw (← written-eq-write_two_spans c m.events)
          (unfold store_published in writing-Runs count 0 m c (omega arith))

    -- The state after the loop over the consumers.
    abbrev checked : Bool × ProducerCursor → Producer A
    checked (true, c) = record { cursor = c; pc = writing count writer 0 }
    checked (false, c) = record { cursor = c; pc = ProducerPc.returned false }

    scanning-Runs :
        (rest : List ℕ) (index g gi : ℕ) (m : Shared A) (c : ProducerCursor)
        (y : Shared A × Producer A)
        → index + length rest ≡ consumer_count
        → ((j : ℕ) → j < length rest → get_or m.consumers (index + j) 0 ≡ get_or rest j 0)
        → Runs
            (
              m,
              checked (
                  settle capacity c (
                    scan
                      (sub64 capacity count)
                      c.next_to_publish
                      c.blocking_consumer
                      rest
                      index
                      g
                      gi)),
            )
            y
        → Runs (m, record { cursor = c; pc = scanning count writer index g gi }) y
    unfolding producer_move pc_move scan_move scan settle
    scanning-Runs [] index g gi m c y all same r =
        let end : leb consumer_count index ≡ true = ground arith in Runs-cons _ _ (rw end r)
    scanning-Runs (position ∷ rest) index g gi m c y all same r =
        let more : leb consumer_count index ≡ false = ground arith in
        let here : get_or m.consumers index 0 ≡ position =
          ap (λ k. get_or m.consumers k 0) (sym (add-zero index)) ∙ same 0 (omega arith) in
        let onward = λ (g' gi' : ℕ).
          scanning-Runs rest (index + 1) g' gi' m c y (omega arith) (λ j lt.
            let e : index + 1 + j ≡ index + suc j = omega arith in
            ap (λ k. get_or m.consumers k 0) e ∙ same (suc j) (omega arith)) in
        Runs-cons _ _ (
          rw (more, here)
            (elim (Bool-cases (index == c.blocking_consumer)) [
              | inl blocker ↦ rw blocker (onward g gi (rw blocker at r))
              | inr other ↦
                  let lag = sub64 c.next_to_publish position in
                  rw other (elim (Bool-cases (ltb (sub64 capacity count) lag)) [
                    | inl over ↦ rw over (rw (other, over) at r)
                    | inr under ↦ rw under (elim (Bool-cases (ltb g lag)) [
                      | inl raised ↦ rw raised (onward lag index (rw (other, under, raised) at r))
                      | inr kept ↦ rw kept (onward g gi (rw (other, under, kept) at r))
                    ])
                  ])
            ]))

    -- The check, and what follows its answer.
    loading-Runs :
        (m : Shared A) (c : ProducerCursor) (y : Shared A × Producer A)
        → length m.consumers ≡ consumer_count
        → Runs (m, checked (refresh_available_capacity capacity m.consumers c count)) y
        → Runs (m, record { cursor = c; pc = ProducerPc.loading count writer }) y
    unfolding producer_move pc_move load_blocker refresh_available_capacity
    loading-Runs m c y all r =
        let greatest = sub64 c.next_to_publish (get_or m.consumers c.blocking_consumer 0) in
        Runs-cons _ _ (elim (Bool-cases (ltb (sub64 capacity count) greatest)) [
          | inl over ↦ rw over (rw over at r)
          | inr under ↦ rw under (
              scanning-Runs m.consumers 0 greatest c.blocking_consumer m c y (rw zero-add all)
                (λ j lt. rw zero-add refl) (rw under at r))
        ])

    checked-Runs :
        (m : Shared A) (x : Bool × ProducerCursor)
        → let (done, m', c') =
            if x.0
            then commit capacity default (write_two_spans capacity default writer) count m x.1
            else (false, m, x.1) in
          Runs (m, checked x) (m', record { cursor = c'; pc = ProducerPc.returned done })
    checked-Runs m (true, c) = commit-Runs m c
    checked-Runs m (false, c) = Runs-refl _

    -- For a memory with a position for each consumer, a call of the handle's `try_publish_batch`
    -- whose moves come with no other in between leaves the memory, the cursor and the answer of
    -- `handle_try_publish_batch`.
    pub publish_alone :
        (m : Shared A) (h : ProducerHandle) (pc : ProducerPc A)
        → length m.consumers ≡ consumer_count
        → let (done, m', h') = handle_try_publish_batch capacity default count writer m h in
          Runs
            (
              m,
              begin_publish capacity consumer_count default count writer
                  (record { cursor = h.cursor; pc = pc }),
            )
            (m', record { cursor = h'.cursor; pc = ProducerPc.returned done })
    unfolding handle_try_publish_batch publish_with begin_publish
    publish_alone m h pc all =
        let c = h.cursor in
        elim (Bool-cases (count == 0)) [
          | inl nothing ↦ rw nothing (Runs-refl _)
          | inr some ↦ rw some (elim (Bool-cases (ltb capacity count)) [
            | inl big ↦ rw big (Runs-refl _)
            | inr small ↦ rw small (elim (Bool-cases (ltb c.available_before_rescan count)) [
              | inl stale ↦ rw stale (
                  loading-Runs m c _ all
                    (checked-Runs m (refresh_available_capacity capacity m.consumers c count)))
              | inr cached ↦ rw cached (commit-Runs m c)
            ])
          ])
        ]
