-- ===== src/Disruptor/Publish/Refine.antt =====
-- `try_publish_batch` publishes exactly when the log has room, and writes what the log appends.
use native.Mathlib.Nat.{add-mod_right}
use low_latency_showcase.Prelude.{
  ℕ, ◌+◌, ◌-◌, ◌%◌, ◌≤◌, ◌<◌, ◌≡◌, inl, inr, refl, sym, ap, ◌∙◌, Bool, true, false, List, [], ◌∷◌,
  length, get_or, All, All-get_or, All-mono, All-both, length-map, get_or-map, arith, Bool-cases,
  ltb, leb, ◌==◌, if◌then◌else◌, dec_lt,
}
use low_latency_showcase.Words.{word, add64, sub64, slot, IsCapacity, slot-eq-mod, slot-lt, mod-ne}
use low_latency_showcase.Disruptor.State.{Shared, ProducerCursor}
use low_latency_showcase.Disruptor.Log
use low_latency_showcase.Disruptor.Log.{Log, has_room, append}
use low_latency_showcase.Disruptor.Invariant.{
  positions, IsShared, IsCursor, sub64-positions, has_room→All, All→has_room,
}
use low_latency_showcase.Disruptor.Publish.{write_events, commit, publish_with}
use low_latency_showcase.Disruptor.Publish.Capacity.{
  LagsWithin, Refreshed, refresh_available_capacity-Refreshed,
}
use low_latency_showcase.Disruptor.Publish.Loop.{length-write_span, write_span_miss, write_span_hit}

module _ {ℓ} {A : Type ℓ} {capacity : ℕ} (ok : IsCapacity capacity) (default : A) where
  -- The slot of the batch's event `j`.
  slot-at : (tail j : ℕ) → slot capacity (add64 (tail % word) j) ≡ (tail + j) % capacity
  slot-at tail j =
      let e : (tail % word + j) % word ≡ (tail + j) % word = omega arith in
      ap (slot capacity) e ∙ slot-eq-mod ok (tail + j)

  module _ (writer : ℕ → A → A) {m : Shared A} {l : Log A} (v : IsShared capacity default m l) where
    abbrev written : ℕ → List A
    written count = write_events capacity default writer (l.tail % word) count m.events

    written-old :
        (count s : ℕ)
        → s < l.tail
        → l.tail + count ≤ s + capacity
        → get_or (written count) (s % capacity) default ≡ l.stream s
    unfolding write_events
    written-old count s lt near =
        write_span_miss capacity default writer _ count 0 (s % capacity) m.events (λ j p q e.
          mod-ne capacity s (l.tail + j) (omega arith) (omega arith)
            (sym (sym (slot-at l.tail j) ∙ e)))
        ∙ v.slots s lt (omega arith)

    written-new :
        (count j : ℕ)
        → count ≤ capacity
        → j < count
        → get_or (written count) ((l.tail + j) % capacity) default
          ≡ writer j (l.stream (l.tail + j - capacity))
    unfolding write_events
    written-new count j fits lt =
        let at : ℕ → ℕ = λ index. slot capacity (add64 (l.tail % word) index) in
        let old : l.tail + j - capacity + capacity ≡ l.tail + j = omega (arith, v.started) in
        let recycled : (l.tail + j - capacity) % capacity ≡ (l.tail + j) % capacity =
          sym (add-mod_right (l.tail + j - capacity) capacity) ∙ ap (λ k. k % capacity) old in
        rw (← slot-at l.tail j) (
          write_span_hit capacity default writer at count 0 j m.events
            (λ a b p q r e.
              mod-ne capacity (l.tail + a) (l.tail + b) (omega arith) (omega arith)
                (sym (slot-at l.tail a) ∙ e ∙ slot-at l.tail b))
            (λ a. rw v.size (slot-lt ok (add64 (l.tail % word) a))) (omega arith) (omega arith)
          ∙ ap (λ x. writer j (get_or m.events x default)) (slot-at l.tail j ∙ sym recycled)
          ∙ ap (writer j) (
              v.slots (l.tail + j - capacity) (omega (arith, v.started))
                (omega (arith, v.started))))

    -- The filled slots hold the log's new events.
    written-append :
        (count s : ℕ)
        → count ≤ capacity
        → s < l.tail + count
        → l.tail + count ≤ s + capacity
        → get_or (written count) (s % capacity) default ≡ (append capacity count writer l).stream s
    unfolding append
    written-append count s fits lt near = elim (dec_lt s l.tail) [
      | yes old ↦ ground (arith, written-old count s old near)
      | no new ↦
          let e : l.tail + (s - l.tail) ≡ s = omega arith in
          let hit = written-new count (s - l.tail) fits (omega arith) in ground (arith, rw e at hit)
    ]

module _ {ℓ} {A : Type ℓ} {capacity : ℕ} (ok : IsCapacity capacity) (default : A) where
  -- The same answer, and states that stand for the log's.
  abbrev pub Agrees : Bool × Shared A × ProducerCursor → Bool × Log A → Type ℓ
  Agrees (done, m, c) (done', l) =
      (done ≡ done') × IsShared capacity default m l × IsCursor capacity default c l

  module _ (write : ℕ → ℕ → List A → List A) (writer : ℕ → A → A)
      (same : (first count : ℕ) (events : List A)
        → count ≤ capacity
        → write first count events ≡ write_events capacity default writer first count events) where
    module _ {m : Shared A} {l : Log A} (v : IsShared capacity default m l) where
      -- A cursor with room for the batch publishes it.
      commit-Agrees :
          (count : ℕ) {c : ProducerCursor}
          → count ≤ capacity
          → count ≤ c.available_before_rescan
          → IsCursor capacity default c l
          → Agrees (commit capacity default write count m c) (true, append capacity count writer l)
      unfolding commit append
      commit-Agrees count {c} fits enough w =
          let bounds = All-get_or _ l.cursors c.blocking_consumer 0 w.room w.blocker_in in
          let near = All-get_or _ l.cursors c.blocking_consumer 0 v.within w.blocker_in in
          let events : write c.next_to_publish count m.events
              ≡ write_events capacity default writer (l.tail % word) count m.events =
            rw w.next_word (same (l.tail % word) count m.events fits) in
          let plain : sub64 c.available_before_rescan count ≡ c.available_before_rescan - count =
            omega (arith, ok.small) in
          (
            refl,
            record {
              size = rw events (
                  unfold write_events in
                  length-write_span capacity default writer _ count 0 m.events ∙ v.size);
              tail_word = rw w.next_word (omega arith);
              cursor_words = v.cursor_words;
              started = omega (arith, v.started);
              within =
                  All-both _ _ _ l.cursors (λ x p q. (omega arith, omega arith)) v.within w.room;
              slots =
                  λ s lt near. rw events (written-append ok default writer v count s fits lt near);
            },
            record {
              next_word = rw w.next_word (omega arith);
              blocker_in = w.blocker_in;
              room = rw plain (All-mono _ _ l.cursors (λ x p. omega arith) w.room);
            },
          )

      -- A lag in words is a distance in the log.
      lags-distances :
          (g : ℕ) (cs : List ℕ)
          → All (λ x. (x ≤ l.tail) × (l.tail ≤ x + capacity)) cs
          → LagsWithin (l.tail % word) g (positions cs)
          → All (λ x. l.tail ≤ x + g) cs
      lags-distances g [] near lags = tt
      lags-distances g (x ∷ cs) near lags = (
        omega (
          arith,
          ok.small,
          sub64-positions l.tail x capacity near.0.0 near.0.1 (omega (arith, ok.small)),
        ),
        lags-distances g cs near.1 lags.1,
      )

      LagsWithin-distances :
          (next g : ℕ) (cs : List ℕ)
          → next ≡ l.tail % word
          → cs ≡ positions l.cursors
          → LagsWithin next g cs
          → All (λ x. l.tail ≤ x + g) l.cursors
      LagsWithin-distances next g cs e q lags =
          lags-distances g l.cursors v.within (rw (e, q) at lags)

      length-consumers : length m.consumers ≡ length l.cursors
      length-consumers = rw v.cursor_words (length-map (λ c. c % word) l.cursors)

      lag-at :
          (i : ℕ)
          → i < length l.cursors
          → sub64 (l.tail % word) (get_or m.consumers i 0) ≡ l.tail - get_or l.cursors i 0
      lag-at i lt =
          let near = All-get_or _ l.cursors i 0 v.within lt in
          rw (v.cursor_words, get_or-map (λ c. c % word) l.cursors i 0 0 lt)
            (sub64-positions l.tail (get_or l.cursors i 0) capacity near.0 near.1
              (omega (arith, ok.small)))

      -- The answer of the check decides between publishing and refusing.
      refreshed_publish_lem :
          (count : ℕ) (c : ProducerCursor)
          → count ≤ capacity
          → IsCursor capacity default c l
          → (r : Bool × ProducerCursor) → Refreshed capacity m.consumers c count r
          → Agrees (if r.0 then commit capacity default write count m r.1 else (false, m, r.1)) (
              if has_room capacity (l.tail + count) l.cursors
              then (true, append capacity count writer l)
              else (false, l))
      unfolding Refreshed
      refreshed_publish_lem count c fits w (true, c') (same_next, inside, (lags, enough, cached)) =
          let g = sub64 c.next_to_publish (get_or m.consumers c'.blocking_consumer 0) in
          let all : All (λ x. l.tail ≤ x + g) l.cursors =
            LagsWithin-distances c.next_to_publish g m.consumers w.next_word v.cursor_words lags in
          let open_room : has_room capacity (l.tail + count) l.cursors ≡ true =
            All→has_room capacity (l.tail + count) l.cursors
              (All-mono _ _ l.cursors (λ x p. omega arith) all) in
          rw open_room (
            commit-Agrees count {c = c'} fits (omega arith) (record {
              next_word = same_next ∙ w.next_word;
              blocker_in = rw length-consumers at inside;
              room = All-mono _ _ l.cursors (λ x p. omega arith) all;
            }))
      refreshed_publish_lem count c fits w (false, c') (same_next, same_room, inside, over) =
          let i = c'.blocking_consumer in
          let i_in : i < length l.cursors = rw length-consumers at inside in
          let lag = lag-at i i_in in
          let near = All-get_or _ l.cursors i 0 v.within i_in in
          let refused : has_room capacity (l.tail + count) l.cursors ≡ false =
            elim (Bool-cases (has_room capacity (l.tail + count) l.cursors)) [
              | inr no_room ↦ no_room
              | inl open_room ↦
                  let there =
                    All-get_or _ l.cursors i 0 (has_room→All _ _ l.cursors open_room) i_in in
                  absurd (omega (arith, lag, rw w.next_word at over))
            ] in
          rw refused (
            refl,
            v,
            record {
              next_word = same_next ∙ w.next_word;
              blocker_in = i_in;
              room = rw same_room w.room;
            },
          )

      -- `try_publish_batch`, with either loop, is the log's `publish`.
      pub publish_with-Agrees :
          (count : ℕ) {c : ProducerCursor}
          → IsCursor capacity default c l
          → Agrees
              (publish_with capacity default write count m c)
              (Log.publish capacity count writer l)
      unfolding publish_with Log.publish
      publish_with-Agrees count {c} w = elim (Bool-cases (count == 0)) [
        | inl none ↦ rw none (refl, v, w)
        | inr some ↦ rw some (elim (Bool-cases (ltb capacity count)) [
          | inl big ↦
              let big' : leb count capacity ≡ false = ground arith in rw (big, big') (refl, v, w)
          | inr fits ↦
              let fits' : leb count capacity ≡ true = ground arith in
              let le : count ≤ capacity = ground arith in
              rw (fits, fits')
                (elim (Bool-cases (ltb c.available_before_rescan count)) [
                  | inl stale ↦ rw stale (
                      refreshed_publish_lem count c le w _ (
                        refresh_available_capacity-Refreshed capacity m.consumers c count ok.small
                          le (rw length-consumers w.blocker_in)))
                  | inr cached ↦
                      let enough : count ≤ c.available_before_rescan = ground arith in
                      let open_room : has_room capacity (l.tail + count) l.cursors ≡ true =
                        All→has_room capacity (l.tail + count) l.cursors
                          (All-mono _ _ l.cursors (λ x p. omega arith) w.room) in
                      rw (cached, open_room) (commit-Agrees count le enough w)
                ])
        ])
      ]
