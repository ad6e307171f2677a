-- ===== src/Disruptor/Threads/Checking.antt =====
-- The producer's moves up to the first write: the capacity check.
use low_latency_showcase.Prelude.{
  ℕ, ◌+◌, ◌-◌, ◌%◌, ◌≤◌, ◌<◌, ◌≡◌, inl, inr, refl, ap, ◌∙◌, length, get_or, All-get_or,
  All-of-get_or, get_or-map, arith, Bool-cases, ltb, leb, ◌==◌, dec_lt,
}
use low_latency_showcase.Words.{word, sub64, IsCapacity}
use low_latency_showcase.Disruptor.State.{Shared, ProducerCursor}
use low_latency_showcase.Disruptor.Log.{Log}
use low_latency_showcase.Disruptor.Invariant.{IsCursor, sub64-positions}
use low_latency_showcase.Disruptor.Threads.Producing.{
  ProducerPc, scanning, writing, Producer, begin_publish, scan_move, load_blocker,
}
use low_latency_showcase.Disruptor.Threads.Memory.{IsMemory, append-IsMemory_start}
use low_latency_showcase.Disruptor.Threads.Invariant.{pending, Seen, IsProducer}

module _ {ℓ} {A : Type ℓ} {capacity : ℕ} (ok : IsCapacity capacity) (consumer_count : ℕ)
    (default : A) where
  -- A memory and a producer that are in step with a log.
  abbrev pub InStep : Shared A × Producer A → Log A → Type ℓ
  InStep x l =
      IsMemory capacity default x.0 l.tail (pending capacity default x.1.pc l)
      × IsProducer capacity default x.1 l

  module _ (l : Log A) where
    -- One more consumer seen.
    Seen-suc :
        (blocker index g g' : ℕ)
        → Seen capacity default blocker index g l
        → g ≤ g'
        → l.tail ≤ get_or l.cursors index 0 + g'
        → Seen capacity default blocker (index + 1) g' l
    Seen-suc blocker index g g' seen le here j lt known = elim (dec_lt j index) [
      | yes old ↦ omega (arith, seen j lt (inl old))
      | no new ↦ elim known [
        | inl below ↦ let e : j ≡ index = omega arith in rw e here
        | inr same ↦ omega (arith, seen j lt (inr same))
      ]
    ]

  module _ (m : Shared A) (l : Log A) where
    -- A consumer's lag, as the producer computes it.
    lag-at :
        {l' : Log A} (i : ℕ)
        → IsMemory capacity default m l.tail l'
        → l'.cursors ≡ l.cursors
        → i < length l.cursors
        → sub64 (l.tail % word) (get_or m.consumers i 0) ≡ l.tail - get_or l.cursors i 0
    lag-at {l'} i v same lt =
        let lt' : i < length l'.cursors = rw same lt in
        let near = All-get_or _ l'.cursors i 0 v.within lt' in
        let ordered = v.ordered in
        rw (v.cursor_words, get_or-map (λ c. c % word) l'.cursors i 0 0 lt')
          (sub64-positions l.tail (get_or l'.cursors i 0) capacity near.0 (omega arith)
              (omega (arith, ok.small))
            ∙ ap (λ cs. l.tail - get_or cs i 0) same)

    pub begin_publish-InStep :
        (count : ℕ) (writer : ℕ → A → A) (c : ProducerCursor) (pc : ProducerPc A)
        → IsMemory capacity default m l.tail l
        → IsCursor capacity default c l
        → InStep
            (
              m,
              begin_publish capacity consumer_count default count writer
                  (record { cursor = c; pc = pc }),
            )
            l
    unfolding begin_publish
    begin_publish-InStep count writer c pc v w = elim (Bool-cases (count == 0)) [
      | inl empty ↦ rw empty (v, record { cursor = w; fits = tt })
      | inr some ↦ rw some (elim (Bool-cases (ltb capacity count)) [
        | inl big ↦ rw big (v, record { cursor = w; fits = tt })
        | inr small ↦ rw small (elim (Bool-cases (ltb c.available_before_rescan count)) [
          | inl stale ↦ rw stale (v, record { cursor = w; fits = ground arith })
          | inr cached ↦ rw cached (
            append-IsMemory_start ok default l writer v,
            record { cursor = w; fits = (omega arith, ground arith, ground arith) },
          )
        ])
      ])
    ]

    pub load_blocker-InStep :
        (count : ℕ) (writer : ℕ → A → A) (c : ProducerCursor)
        → IsMemory capacity default m l.tail l
        → IsCursor capacity default c l
        → count ≤ capacity
        → InStep (m, load_blocker capacity consumer_count default count writer m c) l
    unfolding load_blocker
    load_blocker-InStep count writer c v w fits =
        let lag = lag-at c.blocking_consumer v refl w.blocker_in in
        let greatest = sub64 c.next_to_publish (get_or m.consumers c.blocking_consumer 0) in
        let distance : greatest ≡ l.tail - get_or l.cursors c.blocking_consumer 0 =
          rw w.next_word lag in
        elim (Bool-cases (ltb (sub64 capacity count) greatest)) [
          | inl over ↦ rw over (v, record { cursor = w; fits = tt })
          | inr under ↦ rw under (
            v,
            record {
              cursor = w;
              fits = (
                fits,
                ground (arith, ok.small),
                w.blocker_in,
                λ j lt known. elim known [
                  | inl none ↦ absurd (omega arith)
                  | inr here ↦ rw here (omega arith)
                ],
              );
            },
          )
        ]

    module _ (count : ℕ) (writer : ℕ → A → A) (index g gi : ℕ) (c : ProducerCursor)
        (counted : length l.cursors ≡ consumer_count) (v : IsMemory capacity default m l.tail l)
        (p : IsProducer capacity default
          (record { cursor = c; pc = scanning count writer index g gi })
          l) where
      abbrev position : ℕ
      position = get_or l.cursors index 0

      -- The loop goes on, with a greatest lag that covers this consumer too.
      onward-InStep :
          (g' gi' : ℕ)
          → g' + count ≤ capacity
          → gi' < length l.cursors
          → g ≤ g'
          → l.tail ≤ position + g'
          → InStep (m, record { cursor = c; pc = scanning count writer (index + 1) g' gi' }) l
      onward-InStep g' gi' low inside le near = (
        v,
        record {
          cursor = p.cursor;
          fits =
              (p.fits.0, low, inside, Seen-suc l c.blocking_consumer index g g' p.fits.3 le near);
        },
      )

      -- The loop has seen every consumer.
      end-InStep :
          consumer_count ≤ index
          → InStep
              (
                m,
                record {
                  cursor = record c {
                    blocking_consumer = gi;
                    available_before_rescan = sub64 capacity g;
                  };
                  pc = writing count writer 0;
                },
              )
              l
      end-InStep end =
          let (fits, low, inside, seen) = p.fits in
          let plain : sub64 capacity g ≡ capacity - g = omega (arith, ok.small) in
          (
            append-IsMemory_start ok default l writer v,
            record {
              cursor = record {
                next_word = p.cursor.next_word;
                blocker_in = inside;
                room = rw plain (
                    All-of-get_or _ l.cursors 0
                      (λ j lt. omega (arith, seen j lt (inl (omega arith)))));
              };
              fits = (omega arith, fits, rw plain (omega arith));
            },
          )

      pub scan_move-InStep :
          InStep (m, scan_move capacity consumer_count default count writer index g gi m c) l
      unfolding scan_move
      scan_move-InStep = elim (Bool-cases (leb consumer_count index)) [
        | inl end ↦ rw end (end-InStep (ground arith))
        | inr more ↦
            let lt : index < length l.cursors = rw counted (ground arith) in
            let distance : sub64 c.next_to_publish (get_or m.consumers index 0)
                ≡ l.tail - position =
              rw p.cursor.next_word (lag-at index v refl lt) in
            let (fits, low, inside, seen) = p.fits in
            rw more (elim (Bool-cases (index == c.blocking_consumer)) [
              | inl here ↦
                  rw here (
                    onward-InStep g gi low inside (omega arith)
                      (seen index lt (inr (ground arith))))
              | inr other ↦
                  rw (other, distance)
                    (elim (Bool-cases (ltb (sub64 capacity count) (l.tail - position))) [
                      | inl over ↦ rw over (
                        v,
                        record {
                          cursor = record {
                            next_word = p.cursor.next_word;
                            blocker_in = lt;
                            room = p.cursor.room;
                          };
                          fits = tt;
                        },
                      )
                      | inr under ↦ rw under (elim (Bool-cases (ltb g (l.tail - position))) [
                        | inl raised ↦ rw raised (
                            onward-InStep (l.tail - position) index (ground (arith, ok.small)) lt
                              (ground arith) (omega arith))
                        | inr kept ↦
                            rw kept (onward-InStep g gi low inside (omega arith) (ground arith))
                      ])
                    ])
            ])
      ]
