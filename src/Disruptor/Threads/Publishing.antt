-- ===== src/Disruptor/Threads/Publishing.antt =====
-- The producer's moves keep the memory and the producer in step with the log.
use low_latency_showcase.Prelude.{
  ℕ, ◌+◌, ◌-◌, ◌%◌, ◌≤◌, ◌<◌, ◌≡◌, inl, inr, true, length, All-get_or, All-mono, arith, Bool-cases,
  ltb, if◌then◌else◌,
}
use low_latency_showcase.Words.{sub64, IsCapacity}
use low_latency_showcase.Disruptor.State.{Shared, ProducerCursor}
use low_latency_showcase.Disruptor.Log.{Log, append}
use low_latency_showcase.Disruptor.Threads.Producing.{
  ProducerPc, scanning, writing, Producer, span_slot, write_move, store_published, pc_move,
  producer_move,
}
use low_latency_showcase.Disruptor.Threads.Memory.{IsMemory, span_slot-eq-mod, write-IsMemory}
use low_latency_showcase.Disruptor.Threads.Invariant.{pending, IsProducer}
use low_latency_showcase.Disruptor.Threads.Checking.{InStep, load_blocker-InStep, scan_move-InStep}

module _ {ℓ} {A : Type ℓ} {capacity : ℕ} (ok : IsCapacity capacity) (consumer_count : ℕ)
    (default : A) where
  -- The log after a move: the store of the new position publishes the batch.
  unfoldable pub after_move : ProducerPc A → Log A → Log A
  after_move (ProducerPc.returned answer) l = l
  after_move (ProducerPc.loading count writer) l = l
  after_move (scanning count writer index greatest greatest_index) l = l
  after_move (writing count writer index) l =
      if ltb index count then l else append capacity count writer l

  module _ (m : Shared A) (l : Log A) where
    module _ (count : ℕ) (writer : ℕ → A → A) (index : ℕ) (c : ProducerCursor)
        (v : IsMemory capacity default m l.tail (append capacity index writer l))
        (p : IsProducer capacity default
          (record { cursor = c; pc = writing count writer index })
          l) where
      write_move-InStep :
          index < count
          → InStep ok consumer_count default
              (
                write_move capacity consumer_count default count writer index m c,
                record { cursor = c; pc = writing count writer (index + 1) },
              )
              l
      unfolding write_move
      write_move-InStep lt =
          let (le, fits, enough) = p.fits in
          let at : span_slot capacity c.next_to_publish count index ≡ (l.tail + index) % capacity =
            rw p.cursor.next_word (span_slot-eq-mod ok l.tail count index fits lt) in
          (
            rw at (
                write-IsMemory ok default m l writer index v
                  (All-mono _ _ l.cursors (λ x q. omega arith) p.cursor.room) (omega arith)),
            record { cursor = p.cursor; fits = (omega arith, fits, enough) },
          )

      store_published-InStep :
          count ≤ index
          → let (m', c') = store_published capacity consumer_count default count m c in
            InStep ok consumer_count default
              (m', record { cursor = c'; pc = ProducerPc.returned true })
              (append capacity count writer l)
      unfolding store_published append
      store_published-InStep end =
          let (le, fits, enough) = p.fits in
          let w = p.cursor in
          let same : index ≡ count = omega arith in
          let whole = rw same at v in
          let bounds = All-get_or _ l.cursors c.blocking_consumer 0 w.room w.blocker_in in
          let near = All-get_or _ l.cursors c.blocking_consumer 0 whole.within w.blocker_in in
          let plain : sub64 c.available_before_rescan count ≡ c.available_before_rescan - count =
            omega (arith, ok.small) in
          (
            record {
              size = whole.size;
              tail_word = rw w.next_word (omega arith);
              cursor_words = whole.cursor_words;
              started = omega (arith, whole.started);
              ordered = omega arith;
              within = All-mono _ _ l.cursors (λ x q. (omega arith, q.1)) whole.within;
              slots = whole.slots;
            },
            record {
              cursor = record {
                next_word = rw w.next_word (omega arith);
                blocker_in = w.blocker_in;
                room = rw plain (All-mono _ _ l.cursors (λ x q. omega arith) w.room);
              };
              fits = tt;
            },
          )

    pc_move-InStep :
        (pc : ProducerPc A) (c : ProducerCursor)
        → length l.cursors ≡ consumer_count
        → IsMemory capacity default m l.tail (pending capacity default pc l)
        → IsProducer capacity default (record { cursor = c; pc = pc }) l
        → InStep ok consumer_count default
            (pc_move capacity consumer_count default pc m c)
            (after_move pc l)
    unfolding pc_move after_move
    pc_move-InStep (ProducerPc.returned answer) c counted v p = (v, p)
    pc_move-InStep (ProducerPc.loading count writer) c counted v p =
        load_blocker-InStep ok consumer_count default m l count writer c v p.cursor p.fits
    pc_move-InStep (scanning count writer index g gi) c counted v p =
        scan_move-InStep ok consumer_count default m l count writer index g gi c counted v p
    pc_move-InStep (writing count writer index) c counted v p =
        elim (Bool-cases (ltb index count)) [
          | inl more ↦ rw more (write_move-InStep count writer index c v p (ground arith))
          | inr end ↦ rw end (store_published-InStep count writer index c v p (ground arith))
        ]

    -- A move of the producer.
    pub producer_move-InStep :
        (p : Producer A)
        → length l.cursors ≡ consumer_count
        → InStep ok consumer_count default (m, p) l
        → InStep ok consumer_count default
            (producer_move capacity consumer_count default m p)
            (after_move p.pc l)
    unfolding producer_move
    producer_move-InStep p counted (v, w) = pc_move-InStep p.pc p.cursor counted v w
