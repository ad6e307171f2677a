-- ===== src/Disruptor/Threads/Inv.antt =====
-- Every move keeps the threads in step with the log, and moves the log by one of its own steps at
-- most.
use low_latency_showcase.Prelude.{
  ℕ, ◌+◌, ◌≤◌, ◌<◌, ◌≡◌, refl, ◌∙◌, subst, inl, inr, true, length, get_or, set, All-mono,
  length-set, arith, Bool-cases, ltb, ◌==◌,
}
use low_latency_showcase.Words.{IsCapacity}
use low_latency_showcase.Disruptor.State.{Shared}
use low_latency_showcase.Disruptor.Log.{Log, append, has_room}
use low_latency_showcase.Disruptor.Invariant.{All→has_room}
use low_latency_showcase.Disruptor.Threads.Producing.{ProducerPc, writing, Producer}
use low_latency_showcase.Disruptor.Threads.Consuming.{
  ConsumerPc, reading, Consumer, consumer_pc_move, consumer_move,
}
use low_latency_showcase.Disruptor.Threads.System.{
  Threads, Step, publish, produce, consume, take, after_producer, after_consumer,
}
use low_latency_showcase.Disruptor.Threads.Memory.{IsMemory}
use low_latency_showcase.Disruptor.Threads.Invariant.{pending, IsConsumer, View}
use low_latency_showcase.Disruptor.Threads.Checking.{InStep, begin_publish-InStep}
use low_latency_showcase.Disruptor.Threads.Publishing.{after_move, producer_move-InStep}
use low_latency_showcase.Disruptor.Threads.Taking.{
  IsReadable, IsMemory-IsReadable, begin_consume-IsConsumer, load_published-IsConsumer,
  read_move-IsConsumer, store_position-IsMemory, store_position-IsConsumer,
}
use low_latency_showcase.Disruptor.Threads.Others.{
  cursors-pending, pending-kept, pending-advance, IsProducer-advance, IsConsumer-append,
  IsConsumer-advance,
}

-- What may happen to the log: nothing, the publication of a batch that it has room for, or a move
-- of a consumer's cursor over events that it has.
pub data LogStep {ℓ} {A : Type ℓ} (capacity : ℕ) (l : Log A) : Log A → Type ℓ where
  stays : LogStep capacity l l
  publishes :
      (count : ℕ) (writer : ℕ → A → A)
      → has_room capacity (l.tail + count) l.cursors ≡ true
      → LogStep capacity l (append capacity count writer l)
  takes :
      (i count : ℕ)
      → i < length l.cursors
      → get_or l.cursors i 0 + count ≤ l.tail
      → LogStep capacity l (record l { cursors = set l.cursors i (get_or l.cursors i 0 + count) })

module _ {ℓ κ} {A : Type ℓ} {S : Type κ} {capacity : ℕ} (ok : IsCapacity capacity)
    (consumer_count : ℕ) (default : A) (handler : ℕ → S → A → ℕ → S) (first : ℕ) (s₀ : S) where
  abbrev Sees : Threads A S → Log A → Type (ℓ ⊔ κ)
  Sees = View capacity consumer_count default handler first s₀

  -- Where a step leads: a log one step on, with which the threads are in step.
  abbrev pub Onward : Log A → Threads A S → Type (ℓ ⊔ κ)
  Onward l t = (l' : Log A) × LogStep capacity l l' × Sees t l'

  module _ {s : Threads A S} {l : Log A} (v : Sees s l) where
    -- The producer at another point of the code, with the log as it was.
    producer_stays :
        (x : Shared A × Producer A)
        → InStep ok consumer_count default x l
        → Onward l (after_producer capacity consumer_count default handler s x)
    producer_stays x (memory, producer) = (
      l,
      stays,
      record { memory = memory; counted = v.counted; producer = producer; consumers = v.consumers },
    )

    -- The store of the producer's position publishes the batch.
    producer_publishes :
        (count : ℕ) (writer : ℕ → A → A) (index : ℕ) (x : Shared A × Producer A)
        → s.producer.pc ≡ writing count writer index
        → InStep ok consumer_count default x (append capacity count writer l)
        → Onward l (after_producer capacity consumer_count default handler s x)
    unfolding append
    producer_publishes count writer index x e (memory, producer) =
        let (le, fits, enough) = rw e at v.producer.fits in
        (
          append capacity count writer l,
          publishes count writer (
              All→has_room capacity (l.tail + count) l.cursors
                (All-mono _ _ l.cursors (λ c room. omega arith) v.producer.cursor.room)),
          record {
            memory = memory;
            counted = v.counted;
            producer = producer;
            consumers = λ i lt.
                IsConsumer-append capacity consumer_count default handler first s₀ i count writer
                  (s.consumers i) l (v.consumers i lt);
          },
        )

    after_move-Onward :
        (pc : ProducerPc A) (x : Shared A × Producer A)
        → s.producer.pc ≡ pc
        → InStep ok consumer_count default x (after_move ok consumer_count default pc l)
        → Onward l (after_producer capacity consumer_count default handler s x)
    unfolding after_move
    after_move-Onward (writing count writer index) x e w = elim (Bool-cases (ltb index count)) [
      | inl more ↦ producer_stays x (rw more at w)
      | inr end ↦ producer_publishes count writer index x e (rw end at w)
    ]
    after_move-Onward (ProducerPc.returned answer) x e w = producer_stays x w
    after_move-Onward _ x e w = producer_stays x w

    -- Consumer `i` at another point of the code, or with its cursor moved.
    abbrev Is : ℕ → Consumer S → Log A → Type (ℓ ⊔ κ)
    Is = IsConsumer capacity consumer_count default handler first s₀

    consumer_stays :
        (i : ℕ) (c : Consumer S)
        → Is i c l
        → Onward l (after_consumer capacity consumer_count default handler s i (s.memory, c))
    consumer_stays i c w = (
      l,
      stays,
      record {
        memory = v.memory;
        counted = v.counted;
        producer = v.producer;
        consumers = λ j lt. elim (Bool-cases (i == j)) [
          | inl same ↦ let e : i ≡ j = ground arith in rw same (subst (λ k. Is k c l) e w)
          | inr differs ↦ rw differs (v.consumers j lt)
        ];
      },
    )

    consumer_moves :
        (i count : ℕ) (x : Shared A × Consumer S)
        → i < length l.cursors
        → get_or l.cursors i 0 + count ≤ l.tail
        → (let l' = record l { cursors = set l.cursors i (get_or l.cursors i 0 + count) } in
            IsMemory capacity default x.0 l.tail (pending capacity default s.producer.pc l')
            × Is i x.1 l')
        → Onward l (after_consumer capacity consumer_count default handler s i x)
    consumer_moves i count x lt le (memory, w) =
        let to = get_or l.cursors i 0 + count in
        (
          record l { cursors = set l.cursors i to },
          takes i count lt le,
          record {
            memory = memory;
            counted = length-set l.cursors i to ∙ v.counted;
            producer =
                IsProducer-advance capacity default l i to (omega arith) s.producer lt v.producer;
            consumers = λ j inside. elim (Bool-cases (i == j)) [
              | inl same ↦
                  let e : i ≡ j = ground arith in
                  rw same (subst (λ k. Is k x.1 (record l { cursors = set l.cursors i to })) e w)
              | inr differs ↦ rw differs (
                  IsConsumer-advance capacity consumer_count default handler first s₀ i j to
                    (s.consumers j) l (ground arith) (v.consumers j (rw length-set at inside)))
            ];
          },
        )

    readable :
        (i : ℕ)
        → i < length l.cursors
        → IsReadable capacity default s.memory l (pending capacity default s.producer.pc l) i
    readable i lt =
        IsMemory-IsReadable capacity default i lt (cursors-pending capacity default s.producer.pc l)
          (pending-kept capacity default s.producer.pc l) v.memory

    take-Onward :
        (i : ℕ) (pc : ConsumerPc)
        → i < length l.cursors
        → (s.consumers i).pc ≡ pc
        → Is i (record (s.consumers i) { pc = pc }) l
        → Onward l (
            after_consumer capacity consumer_count default handler s i (
              consumer_pc_move capacity default
                (handler i)
                pc
                s.memory
                (record (s.consumers i) { pc = pc })))
    unfolding consumer_pc_move
    take-Onward i (ConsumerPc.returned count) lt e w = consumer_stays i _ w
    take-Onward i (ConsumerPc.loading max_count) lt e w =
        let pend = pending capacity default s.producer.pc l in
        consumer_stays i _ (
          load_published-IsConsumer ok consumer_count default handler first s₀ s.memory l pend i lt
            (readable i lt) (s.consumers i).handle _ (s.consumers i).state w max_count refl)
    take-Onward i (reading count index) lt e w =
        let pend = pending capacity default s.producer.pc l in
        let seen = readable i lt in
        elim (Bool-cases (ltb index count)) [
          | inl more ↦ rw more (
              consumer_stays i _ (
                read_move-IsConsumer ok consumer_count default handler first s₀ s.memory l pend i lt
                  seen (s.consumers i).handle count index (s.consumers i).state w (ground arith)))
          | inr end ↦
              let published = w.handle.published in
              rw end (
                consumer_moves i count _ lt (omega (arith, w.within)) (
                  rw (pending-advance capacity default s.producer.pc l) (
                      store_position-IsMemory ok consumer_count default handler first s₀ s.memory l
                        pend i lt seen (s.consumers i).handle count index (s.consumers i).state w
                        (ground arith) (cursors-pending capacity default s.producer.pc l) v.memory),
                  store_position-IsConsumer ok consumer_count default handler first s₀ s.memory l
                      pend i lt seen (s.consumers i).handle count index (s.consumers i).state w
                      (ground arith),
                ))
        ]

  -- A step of the threads that stand for a log leaves them standing for a log that is `Onward` from
  -- it: the same, one batch longer where there is room for the batch, or with one consumer's cursor
  -- moved over events that the log holds.
  pub Step-Onward :
      {s t : Threads A S} {l : Log A}
      → Step capacity consumer_count default handler s t
      → Sees s l
      → Onward l t
  unfolding consumer_move
  Step-Onward {s} {l = l} (publish count writer e) v = producer_stays v _ (
      begin_publish-InStep ok consumer_count default s.memory l count writer s.producer.cursor
        s.producer.pc (rw e at v.memory) v.producer.cursor)
  Step-Onward {s} {l = l} produce v = after_move-Onward v s.producer.pc _ refl (
      producer_move-InStep ok consumer_count default s.memory l s.producer v.counted
        (v.memory, v.producer))
  Step-Onward {s} {l = l} (consume i max_count lt e) v =
      let lt' : i < length l.cursors = rw v.counted lt in
      consumer_stays v i _ (
        begin_consume-IsConsumer ok consumer_count default handler first s₀ s.memory l
          (pending capacity default s.producer.pc l) i lt' (readable v i lt') (s.consumers i).handle
          (s.consumers i).pc (s.consumers i).state (v.consumers i lt') max_count (rw e refl))
  Step-Onward {s} {l = l} (take i lt) v =
      let lt' : i < length l.cursors = rw v.counted lt in
      take-Onward v i (s.consumers i).pc lt' refl (v.consumers i lt')
