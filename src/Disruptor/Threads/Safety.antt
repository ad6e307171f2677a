-- ===== src/Disruptor/Threads/Safety.antt =====
-- What holds between any two moves of the threads.
use low_latency_showcase.Prelude.{
  ℕ, ◌+◌, ◌-◌, ◌%◌, ◌≤◌, ◌<◌, ◌≡◌, ◌≢◌, refl, sym, ap, ◌∙◌, true, some, length, get_or, All,
  All-get_or, All-mono, All-replicate, length-replicate, get_or-map, replicate, arith, inl, inr,
  Bool-cases, ltb,
}
use low_latency_showcase.Words.{
  word, IsCapacity, is_valid_config, is_valid_config-IsCapacity, mod-ne,
}
use low_latency_showcase.Disruptor.State.{
  ProducerCursor, ConsumerHandle, init, make_producer, make_consumer,
}
use low_latency_showcase.Disruptor.Log.{Log, deliver, empty}
use low_latency_showcase.Disruptor.Invariant.{init-IsShared}
use low_latency_showcase.Disruptor.Threads.Producing.{
  ProducerPc, writing, span_slot, pc_slot, producer_slot,
}
use low_latency_showcase.Disruptor.Threads.Consuming.{
  ConsumerPc, reading, consumer_pc_slot, consumer_slot,
}
use low_latency_showcase.Disruptor.Threads.System.{Threads, Reach, here, later, start}
use low_latency_showcase.Disruptor.Threads.Memory.{IsShared-IsMemory, span_slot-eq-mod}
use low_latency_showcase.Disruptor.Threads.Invariant.{pending, IsProducer, done, IsConsumer, View}
use low_latency_showcase.Disruptor.Threads.Others.{cursors-pending, done-Within}
use low_latency_showcase.Disruptor.Threads.Inv.{Step-Onward}

pub get_or-copies : (n v i : ℕ) → i < n → get_or (replicate n v) i 0 ≡ v
get_or-copies n v i lt =
    All-get_or (λ c. c ≡ v) _ i 0 (All-replicate _ n v refl) (rw length-replicate lt)

module _ {ℓ κ} {A : Type ℓ} {S : Type κ} {capacity : ℕ} (ok : IsCapacity capacity)
    (consumer_count : ℕ) (default : A) (handler : ℕ → S → A → ℕ → S) (first : ℕ) (s₀ : S) where
  -- A slot that is about to be written is that of a position not yet published, for which no
  -- consumer is a whole ring behind.
  pub written-position :
      (l : Log A) (pc : ProducerPc A) (c : ProducerCursor) (x : ℕ)
      → IsProducer capacity default (record { cursor = c; pc = pc }) l
      → pc_slot capacity consumer_count default pc c ≡ some x
      → (s : ℕ) × (x ≡ s % capacity)
        × (l.tail ≤ s)
        × All (λ position. s < position + capacity) l.cursors
  unfolding pc_slot
  written-position l (writing count writer index) c x v e =
      let (le, fits, enough) = v.fits in
      elim (Bool-cases (ltb index count)) [
        | inl more ↦
            let here : x ≡ span_slot capacity c.next_to_publish count index = ground (arith, e) in
            let next = v.cursor.next_word in
            let lt : index < count = ground arith in
            (
              l.tail + index,
              here
                  ∙ ap (λ p. span_slot capacity p count index) next
                  ∙ span_slot-eq-mod ok l.tail count index fits lt,
              omega arith,
              All-mono _ _ l.cursors (λ position room. omega arith) v.cursor.room,
            )
        | inr end ↦ absurd (ground (arith, e))
      ]
  written-position l (ProducerPc.returned answer) c x v e = cc
  written-position l _ c x v e = cc

  -- A slot that is about to be read is that of a published position, which the consumer has not
  -- released yet.
  pub read-position :
      (l : Log A) (i : ℕ) (pc : ConsumerPc) (h : ConsumerHandle) (state : S) (y : ℕ)
      → l.tail ≤ get_or l.cursors i 0 + capacity
      → IsConsumer capacity consumer_count default handler first s₀ i
          (record { handle = h; pc = pc; state = state })
          l
      → consumer_pc_slot capacity default (handler i) pc h ≡ some y
      → (s : ℕ) × (y ≡ s % capacity) × (get_or l.cursors i 0 ≤ s) × (s < l.tail)
  unfolding consumer_pc_slot
  read-position l i (reading count index) h state y near w e =
      let (le, below) = w.within in
      let published = w.handle.published in
      let position = get_or l.cursors i 0 in
      elim (Bool-cases (ltb index count)) [
        | inl more ↦
            let here : y ≡ span_slot capacity h.next_position count index = ground (arith, e) in
            let next : h.next_position ≡ position % word =
              w.handle.next_word ∙ ap (λ j. get_or l.cursors j 0 % word) w.own in
            let lt : index < count = ground arith in
            (
              position + index,
              here
                  ∙ ap (λ p. span_slot capacity p count index) next
                  ∙ span_slot-eq-mod ok position count index (omega arith) lt,
              omega arith,
              omega arith,
            )
        | inr end ↦ absurd (ground (arith, e))
      ]
  read-position l i (ConsumerPc.returned count) h state y near w e = cc
  read-position l i (ConsumerPc.loading max_count) h state y near w e = cc

module _ {ℓ κ} {A : Type ℓ} {S : Type κ} (capacity consumer_count initial : ℕ) (default : A)
    (handler : ℕ → S → A → ℕ → S) (s₀ : S) (valid : is_valid_config capacity consumer_count ≡ true)
    (small : initial < word) where
  abbrev ok : IsCapacity capacity
  ok = (is_valid_config-IsCapacity capacity consumer_count valid).0

  -- The log position of the first event.
  abbrev first : ℕ
  first = word + initial

  start-IsConsumer :
      (i : ℕ)
      → i < length (replicate consumer_count first)
      → IsConsumer capacity consumer_count default handler first s₀ i
          ((start capacity consumer_count default handler initial s₀).consumers i)
          (empty default consumer_count initial)
  unfolding empty make_consumer init deliver
  start-IsConsumer i lt =
      let inside : i < consumer_count = rw length-replicate at lt in
      let here = get_or-copies consumer_count first i inside in
      let there = get_or-copies consumer_count initial i inside in
      let no_events : first + 0 - first ≡ 0 = omega arith in
      record {
        boundary = first;
        handle = record {
          index_in = lt;
          next_word = rw (here, there) (omega arith);
          cached_word = rw there (omega arith);
          behind = rw here (omega arith);
          published = omega arith;
        };
        own = refl;
        within = tt;
        begun = rw here (omega arith);
        handled = rw (here, no_events) refl;
      }

  pub start-View :
      View capacity consumer_count default handler first s₀
        (start capacity consumer_count default handler initial s₀)
        (empty default consumer_count initial)
  unfolding empty make_producer
  start-View =
      let (shared, cursor) =
        init-IsShared ok default consumer_count initial small
          (is_valid_config-IsCapacity capacity consumer_count valid).1 in
      record {
        memory = IsShared-IsMemory ok default shared;
        counted = length-replicate consumer_count first;
        producer = record { cursor = cursor; fits = tt };
        consumers = start-IsConsumer;
      }

  pub Reach-View :
      {s : Threads A S}
      → Reach capacity consumer_count default handler initial s₀ s
      → (l : Log A) × View capacity consumer_count default handler first s₀ s l
  Reach-View here = (empty default consumer_count initial, start-View)
  Reach-View (later r step) =
      let (l, v) = Reach-View r in
      let (l', _, w) = Step-Onward ok consumer_count default handler first s₀ step v in (l', w)

  -- For a configuration that the static assertions accept and an initial position below 2^64: in
  -- every state that the threads reach, the producer is not about to write the slot that a
  -- consumer is about to read: their plain accesses never race.
  pub Reach-race_free :
      {s : Threads A S}
      → Reach capacity consumer_count default handler initial s₀ s
      → (i : ℕ) → i < consumer_count
      → (x y : ℕ) → producer_slot capacity consumer_count default s.producer ≡ some x
      → consumer_slot capacity default (handler i) (s.consumers i) ≡ some y
      → x ≢ y
  unfolding producer_slot consumer_slot
  Reach-race_free {s} r i lt x y written read same =
      let (l, v) = Reach-View r in
      let inside : i < length l.cursors = rw v.counted lt in
      let same_cursors = cursors-pending capacity default s.producer.pc l in
      let near = rw same_cursors at (
        All-get_or _ (pending capacity default s.producer.pc l).cursors i 0 v.memory.within
          (rw same_cursors inside)) in
      let ordered = v.memory.ordered in
      let (p, at_p, unpublished, room) =
        written-position ok consumer_count default handler first s₀ l s.producer.pc
          s.producer.cursor x v.producer written in
      let (q, at_q, unreleased, published) =
        read-position ok consumer_count default handler first s₀ l i (s.consumers i).pc
          (s.consumers i).handle (s.consumers i).state y (omega arith) (v.consumers i inside)
          read in
      mod-ne capacity q p (omega arith) (omega (arith, All-get_or _ l.cursors i 0 room inside))
        (sym at_q ∙ sym same ∙ at_p)

  -- For a configuration that the static assertions accept and an initial position below 2^64: in
  -- every state that the threads reach, also within calls, there is one stream of events and a
  -- position in it for the publication and for each consumer, equal to the shared ones modulo 2^64,
  -- such that a consumer is at or behind the publication, by at most `capacity`, and has given its
  -- handler exactly the events from the first one up to its position, and those of its running
  -- call, once each and in order.
  pub Reach-delivered_in_order :
      {s : Threads A S}
      → Reach capacity consumer_count default handler initial s₀ s
      → (l : Log A) × (s.memory.published ≡ l.tail % word)
        × ((i : ℕ)
            → i < consumer_count
            → let position = get_or l.cursors i 0 in
              (get_or s.memory.consumers i 0 ≡ position % word)
              × (first ≤ position)
              × (position + done (s.consumers i).pc ≤ l.tail)
              × (l.tail ≤ position + capacity)
              × ((s.consumers i).state
                  ≡ deliver
                      (handler i)
                      l.stream
                      first
                      (position + done (s.consumers i).pc - first)
                      s₀))
  Reach-delivered_in_order {s} r =
      let (l, v) = Reach-View r in
      let same = cursors-pending capacity default s.producer.pc l in
      (
        l,
        v.memory.tail_word,
        λ i lt.
            let inside : i < length l.cursors = rw v.counted lt in
            let c = v.consumers i inside in
            let near = rw same at (
              All-get_or _ (pending capacity default s.producer.pc l).cursors i 0 v.memory.within
                (rw same inside)) in
            let ordered = v.memory.ordered in
            let published = c.handle.published in
            (
              rw (v.memory.cursor_words, same) (get_or-map (λ x. x % word) l.cursors i 0 0 inside),
              c.begun,
              omega (
                arith,
                done-Within (s.consumers i).pc (get_or l.cursors i 0) c.boundary c.within
                    (rw c.own at c.handle.behind),
              ),
              omega arith,
              c.handled,
            ),
      )
