-- ===== src/Disruptor/Weak/Publishing.antt =====
-- The producer's writes, and the store that publishes them.
use low_latency_showcase.Prelude.{
  ℕ, zero, suc, ◌+◌, ◌%◌, ◌≤◌, ◌<◌, ◌≡◌, refl, ap, true, false, length, All-get_or, All-of-get_or,
  arith, update, ltb, ◌==◌,
}
use low_latency_showcase.Words.{IsCapacity}
use low_latency_showcase.Disruptor.State.{Shared, ProducerCursor}
use low_latency_showcase.Disruptor.Log.{Log, append}
use low_latency_showcase.Disruptor.Invariant.{positions, All→has_room}
use low_latency_showcase.Disruptor.Threads.Producing.{
  ProducerPc, Producer, writing, span_slot, producer_move, pc_move, write_move, store_published,
}
use low_latency_showcase.Disruptor.Threads.Memory.{span_slot-eq-mod}
use low_latency_showcase.Disruptor.Threads.Publishing.{after_move, producer_move-InStep}
use low_latency_showcase.Disruptor.Threads.Inv.{stays, publishes}
use low_latency_showcase.Disruptor.Threads.Others.{IsConsumer-grow}
use low_latency_showcase.Disruptor.Weak.Orders.{release_store, access_slot}
use low_latency_showcase.Disruptor.Weak.System.{Weak}
use low_latency_showcase.Disruptor.Weak.Clocks.{
  IsOrders-rise, access-IsOrders, release_store-IsOrders,
}
use low_latency_showcase.Disruptor.Weak.Invariant.{
  written, current, next_access, WeakView, WeakOnward, known-le, base-le,
}

module _ {ℓ κ} {A : Type ℓ} {S : Type κ} {capacity : ℕ} (ok : IsCapacity capacity)
    (consumer_count : ℕ) (default : A) (handler : ℕ → S → A → ℕ → S) (first : ℕ) (s₀ : S) where
  abbrev Sees : Weak A S → Log A → Type (ℓ ⊔ κ)
  Sees = WeakView ok consumer_count default handler first s₀

  abbrev Onward : Log A → Weak A S → Type (ℓ ⊔ κ)
  Onward = WeakOnward ok consumer_count default handler first s₀

  module _ {s : Weak A S} {l : Log A} (v : Sees s l) where
    progress-write :
        (m : Shared A) (p : Producer A)
        → written s.system.producer.pc + 1 ≡ written p.pc
        → (t : ℕ)
        → update (next_access s.system l) 0 (next_access s.system l 0 + 1) t
          ≡ next_access (record s.system { memory = m; producer = p }) l t
    progress-write m p e zero = omega arith
    progress-write m p e (suc i) = let other : (0 == suc i) ≡ false = ground arith in rw other refl

    current-publish :
        (count : ℕ) (writer : ℕ → A → A) (u : ℕ)
        → update (current l) 0 (l.tail + count) u ≤ current (append capacity count writer l) u
    unfolding append
    current-publish count writer zero = omega arith
    current-publish count writer (suc i) =
        let other : (0 == suc i) ≡ false = ground arith in rw other (omega arith)

    progress-publish :
        (count : ℕ) (writer : ℕ → A → A) (m : Shared A) (p : Producer A)
        → written s.system.producer.pc ≡ count + written p.pc
        → (t : ℕ)
        → next_access s.system l t
          ≡ next_access
              (record s.system { memory = m; producer = p })
              (append capacity count writer l)
              t
    unfolding append
    progress-publish count writer m p e zero = omega arith
    progress-publish count writer m p e (suc i) = refl

    -- The write of one more event of the batch.
    pub touch_stays :
        (count : ℕ) (writer : ℕ → A → A) (index : ℕ) (c : ProducerCursor)
        → s.system.producer ≡ record { cursor = c; pc = writing count writer index }
        → index < count
        → Onward l (record s {
          system = record s.system {
            memory =
                write_move capacity consumer_count default count writer index s.system.memory c;
            producer = record { cursor = c; pc = writing count writer (index + 1) };
          };
          orders = access_slot 0 (span_slot capacity c.next_to_publish count index) s.orders;
        })
    unfolding producer_move pc_move after_move write_move
    touch_stays count writer index c e lt =
        let more : ltb index count ≡ true = ground arith in
        let w = rw e at v.producer in
        let so_far : written s.system.producer.pc ≡ index = ap (λ p. written p.pc) e in
        let at_slot : span_slot capacity c.next_to_publish count index
            ≡ (l.tail + index) % capacity =
          rw w.1.cursor.next_word (span_slot-eq-mod ok l.tail count index w.1.fits.1 lt) in
        (
          l,
          stays,
          record {
            at = v.at;
            base = v.base;
            orders =
                IsOrders-rise (suc consumer_count) capacity first (λ u lu. omega arith)
                  (λ t lt'.
                    progress-write
                      (write_move capacity consumer_count default count writer index s.system.memory
                        c)
                      (record { cursor = c; pc = writing count writer (index + 1) }) (omega arith)
                      t)
                  (access-IsOrders (suc consumer_count) capacity first s.orders v.at v.base
                    (current l) (next_access s.system l) v.orders 0 (omega arith) _
                    (rw so_far at_slot));
            counted = v.counted;
            cursor_words = v.cursor_words;
            known = v.known;
            known_counted = v.known_counted;
            knows = v.knows;
            producer = rw more at (
                producer_move-InStep ok consumer_count default
                  (record s.system.memory { consumers = positions v.known })
                  (record l { cursors = v.known })
                  (record { cursor = c; pc = writing count writer index }) v.known_counted w);
            consumers = v.consumers;
          },
        )

    -- The store of the producer's position publishes the batch.
    pub store_publishes :
        (count : ℕ) (writer : ℕ → A → A) (index : ℕ) (c : ProducerCursor)
        → s.system.producer ≡ record { cursor = c; pc = writing count writer index }
        → count ≤ index
        → let (m', c') = store_published capacity consumer_count default count s.system.memory c in
          Onward l (record s {
            system = record s.system {
              memory = m';
              producer = record { cursor = c'; pc = ProducerPc.returned true };
            };
            orders = release_store 0 m'.published s.orders;
          })
    unfolding producer_move pc_move after_move store_published append
    store_publishes count writer index c e end =
        let stop : ltb index count ≡ false = ground arith in
        let so_far : written s.system.producer.pc ≡ index = ap (λ p. written p.pc) e in
        let w = rw e at v.producer in
        let moved = rw stop at (
          producer_move-InStep ok consumer_count default
            (record s.system.memory { consumers = positions v.known })
            (record l { cursors = v.known })
            (record { cursor = c; pc = writing count writer index }) v.known_counted w) in
        (
          append capacity count writer l,
          publishes count writer (
              All→has_room capacity (l.tail + count) l.cursors (
                All-of-get_or _ l.cursors 0 (λ i lt.
                  let inside : i < length v.known = rw v.known_counted (rw v.counted at lt) in
                  omega (
                    arith,
                    known-le ok consumer_count default handler first s₀ v i (rw v.counted at lt),
                    All-get_or _ v.known i 0 w.1.cursor.room inside,
                    w.1.fits,
                  )))),
          record {
            at = _;
            base = v.base;
            orders =
                IsOrders-rise (suc consumer_count) capacity first
                  (λ u lu. current-publish count writer u)
                  (λ t lt.
                    progress-publish count writer
                      (store_published capacity consumer_count default count s.system.memory c).0
                      (record {
                        cursor =
                            (store_published capacity consumer_count default count s.system.memory
                              c).1;
                        pc = ProducerPc.returned true;
                      })
                      (omega (arith, w.1.fits)) t)
                  (release_store-IsOrders (suc consumer_count) capacity first s.orders v.at v.base
                    (current l) (next_access s.system l) v.orders 0 (omega arith) _ (l.tail + count)
                    moved.0.tail_word (omega arith) (omega (arith, w.1.fits)));
            counted = v.counted;
            cursor_words = v.cursor_words;
            known = v.known;
            known_counted = v.known_counted;
            knows = v.knows;
            producer = moved;
            consumers = λ i lt.
                IsConsumer-grow capacity consumer_count default handler first s₀ i
                  (v.base (suc i) 0) _ (s.system.consumers i) (record l { tail = v.base (suc i) 0 })
                  (omega arith)
                  (λ j below.
                    ground (arith, base-le ok consumer_count default handler first s₀ v i lt))
                  (v.consumers i lt);
          },
        )
