-- ===== src/Disruptor/Weak/System.antt =====
-- The threads on a memory whose loads may read stores that are not the latest.
use low_latency_showcase.Prelude.{
  ℕ, zero, suc, ◌<◌, ◌≡◌, Bool, set, update, ltb, leb, ◌==◌, if◌then◌else◌,
}
use low_latency_showcase.Disruptor.State.{Shared, ProducerCursor, ConsumerHandle}
use low_latency_showcase.Disruptor.Threads.Producing.{
  ProducerPc, scanning, writing, span_slot, begin_publish, producer_move,
}
use low_latency_showcase.Disruptor.Threads.Consuming.{
  ConsumerPc, reading, begin_consume, consumer_move,
}
use low_latency_showcase.Disruptor.Threads.System.{Threads, start}
use low_latency_showcase.Disruptor.Weak.Orders.{
  Orders, Access, load, touch, MayRead, perform, no_accesses,
}

-- What the producer's next move does to the shared memory. The load of `refresh_available_capacity`
-- is skipped for the blocking consumer, and the loop's end has none.
unfoldable pub producer_access {ℓ} : {A : Type ℓ} → ℕ → ℕ → ProducerPc A → ProducerCursor → Access
producer_access capacity consumer_count (ProducerPc.returned answer) c = Access.quiet
producer_access capacity consumer_count (ProducerPc.loading count writer) c =
    load (suc c.blocking_consumer)
producer_access capacity consumer_count (scanning count writer index greatest greatest_index) c =
    if leb consumer_count index
    then Access.quiet
    else if index == c.blocking_consumer
    then Access.quiet
    else load (suc index)
producer_access capacity consumer_count (writing count writer index) c =
    if ltb index count
    then touch (span_slot capacity c.next_to_publish count index)
    else Access.announce

-- What a consumer's next move does to it.
unfoldable pub consumer_access : ℕ → ConsumerPc → ConsumerHandle → Access
consumer_access capacity (ConsumerPc.returned count) h = Access.quiet
consumer_access capacity (ConsumerPc.loading max_count) h = load 0
consumer_access capacity (reading count index) h =
    if ltb index count
    then touch (span_slot capacity h.next_position count index)
    else Access.announce

module _ {ℓ} {A : Type ℓ} where
  -- The memory as an access finds it: a load of store `k` finds its value.
  unfoldable pub found : Orders → Access → ℕ → Shared A → Shared A
  found o (load zero) k m = record m { published = ((o.locations 0).stored k).value }
  found o (load (suc i)) k m = record m {
    consumers = set m.consumers i ((o.locations (suc i)).stored k).value;
  }
  found o _ k m = m

  -- The memory after an access that leaves `m'`; a load changes nothing.
  unfoldable pub leaves : Access → Shared A → Shared A → Shared A
  leaves (load u) m m' = m
  leaves _ m m' = m'

-- The threads, with the latest value of each location in `memory`, and what is ordered so far.
pub record Weak {ℓ κ} (A : Type ℓ) (S : Type κ) : Type (ℓ ⊔ κ) where
  pub system : Threads A S
  pub orders : Orders

module _ {ℓ κ} {A : Type ℓ} {S : Type κ} (capacity consumer_count : ℕ) (default : A)
    (handler : ℕ → S → A → ℕ → S) where
  abbrev pub producer_next : Weak A S → Access
  producer_next s =
      producer_access capacity consumer_count s.system.producer.pc s.system.producer.cursor

  abbrev pub consumer_next : ℕ → Weak A S → Access
  consumer_next i s =
      consumer_access capacity (s.system.consumers i).pc (s.system.consumers i).handle

  -- The producer's next move, which reads store `k` if it loads.
  unfoldable pub produce_reading : ℕ → Weak A S → Weak A S
  unfolding found leaves perform producer_access
  produce_reading k s =
      let a = producer_next s in
      let (m', p') =
        producer_move capacity consumer_count default (found s.orders a k s.system.memory)
          s.system.producer in
      record {
        system = record s.system { memory = leaves a s.system.memory m'; producer = p' };
        orders = perform 0 a k m'.published s.orders;
      }

  -- The next move of consumer `i`; what it stores is its handle's new position.
  unfoldable pub take_reading : ℕ → ℕ → Weak A S → Weak A S
  unfolding found leaves perform consumer_access
  take_reading i k s =
      let a = consumer_next i s in
      let (m', c') =
        consumer_move capacity default (handler i) (found s.orders a k s.system.memory)
          (s.system.consumers i) in
      record {
        system = record s.system {
          memory = leaves a s.system.memory m';
          consumers = update s.system.consumers i c';
        };
        orders = perform (suc i) a k c'.handle.next_position s.orders;
      }

  -- Threads move in any order, and a load reads any store that it may.
  pub data WeakStep (s : Weak A S) : Weak A S → Type (ℓ ⊔ κ) where
    publish :
        (count : ℕ) (writer : ℕ → A → A) {answer : Bool}
        → s.system.producer.pc ≡ ProducerPc.returned answer
        → WeakStep s (record s {
          system = record s.system {
            producer = begin_publish capacity consumer_count default count writer s.system.producer;
          };
        })
    produce : (k : ℕ) → MayRead s.orders 0 (producer_next s) k → WeakStep s (produce_reading k s)
    consume :
        (i max_count : ℕ) {count : ℕ}
        → i < consumer_count
        → (s.system.consumers i).pc ≡ ConsumerPc.returned count
        → WeakStep s (record s {
          system = record s.system {
            consumers =
                update s.system.consumers i
                  (begin_consume capacity default (handler i) max_count (s.system.consumers i));
          };
        })
    take :
        (i k : ℕ)
        → i < consumer_count
        → MayRead s.orders (suc i) (consumer_next i s) k
        → WeakStep s (take_reading i k s)

  module _ (initial_position : ℕ) (s₀ : S) where
    -- A new disruptor with all its handles, which the threads' starts happen after.
    abbrev pub weak_start : Weak A S
    weak_start = record {
      system = start capacity consumer_count default handler initial_position s₀;
      orders = no_accesses initial_position;
    }

    pub data WeakReach : Weak A S → Type (ℓ ⊔ κ) where
      here : WeakReach weak_start
      later : {s t : Weak A S} → WeakReach s → WeakStep s t → WeakReach t
