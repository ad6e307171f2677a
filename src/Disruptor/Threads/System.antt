-- ===== src/Disruptor/Threads/System.antt =====
-- The threads over one disruptor, interleaved in any order.
use low_latency_showcase.Prelude.{ℕ, ◌<◌, ◌≡◌, Bool, true, update}
use low_latency_showcase.Disruptor.State.{Shared, init, make_producer, make_consumer}
use low_latency_showcase.Disruptor.Threads.Producing.{
  Producer, ProducerPc, begin_publish, producer_move,
}
use low_latency_showcase.Disruptor.Threads.Consuming.{
  Consumer, ConsumerPc, begin_consume, consumer_move,
}

-- One producer and its consumers.
pub record Threads {ℓ κ} (A : Type ℓ) (S : Type κ) : Type (ℓ ⊔ κ) where
  pub memory : Shared A
  pub producer : Producer A
  pub consumers : ℕ → Consumer S

module _ {ℓ κ} {A : Type ℓ} {S : Type κ} (capacity consumer_count : ℕ) (default : A)
    (handler : ℕ → S → A → ℕ → S) where
  abbrev pub after_producer : Threads A S → Shared A × Producer A → Threads A S
  after_producer s r = record s { memory = r.0; producer = r.1 }

  abbrev pub after_consumer : Threads A S → ℕ → Shared A × Consumer S → Threads A S
  after_consumer s i r = record s { memory = r.0; consumers = update s.consumers i r.1 }

  -- Threads move in any order; a call begins when the thread's last one has returned.
  pub data Step (s : Threads A S) : Threads A S → Type (ℓ ⊔ κ) where
    publish :
        (count : ℕ) (writer : ℕ → A → A) {answer : Bool}
        → s.producer.pc ≡ ProducerPc.returned answer
        → Step s (record s {
          producer = begin_publish capacity consumer_count default count writer s.producer;
        })
    produce :
        Step s
          (after_producer s (producer_move capacity consumer_count default s.memory s.producer))
    consume :
        (i max_count : ℕ) {count : ℕ}
        → i < consumer_count
        → (s.consumers i).pc ≡ ConsumerPc.returned count
        → Step s (
            after_consumer s i
              (s.memory, begin_consume capacity default (handler i) max_count (s.consumers i)))
    take :
        (i : ℕ)
        → i < consumer_count
        → Step s (
            after_consumer s i
              (consumer_move capacity default (handler i) s.memory (s.consumers i)))

  module _ (initial_position : ℕ) (s₀ : S) where
    -- A new disruptor with all its handles.
    abbrev pub start : Threads A S
    start =
        let d = init default capacity consumer_count initial_position in
        record {
          memory = d.shared;
          producer = record { cursor = (make_producer d).cursor; pc = ProducerPc.returned true };
          consumers = λ i. record {
            handle = make_consumer d.shared i;
            pc = ConsumerPc.returned 0;
            state = s₀;
          };
        }

    pub data Reach : Threads A S → Type (ℓ ⊔ κ) where
      here : Reach start
      later : {s t : Threads A S} → Reach s → Step s t → Reach t
