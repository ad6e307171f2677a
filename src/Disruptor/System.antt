-- ===== src/Disruptor/System.antt =====
-- One producer and its consumers at work: calls in any order, each path directly or by a handle.
pub mod Standing
pub mod Publishing
pub mod Consuming
pub mod Inv
pub mod Safety
use low_latency_showcase.Prelude.{
  ℕ, ◌<◌, ◌≡◌, Bool, true, false, Option, none, some, length, update,
}
use low_latency_showcase.Disruptor.State.{
  Shared, ProducerCursor, Disruptor, ProducerHandle, ConsumerHandle, init, make_producer,
  synchronize_owner_state, make_consumer,
}
use low_latency_showcase.Disruptor.Publish.{try_publish_batch, handle_try_publish_batch}
use low_latency_showcase.Disruptor.Consume.{consume_available, handle_consume_available}

-- The disruptor, the handles that are live, and what each consumer's handler has made so far of
-- the events that it was given.
pub record System {ℓ κ} (A : Type ℓ) (S : Type κ) : Type (ℓ ⊔ κ) where
  pub disruptor : Disruptor A
  pub producer : Option ProducerHandle
  pub handles : ℕ → Option ConsumerHandle
  pub states : ℕ → S

module _ {ℓ κ} {A : Type ℓ} {S : Type κ} (capacity : ℕ) (default : A)
    (handler : ℕ → S → A → ℕ → S) where
  abbrev pub after_publish : System A S → Bool × Disruptor A → System A S
  after_publish s r = record s { disruptor = r.1 }

  abbrev pub after_handle_publish : System A S → Bool × Shared A × ProducerHandle → System A S
  after_handle_publish s r = record s {
    disruptor = record s.disruptor { shared = r.1 };
    producer = some r.2;
  }

  abbrev pub after_consume : System A S → ℕ → ℕ × Shared A × S → System A S
  after_consume s i r = record s {
    disruptor = record s.disruptor { shared = r.1 };
    states = update s.states i r.2;
  }

  abbrev pub after_handle_consume : System A S → ℕ → ℕ × Shared A × ConsumerHandle × S → System A S
  after_handle_consume s i r = record s {
    disruptor = record s.disruptor { shared = r.1 };
    handles = update s.handles i (some r.2);
    states = update s.states i r.3;
  }

  -- One call. The rules of use are the premises: one publication path is live at a time, and a
  -- consumer index is used directly or through one handle.
  pub data Step (s : System A S) : System A S → Type (ℓ ⊔ κ) where
    publish_directly :
        (count : ℕ) (writer : ℕ → A → A)
        → s.producer ≡ none
        → Step s (after_publish s (try_publish_batch capacity default count writer s.disruptor))
    publish_by_handle :
        (h : ProducerHandle) (count : ℕ) (writer : ℕ → A → A)
        → s.producer ≡ some h
        → Step s (
            after_handle_publish s
              (handle_try_publish_batch capacity default count writer s.disruptor.shared h))
    open_producer :
        s.producer ≡ none → Step s (record s { producer = some (make_producer s.disruptor) })
    close_producer :
        (h : ProducerHandle)
        → s.producer ≡ some h
        → Step s (record s { disruptor = synchronize_owner_state h s.disruptor; producer = none })
    consume_directly :
        (i max_count : ℕ)
        → i < length s.disruptor.shared.consumers
        → s.handles i ≡ none
        → Step s (
            after_consume s i (
              consume_available capacity default
                (handler i)
                i
                max_count
                s.disruptor.shared
                (s.states i)))
    consume_by_handle :
        (i : ℕ) (h : ConsumerHandle) (max_count : ℕ)
        → s.handles i ≡ some h
        → Step s (
            after_handle_consume s i (
              handle_consume_available capacity default
                (handler i)
                max_count
                s.disruptor.shared
                h
                (s.states i)))
    open_consumer :
        (i : ℕ)
        → i < length s.disruptor.shared.consumers
        → s.handles i ≡ none
        → Step s
            (record s { handles = update s.handles i (some (make_consumer s.disruptor.shared i)) })
    close_consumer : (i : ℕ) → Step s (record s { handles = update s.handles i none })

  module _ (consumer_count initial_position : ℕ) (s₀ : S) where
    abbrev pub start : System A S
    start = record {
      disruptor = init default capacity consumer_count initial_position;
      producer = none;
      handles = λ _. none;
      states = λ _. s₀;
    }

    pub data Reach : System A S → Type (ℓ ⊔ κ) where
      here : Reach start
      later : {s t : System A S} → Reach s → Step s t → Reach t
