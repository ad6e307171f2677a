-- ===== src/Disruptor/Threads/Uninterrupted.antt =====
-- A call of a handle, taken apart into moves, that no other thread's moves interrupt: what it does
-- to the log.
use low_latency_showcase.Prelude.{ℕ, ◌%◌, ◌≡◌, Bool, length, get_or, length-map}
use low_latency_showcase.Words.{word, IsCapacity}
use low_latency_showcase.Disruptor.State.{Shared, ProducerCursor, ProducerHandle, ConsumerHandle}
use low_latency_showcase.Disruptor.Log
use low_latency_showcase.Disruptor.Log.{Log}
use low_latency_showcase.Disruptor.Invariant.{IsShared, IsCursor, IsHandle}
use low_latency_showcase.Disruptor.Publish.Contract.{handle_try_publish_batch-Agrees}
use low_latency_showcase.Disruptor.Consume.Handle.{
  handle_boundary, handle_consume_available-HandleTakes,
}
use low_latency_showcase.Disruptor.Threads.Producing.{ProducerPc, Producer, begin_publish}
use low_latency_showcase.Disruptor.Threads.Consuming.{ConsumerPc, Consumer, begin_consume}
use low_latency_showcase.Disruptor.Threads.Alone
use low_latency_showcase.Disruptor.Threads.Alone.{publish_alone}
use low_latency_showcase.Disruptor.Threads.TakingAlone
use low_latency_showcase.Disruptor.Threads.TakingAlone.{consume_alone}

module _ {ℓ} {A : Type ℓ} (capacity consumer_count : ℕ) (default : A) where
  -- Moves of the producer lead to its return with an answer, and memory and cursor stand for a log.
  pub record Publishes (x : Shared A × Producer A) (out : Bool × Log A) : Type ℓ where
    pub memory : Shared A
    pub cursor : ProducerCursor
    pub runs :
        Alone.Runs capacity consumer_count default x
          (memory, record { cursor = cursor; pc = ProducerPc.returned out.0 })
    pub shared : IsShared capacity default memory out.1
    pub in_step : IsCursor capacity default cursor out.1

module _ {ℓ κ} {A : Type ℓ} {S : Type κ} (capacity : ℕ) (default : A)
    (handler : S → A → ℕ → S) where
  -- Moves of the consumer lead to its return with a count and a state of the handler, and memory
  -- and handle stand for a log.
  pub record Draws (boundary : ℕ) (x : Shared A × Consumer S) (out : ℕ × Log A × S)
      : Type (ℓ ⊔ κ) where
    pub memory : Shared A
    pub handle : ConsumerHandle
    pub runs :
        TakingAlone.Runs capacity default handler x
          (memory, record { handle = handle; pc = ConsumerPc.returned out.0; state = out.2 })
    pub shared : IsShared capacity default memory out.1
    pub in_step : IsHandle capacity default handle boundary out.1

module _ {ℓ} {A : Type ℓ} {capacity : ℕ} (ok : IsCapacity capacity) (default : A) where
  -- For a memory and a producer handle whose cursor stand for a log, with a position for each of
  -- its consumers: a call of the handle's `try_publish_batch`, for any size, returns if no other
  -- thread's moves come in between, with the answer of the log's `publish`, and leaves memory and
  -- cursor standing for the log that this leaves.
  pub publish_uninterrupted :
      (count : ℕ) (writer : ℕ → A → A) (m : Shared A) (h : ProducerHandle) (pc : ProducerPc A)
      {l : Log A}
      → IsShared capacity default m l
      → IsCursor capacity default h.cursor l
      → Publishes capacity
          (length l.cursors)
          default
          (
            m,
            begin_publish capacity
                (length l.cursors)
                default
                count
                writer
                (record { cursor = h.cursor; pc = pc }),
          )
          (Log.publish capacity count writer l)
  publish_uninterrupted count writer m h pc {l} v w =
      let (answer, shared, cursor) =
        handle_try_publish_batch-Agrees ok default count writer h v w in
      let all : length m.consumers ≡ length l.cursors =
        rw v.cursor_words (length-map (λ c. c % word) l.cursors) in
      record {
        memory = _;
        cursor = _;
        runs =
            rw answer at
              (publish_alone capacity (length l.cursors) default count writer m h pc all);
        shared = shared;
        in_step = cursor;
      }

  -- For a memory and a consumer handle that stand for a log: a call of the handle's
  -- `consume_available` returns if no other thread's moves come in between; it takes the events
  -- below the boundary that it goes by, at most `max_count`, as the log's `consume` does, and leaves
  -- memory and handle standing for the log that this leaves. The boundary is the one that the
  -- handle has cached, and the log's tail once that is exhausted.
  pub consume_uninterrupted {κ} :
      {S : Type κ} (handler : S → A → ℕ → S) (max_count : ℕ) (m : Shared A) (h : ConsumerHandle)
      (pc : ConsumerPc) (s : S) {l : Log A} {boundary : ℕ}
      → IsShared capacity default m l
      → IsHandle capacity default h boundary l
      → let b = handle_boundary max_count boundary (get_or l.cursors h.consumer_index 0) l.tail in
        Draws capacity default handler b
          (
            m,
            begin_consume capacity default handler max_count
                (record { handle = h; pc = pc; state = s }),
          )
          (Log.consume handler b h.consumer_index max_count l s)
  consume_uninterrupted handler max_count m h pc s v w =
      let ((count, shared, state), mine) =
        handle_consume_available-HandleTakes ok default handler v w max_count s in
      record {
        memory = _;
        handle = _;
        runs = rw (count, state) at (consume_alone capacity default handler max_count m h pc s);
        shared = shared;
        in_step = mine;
      }
