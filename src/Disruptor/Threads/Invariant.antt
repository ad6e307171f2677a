-- ===== src/Disruptor/Threads/Invariant.antt =====
-- What holds between any two moves: how far each thread has come, read on the published log.
use low_latency_showcase.Prelude.{ℕ, ◌+◌, ◌-◌, ◌≤◌, ◌<◌, ◌≡◌, ◌⊎◌, length, get_or}
use low_latency_showcase.Disruptor.State.{ProducerCursor}
use low_latency_showcase.Disruptor.Log.{Log, append, deliver}
use low_latency_showcase.Disruptor.Invariant.{IsCursor, IsHandle}
use low_latency_showcase.Disruptor.Threads.Producing.{ProducerPc, scanning, writing, Producer}
use low_latency_showcase.Disruptor.Threads.Consuming.{ConsumerPc, reading, Consumer}
use low_latency_showcase.Disruptor.Threads.System.{Threads}
use low_latency_showcase.Disruptor.Threads.Memory.{IsMemory}

module _ {ℓ} {A : Type ℓ} (capacity : ℕ) (default : A) where
  -- The log with what is written so far of the batch.
  abbrev pub pending : ProducerPc A → Log A → Log A
  pending (ProducerPc.returned answer) l = l
  pending (ProducerPc.loading count writer) l = l
  pending (scanning count writer index greatest greatest_index) l = l
  pending (writing count writer index) l = append capacity index writer l

  -- Every consumer that the loop has looked at is at most `greatest` behind the tail.
  abbrev pub Seen : ℕ → ℕ → ℕ → Log A → Type 0
  Seen blocker index greatest l =
      (j : ℕ)
      → j < length l.cursors
      → (j < index) ⊎ (j ≡ blocker)
      → l.tail ≤ get_or l.cursors j 0 + greatest

  abbrev pub Fits : ProducerPc A → ProducerCursor → Log A → Type 0
  Fits (ProducerPc.returned answer) c l = Unit
  Fits (ProducerPc.loading count writer) c l = count ≤ capacity
  Fits (scanning count writer index greatest greatest_index) c l =
      (count ≤ capacity)
      × (greatest + count ≤ capacity)
      × (greatest_index < length l.cursors)
      × Seen c.blocking_consumer index greatest l
  Fits (writing count writer index) c l =
      (index ≤ count) × (count ≤ capacity) × (count ≤ c.available_before_rescan)

  pub record IsProducer (p : Producer A) (l : Log A) : Type 0 where
    pub cursor : IsCursor capacity default p.cursor l
    pub fits : Fits p.pc p.cursor l

-- The events of the running call that the handler has been given.
abbrev pub done : ConsumerPc → ℕ
done (ConsumerPc.returned count) = 0
done (ConsumerPc.loading max_count) = 0
done (reading count index) = index

abbrev pub Within : ConsumerPc → ℕ → ℕ → Type 0
Within (ConsumerPc.returned count) position boundary = Unit
Within (ConsumerPc.loading max_count) position boundary = Unit
Within (reading count index) position boundary = (index ≤ count) × (position + count ≤ boundary)

module _ {ℓ κ} {A : Type ℓ} {S : Type κ} (capacity consumer_count : ℕ) (default : A)
    (handler : ℕ → S → A → ℕ → S) (first : ℕ) (s₀ : S) where
  -- A consumer has handled the log's events from `first` up to its position, and those of the
  -- running call, all of them published.
  pub record IsConsumer (i : ℕ) (c : Consumer S) (l : Log A) : Type (ℓ ⊔ κ) where
    pub boundary : ℕ
    pub handle : IsHandle capacity default c.handle boundary l
    pub own : c.handle.consumer_index ≡ i
    pub within : Within c.pc (get_or l.cursors i 0) boundary
    pub begun : first ≤ get_or l.cursors i 0
    pub handled :
        c.state ≡ deliver (handler i) l.stream first (get_or l.cursors i 0 + done c.pc - first) s₀

  pub record View (s : Threads A S) (l : Log A) : Type (ℓ ⊔ κ) where
    pub memory :
        IsMemory capacity default s.memory l.tail (pending capacity default s.producer.pc l)
    pub counted : length l.cursors ≡ consumer_count
    pub producer : IsProducer capacity default s.producer l
    pub consumers : (i : ℕ) → i < length l.cursors → IsConsumer i (s.consumers i) l
