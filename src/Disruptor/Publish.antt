-- ===== src/Disruptor/Publish.antt =====
-- Publication: the capacity check with its cache, and the two loops that write a batch.
pub mod Loop
pub mod Capacity
pub mod Refine
pub mod Contract
use low_latency_showcase.Prelude.{
  ℕ, zero, suc, ◌+◌, ◌-◌, Bool, true, false, List, [], ◌∷◌, get_or, set, ltb, ◌==◌, if◌then◌else◌,
}
use low_latency_showcase.Words.{add64, sub64, slot}
use low_latency_showcase.Disruptor.State.{Shared, ProducerCursor, Disruptor, ProducerHandle}

-- How the loop over the consumers ends: at one whose lag is too great, or with the greatest lag
-- and the index that has it.
pub data Scan : Type 0 where
  blocked : ℕ → Scan
  scanned : ℕ → ℕ → Scan

-- `for (index = 0; index < ConsumerCount; ++index)` of `refresh_available_capacity`, from `index`
-- on; the list is the rest of `consumers_`.
unfoldable pub scan : ℕ → ℕ → ℕ → List ℕ → ℕ → ℕ → ℕ → Scan
scan maximum_lag next blocker [] index greatest greatest_index = scanned greatest greatest_index
scan maximum_lag next blocker (position ∷ rest) index greatest greatest_index =
    let lag = sub64 next position in
    let onward = scan maximum_lag next blocker rest (index + 1) greatest greatest_index in
    let raised = scan maximum_lag next blocker rest (index + 1) lag index in
    if index == blocker
    then onward
    else if ltb maximum_lag lag
    then blocked index
    else if ltb greatest lag
    then raised
    else onward

-- What `refresh_available_capacity` stores, by the end of its loop.
unfoldable pub settle : ℕ → ProducerCursor → Scan → Bool × ProducerCursor
settle capacity c (blocked index) = (false, record c { blocking_consumer = index })
settle capacity c (scanned greatest greatest_index) = (
  true,
  record c {
    blocking_consumer = greatest_index;
    available_before_rescan = sub64 capacity greatest;
  },
)

unfoldable pub refresh_available_capacity : ℕ → List ℕ → ProducerCursor → ℕ → Bool × ProducerCursor
unfolding settle
refresh_available_capacity capacity consumers c required =
    let maximum_lag = sub64 capacity required in
    let next = c.next_to_publish in
    let blocker = c.blocking_consumer in
    let greatest = sub64 next (get_or consumers blocker 0) in
    if ltb maximum_lag greatest
    then (false, c)
    else settle capacity c (scan maximum_lag next blocker consumers 0 greatest blocker)

-- The length of the first of two spans, up to the end of the ring.
unfoldable pub contiguous_count : ℕ → ℕ → ℕ → ℕ
contiguous_count capacity first_index count =
    let room = sub64 capacity first_index in if ltb count room then count else room

module _ {ℓ} {A : Type ℓ} (capacity : ℕ) (default : A) where
  -- `for (; index < end; ++index) writer(events[at(index)], index)`, with the number of rounds
  -- left. The writer gets the index and the recycled event, and returns the event that it leaves.
  unfoldable pub write_span : (ℕ → A → A) → (ℕ → ℕ) → ℕ → ℕ → List A → List A
  write_span writer at zero index events = events
  write_span writer at (suc n) index events =
      write_span writer at n (index + 1)
        (set events (at index) (writer index (get_or events (at index) default)))

  -- The loop of the disruptor's own `try_publish_batch`: `event_at` masks every sequence.
  unfoldable pub write_events : (ℕ → A → A) → ℕ → ℕ → List A → List A
  write_events writer first count events =
      write_span writer (λ index. slot capacity (add64 first index)) count 0 events

  -- The two loops of the handle's `try_publish_batch`: up to the end of the ring, and from its
  -- start.
  unfoldable pub write_two_spans : (ℕ → A → A) → ℕ → ℕ → List A → List A
  write_two_spans writer first count events =
      let first_index = slot capacity first in
      let contiguous = contiguous_count capacity first_index count in
      write_span writer (λ index. sub64 index contiguous) (count - contiguous) contiguous
        (write_span writer (λ index. add64 first_index index) contiguous 0 events)

  -- Both `try_publish_batch`es, up to the loop `write` that fills the claimed slots.
  unfoldable pub commit :
      (ℕ → ℕ → List A → List A) → ℕ → Shared A → ProducerCursor → Bool × Shared A × ProducerCursor
  commit write count m c =
      let first = c.next_to_publish in
      let next = add64 first count in
      (
        true,
        record m { events = write first count m.events; published = next },
        record c {
          next_to_publish = next;
          available_before_rescan = sub64 c.available_before_rescan count;
        },
      )

  unfoldable pub publish_with :
      (ℕ → ℕ → List A → List A) → ℕ → Shared A → ProducerCursor → Bool × Shared A × ProducerCursor
  unfolding commit
  publish_with write count m c =
      if count == 0
      then (true, m, c)
      else if ltb capacity count
      then (false, m, c)
      else if ltb c.available_before_rescan count
      then (let (refreshed, c') = refresh_available_capacity capacity m.consumers c count in
          if refreshed then commit write count m c' else (false, m, c'))
      else commit write count m c

  -- `single_producer_disruptor::try_publish_batch`
  unfoldable pub try_publish_batch : ℕ → (ℕ → A → A) → Disruptor A → Bool × Disruptor A
  unfolding publish_with write_events
  try_publish_batch count writer d =
      let (published, m, c) = publish_with (write_events writer) count d.shared d.cursor in
      (published, record { shared = m; cursor = c })

  -- `single_producer_disruptor::try_publish`
  unfoldable pub try_publish : (A → A) → Disruptor A → Bool × Disruptor A
  unfolding try_publish_batch
  try_publish writer d = try_publish_batch 1 (λ index event. writer event) d

  -- `producer_handle::try_publish_batch`
  unfoldable pub handle_try_publish_batch :
      ℕ → (ℕ → A → A) → Shared A → ProducerHandle → Bool × Shared A × ProducerHandle
  unfolding publish_with write_two_spans
  handle_try_publish_batch count writer m h =
      let (published, m', c) = publish_with (write_two_spans writer) count m h.cursor in
      (published, m', record h { cursor = c })

  -- `producer_handle::try_publish`
  unfoldable pub handle_try_publish :
      (A → A) → Shared A → ProducerHandle → Bool × Shared A × ProducerHandle
  unfolding handle_try_publish_batch
  handle_try_publish writer m h = handle_try_publish_batch 1 (λ index event. writer event) m h
