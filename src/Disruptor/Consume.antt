-- ===== src/Disruptor/Consume.antt =====
-- Consumption: the disruptor's own `consume_available`, and the handle's with its cached boundary.
pub mod Loop
pub mod Refine
pub mod One
pub mod Handle
use low_latency_showcase.Prelude.{
  ℕ, zero, suc, ◌+◌, ◌-◌, Bool, true, false, ◌||◌, List, length, get_or, set, ltb, leb, ◌==◌,
  if◌then◌else◌,
}
use low_latency_showcase.Words.{add64, sub64, slot}
use low_latency_showcase.Disruptor.State.{Shared, ConsumerHandle}
use low_latency_showcase.Disruptor.Publish.{contiguous_count}

module _ {ℓ κ} {A : Type ℓ} {S : Type κ} (capacity : ℕ) (default : A)
    (handler : S → A → ℕ → S) where
  -- `for (; index < end; ++index) handler(events[at(index)], first + index)`, with the number of
  -- rounds left. `S` is the state that the handler captures.
  unfoldable pub read_span : (ℕ → ℕ) → ℕ → ℕ → ℕ → List A → S → S
  read_span at first zero index events s = s
  read_span at first (suc n) index events s =
      read_span at first n (index + 1) events
        (handler s (get_or events (at index) default) (add64 first index))

  -- The loop of the disruptor's own `consume_available`.
  unfoldable pub read_events : ℕ → ℕ → List A → S → S
  read_events first count = read_span (λ index. slot capacity (add64 first index)) first count 0

  -- The two loops of the handle's `consume_available`.
  unfoldable pub read_two_spans : ℕ → ℕ → List A → S → S
  read_two_spans first count events s =
      let first_index = slot capacity first in
      let contiguous = contiguous_count capacity first_index count in
      read_span (λ index. sub64 index contiguous) first (count - contiguous) contiguous events
        (read_span (λ index. add64 first_index index) first contiguous 0 events s)

  -- `single_producer_disruptor::consume_available`
  unfoldable pub consume_available : ℕ → ℕ → Shared A → S → ℕ × Shared A × S
  consume_available consumer_index max_count m s =
      let first = get_or m.consumers consumer_index 0 in
      let available_count = sub64 m.published first in
      let count = if ltb available_count max_count then available_count else max_count in
      if leb (length m.consumers) consumer_index || max_count == 0
      then (0, m, s)
      else if available_count == 0
      then (0, m, s)
      else (
        count,
        record m { consumers = set m.consumers consumer_index (add64 first count) },
        read_events first count m.events s,
      )

  -- The part of the handle's `consume_available` behind the reload of the boundary.
  unfoldable pub consume_cached :
      ℕ → ℕ → Shared A → ConsumerHandle → S → ℕ × Shared A × ConsumerHandle × S
  consume_cached available_count max_count m h s =
      let count = if ltb available_count max_count then available_count else max_count in
      let first = h.next_position in
      let next = add64 first count in
      (
        count,
        record m { consumers = set m.consumers h.consumer_index next },
        record h { next_position = next },
        read_two_spans first count m.events s,
      )

  -- `consumer_handle::consume_available`
  unfoldable pub handle_consume_available :
      ℕ → Shared A → ConsumerHandle → S → ℕ × Shared A × ConsumerHandle × S
  unfolding consume_cached
  handle_consume_available max_count m h s =
      let cached = sub64 h.cached_published_position h.next_position in
      let reloaded = sub64 m.published h.next_position in
      let h' = record h { cached_published_position = m.published } in
      if max_count == 0
      then (0, m, h, s)
      else if cached == 0
      then if reloaded == 0 then (0, m, h', s) else consume_cached reloaded max_count m h' s
      else consume_cached cached max_count m h s

module _ {ℓ κ} {A : Type ℓ} {S : Type κ} (capacity : ℕ) (default : A) (handler : S → A → S) where
  -- `single_producer_disruptor::try_consume`
  unfoldable pub try_consume : ℕ → Shared A → S → Bool × Shared A × S
  unfolding consume_available
  try_consume consumer_index m s =
      let (count, m', s') =
        consume_available capacity default (λ s event sequence. handler s event) consumer_index 1 m
          s in
      (count == 1, m', s')

  -- `consumer_handle::try_consume`
  unfoldable pub handle_try_consume :
      Shared A → ConsumerHandle → S → Bool × Shared A × ConsumerHandle × S
  unfolding handle_consume_available
  handle_try_consume m h s =
      let (count, m', h', s') =
        handle_consume_available capacity default (λ s event sequence. handler s event) 1 m h s in
      (count == 1, m', h', s')
