-- ===== src/Disruptor/Threads/Consuming.antt =====
-- `consumer_handle::consume_available`, one shared access at a time.
use low_latency_showcase.Prelude.{ℕ, ◌+◌, Option, none, some, get_or, set, ltb, ◌==◌, if◌then◌else◌}
use low_latency_showcase.Words.{add64, sub64}
use low_latency_showcase.Disruptor.State.{Shared, ConsumerHandle}
use low_latency_showcase.Disruptor.Threads.Producing.{span_slot}

-- Where `consumer_handle::consume_available` stands: it has returned; it is about to load the
-- publication; or it is about to read the event of an index, or to store the new position.
pub data ConsumerPc : Type 0 where
  returned : ℕ → ConsumerPc
  loading : ℕ → ConsumerPc
  reading : ℕ → ℕ → ConsumerPc

-- `state` is what the handler captures.
pub record Consumer {κ} (S : Type κ) : Type κ where
  pub handle : ConsumerHandle
  pub pc : ConsumerPc
  pub state : S

module _ {ℓ κ} {A : Type ℓ} {S : Type κ} (capacity : ℕ) (default : A)
    (handler : S → A → ℕ → S) where
  -- What a call does once it knows how much is available.
  unfoldable pub begin_read : ℕ → ℕ → ConsumerPc
  begin_read available_count max_count =
      reading (if ltb available_count max_count then available_count else max_count) 0

  unfoldable pub begin_consume : ℕ → Consumer S → Consumer S
  unfolding begin_read
  begin_consume max_count c =
      let available_count = sub64 c.handle.cached_published_position c.handle.next_position in
      record c {
        pc =
            if max_count == 0
            then ConsumerPc.returned 0
            else if available_count == 0
            then ConsumerPc.loading max_count
            else begin_read available_count max_count;
      }

  -- The load of `published_`.
  unfoldable pub load_published : ℕ → Shared A → Consumer S → Consumer S
  unfolding begin_read
  load_published max_count m c =
      let available_count = sub64 m.published c.handle.next_position in
      record c {
        handle = record c.handle { cached_published_position = m.published };
        pc =
            if available_count == 0
            then ConsumerPc.returned 0
            else begin_read available_count max_count;
      }

  -- The call of the handler on one event.
  unfoldable pub read_move : ℕ → ℕ → Shared A → Consumer S → Consumer S
  unfolding span_slot
  read_move count index m c =
      let first = c.handle.next_position in
      record c {
        pc = reading count (index + 1);
        state =
            handler c.state (get_or m.events (span_slot capacity first count index) default)
              (add64 first index);
      }

  -- The store of the consumer's position, with the update of the handle before it.
  unfoldable pub store_position : ℕ → Shared A → Consumer S → Shared A × Consumer S
  store_position count m c =
      let next = add64 c.handle.next_position count in
      (
        record m { consumers = set m.consumers c.handle.consumer_index next },
        record c {
          handle = record c.handle { next_position = next };
          pc = ConsumerPc.returned count;
        },
      )

  unfoldable pub consumer_pc_move : ConsumerPc → Shared A → Consumer S → Shared A × Consumer S
  unfolding load_published read_move store_position
  consumer_pc_move (ConsumerPc.returned count) m c = (m, c)
  consumer_pc_move (ConsumerPc.loading max_count) m c = (m, load_published max_count m c)
  consumer_pc_move (reading count index) m c =
      if ltb index count then (m, read_move count index m c) else store_position count m c

  unfoldable pub consumer_move : Shared A → Consumer S → Shared A × Consumer S
  unfolding consumer_pc_move
  consumer_move m c = consumer_pc_move c.pc m c

  -- The slot that the consumer reads next.
  unfoldable pub consumer_pc_slot : ConsumerPc → ConsumerHandle → Option ℕ
  consumer_pc_slot (ConsumerPc.returned count) h = none
  consumer_pc_slot (ConsumerPc.loading max_count) h = none
  consumer_pc_slot (reading count index) h =
      if ltb index count then some (span_slot capacity h.next_position count index) else none

  unfoldable pub consumer_slot : Consumer S → Option ℕ
  unfolding consumer_pc_slot
  consumer_slot c = consumer_pc_slot c.pc c.handle
