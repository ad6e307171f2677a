-- ===== src/Disruptor/Threads/Producing.antt =====
-- `producer_handle::try_publish_batch`, one shared access at a time.
use low_latency_showcase.Prelude.{
  ℕ, ◌+◌, Bool, true, false, Option, none, some, get_or, set, ltb, leb, ◌==◌, if◌then◌else◌,
}
use low_latency_showcase.Words.{add64, sub64, slot}
use low_latency_showcase.Disruptor.State.{Shared, ProducerCursor}
use low_latency_showcase.Disruptor.Publish.{contiguous_count}

-- Where `producer_handle::try_publish_batch` stands: it has returned; it is about to load the
-- blocking consumer's position, or that of the loop's index; or it is about to write the event of
-- an index, or to store the new position.
pub data ProducerPc {ℓ} (A : Type ℓ) : Type ℓ where
  returned : Bool → ProducerPc A
  loading : ℕ → (ℕ → A → A) → ProducerPc A
  scanning : ℕ → (ℕ → A → A) → ℕ → ℕ → ℕ → ProducerPc A
  writing : ℕ → (ℕ → A → A) → ℕ → ProducerPc A

pub record Producer {ℓ} (A : Type ℓ) : Type ℓ where
  pub cursor : ProducerCursor
  pub pc : ProducerPc A

-- The slot that the two loops over spans visit at an index.
unfoldable pub span_slot : ℕ → ℕ → ℕ → ℕ → ℕ
unfolding contiguous_count
span_slot capacity first count index =
    let first_index = slot capacity first in
    let contiguous = contiguous_count capacity first_index count in
    if ltb index contiguous then add64 first_index index else sub64 index contiguous

module _ {ℓ} {A : Type ℓ} (capacity consumer_count : ℕ) (default : A) where
  -- The part of a call before the first shared access.
  unfoldable pub begin_publish : ℕ → (ℕ → A → A) → Producer A → Producer A
  begin_publish count writer p = record p {
    pc =
        if count == 0
        then ProducerPc.returned true
        else if ltb capacity count
        then ProducerPc.returned false
        else if ltb p.cursor.available_before_rescan count
        then ProducerPc.loading count writer
        else writing count writer 0;
  }

  -- The load of a consumer's position in the loop of `refresh_available_capacity`, or its end.
  unfoldable pub scan_move : ℕ → (ℕ → A → A) → ℕ → ℕ → ℕ → Shared A → ProducerCursor → Producer A
  scan_move count writer index greatest greatest_index m c =
      let lag = sub64 c.next_to_publish (get_or m.consumers index 0) in
      if leb consumer_count index
      then record {
        cursor = record c {
          blocking_consumer = greatest_index;
          available_before_rescan = sub64 capacity greatest;
        };
        pc = writing count writer 0;
      }
      else if index == c.blocking_consumer
      then record { cursor = c; pc = scanning count writer (index + 1) greatest greatest_index }
      else if ltb (sub64 capacity count) lag
      then record {
        cursor = record c { blocking_consumer = index };
        pc = ProducerPc.returned false;
      }
      else if ltb greatest lag
      then record { cursor = c; pc = scanning count writer (index + 1) lag index }
      else record { cursor = c; pc = scanning count writer (index + 1) greatest greatest_index }

  -- The load of the blocking consumer's position.
  unfoldable pub load_blocker : ℕ → (ℕ → A → A) → Shared A → ProducerCursor → Producer A
  load_blocker count writer m c =
      let greatest = sub64 c.next_to_publish (get_or m.consumers c.blocking_consumer 0) in
      record {
        cursor = c;
        pc =
            if ltb (sub64 capacity count) greatest
            then ProducerPc.returned false
            else scanning count writer 0 greatest c.blocking_consumer;
      }

  -- The call of the writer on one event.
  unfoldable pub write_move : ℕ → (ℕ → A → A) → ℕ → Shared A → ProducerCursor → Shared A
  unfolding span_slot
  write_move count writer index m c =
      let x = span_slot capacity c.next_to_publish count index in
      record m { events = set m.events x (writer index (get_or m.events x default)) }

  -- The store of `published_`, with the two updates of the handle before it.
  unfoldable pub store_published : ℕ → Shared A → ProducerCursor → Shared A × ProducerCursor
  store_published count m c =
      let next = add64 c.next_to_publish count in
      (
        record m { published = next },
        record c {
          next_to_publish = next;
          available_before_rescan = sub64 c.available_before_rescan count;
        },
      )

  unfoldable pub pc_move : ProducerPc A → Shared A → ProducerCursor → Shared A × Producer A
  unfolding scan_move load_blocker write_move store_published
  pc_move (ProducerPc.returned answer) m c =
      (m, record { cursor = c; pc = ProducerPc.returned answer })
  pc_move (ProducerPc.loading count writer) m c = (m, load_blocker count writer m c)
  pc_move (scanning count writer index greatest greatest_index) m c =
      (m, scan_move count writer index greatest greatest_index m c)
  pc_move (writing count writer index) m c =
      if ltb index count
      then (
        write_move count writer index m c,
        record { cursor = c; pc = writing count writer (index + 1) },
      )
      else (let (m', c') = store_published count m c in
          (m', record { cursor = c'; pc = ProducerPc.returned true }))

  unfoldable pub producer_move : Shared A → Producer A → Shared A × Producer A
  unfolding pc_move
  producer_move m p = pc_move p.pc m p.cursor

  -- The slot that the producer writes next.
  unfoldable pub pc_slot : ProducerPc A → ProducerCursor → Option ℕ
  pc_slot (ProducerPc.returned answer) c = none
  pc_slot (ProducerPc.loading count writer) c = none
  pc_slot (scanning count writer index greatest greatest_index) c = none
  pc_slot (writing count writer index) c =
      if ltb index count then some (span_slot capacity c.next_to_publish count index) else none

  unfoldable pub producer_slot : Producer A → Option ℕ
  unfolding pc_slot
  producer_slot p = pc_slot p.pc p.cursor
