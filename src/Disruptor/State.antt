-- ===== src/Disruptor/State.antt =====
-- single_producer_disruptor: the data that the threads share, and the data that each of them owns.
use low_latency_showcase.Prelude.{
  ℕ, Bool, true, false, List, replicate, length, get_or, leb, if◌then◌else◌,
}
use low_latency_showcase.Words.{max_word, sub64}

-- `storage_->events`, `published_` and `consumers_`. The length of `consumers` is ConsumerCount.
pub record Shared {ℓ} (A : Type ℓ) : Type ℓ where
  pub events : List A
  pub published : ℕ
  pub consumers : List ℕ

-- `next_to_publish_`, `available_before_rescan_` and `blocking_consumer_`: the fields that the
-- disruptor and a producer handle both have.
pub record ProducerCursor : Type 0 where
  pub next_to_publish : ℕ
  pub available_before_rescan : ℕ
  pub blocking_consumer : ℕ

pub record Disruptor {ℓ} (A : Type ℓ) : Type ℓ where
  pub shared : Shared A
  pub cursor : ProducerCursor

-- `owned` is `owner_ != nullptr`.
pub record ProducerHandle : Type 0 where
  pub owned : Bool
  pub cursor : ProducerCursor

-- `ConsumerIndex` is the template argument of the handle.
pub record ConsumerHandle : Type 0 where
  pub owned : Bool
  pub consumer_index : ℕ
  pub next_position : ℕ
  pub cached_published_position : ℕ

-- The constructor: value-initialised events, and every position at `initial_position`.
unfoldable pub init {ℓ} : {A : Type ℓ} → A → ℕ → ℕ → ℕ → Disruptor A
init default capacity consumer_count initial_position = record {
  shared = record {
    events = replicate capacity default;
    published = initial_position;
    consumers = replicate consumer_count initial_position;
  };
  cursor = record {
    next_to_publish = initial_position;
    available_before_rescan = capacity;
    blocking_consumer = 0;
  };
}

module _ {ℓ} {A : Type ℓ} where
  unfoldable pub published_sequence : Shared A → ℕ
  published_sequence m = sub64 m.published 1

  unfoldable pub published_position : Shared A → ℕ
  published_position m = m.published

  unfoldable pub consumer_sequence : Shared A → ℕ → ℕ
  consumer_sequence m consumer_index =
      if leb (length m.consumers) consumer_index
      then max_word
      else sub64 (get_or m.consumers consumer_index 0) 1

  unfoldable pub consumer_position : Shared A → ℕ → ℕ
  consumer_position m consumer_index =
      if leb (length m.consumers) consumer_index then 0 else get_or m.consumers consumer_index 0

  -- `make_producer`: the handle starts from the disruptor's own cursor.
  unfoldable pub make_producer : Disruptor A → ProducerHandle
  make_producer d = record { owned = true; cursor = d.cursor }

  -- `synchronize_owner_state`, which the handle's destructor calls.
  unfoldable pub synchronize_owner_state : ProducerHandle → Disruptor A → Disruptor A
  synchronize_owner_state h d = if h.owned then record d { cursor = h.cursor } else d

  -- `make_consumer`: the handle starts from the consumer's released position.
  unfoldable pub make_consumer : Shared A → ℕ → ConsumerHandle
  make_consumer m consumer_index =
      let position = get_or m.consumers consumer_index 0 in
      record {
        owned = true;
        consumer_index = consumer_index;
        next_position = position;
        cached_published_position = position;
      }

-- The move constructors: the new handle, and the handle moved from.
unfoldable pub move_producer : ProducerHandle → ProducerHandle × ProducerHandle
move_producer other = (other, record other { owned = false })

unfoldable pub move_consumer : ConsumerHandle → ConsumerHandle × ConsumerHandle
move_consumer other = (other, record other { owned = false })
