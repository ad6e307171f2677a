-- ===== src/Example/Inv.antt =====
-- What holds of the example at every moment: its threads are in step with one stream of events.
use low_latency_showcase.Prelude.{
  ℕ, ◌+◌, ◌%◌, ◌≤◌, ◌<◌, ◌≡◌, refl, ◌⊎◌, true, Option, none, some, length, get_or, All-get_or,
  arith,
}
use low_latency_showcase.Words.{word, IsCapacity, is_valid_config-IsCapacity}
use low_latency_showcase.Disruptor.State.{ProducerHandle}
use low_latency_showcase.Disruptor.Log.{Log, deliver}
use low_latency_showcase.Disruptor.Invariant.{IsShared, IsCursor, IsHandle}
use low_latency_showcase.Example.{
  MarketEvent, event_count, ring_capacity, no_event, next_batch, Program,
}

pub ring-IsCapacity : IsCapacity ring_capacity
ring-IsCapacity = (is_valid_config-IsCapacity ring_capacity 2 refl).0

-- The event that is published as number `k`.
abbrev pub event_at : ℕ → MarketEvent
event_at k = record { order_id = k; price_ticks = 10000 + k % 64 }

pub next_batch-bounds :
    (published : ℕ)
    → published < event_count
    → (0 < next_batch published)
      × (next_batch published ≤ 64)
      × (published + next_batch published ≤ event_count)
      × ((next_batch published ≡ 64) ⊎ (published + next_batch published ≡ event_count))
unfolding next_batch
next_batch-bounds published lt = ground arith

module _ {κ} {S : Type κ} (handler : ℕ → S → MarketEvent → ℕ → S) (s₀ : S) where
  -- Consumer `i` has handled the events up to its count, and its handle is there.
  pub record Follows (i : ℕ) (p : Program S) (l : Log MarketEvent) : Type κ where
    pub index : (p.consumers i).consumer_index ≡ i
    pub boundary : ℕ
    pub handle : IsHandle ring_capacity no_event (p.consumers i) boundary l
    pub position : get_or l.cursors i 0 ≡ word + p.consumed i
    pub taken : p.states i ≡ deliver (handler i) l.stream word (p.consumed i) s₀

  abbrev pub Leads : Option ProducerHandle → Program S → Log MarketEvent → Type 0
  Leads none p l = IsCursor ring_capacity no_event p.stream.cursor l × (p.published ≡ 0)
  Leads (some h) p l = IsCursor ring_capacity no_event h.cursor l × (p.start ≡ true)

  pub record Inv (p : Program S) (l : Log MarketEvent) : Type κ where
    pub shared : IsShared ring_capacity no_event p.stream.shared l
    pub leads : Leads p.producer p l
    pub tail : l.tail ≡ word + p.published
    pub counted : length l.cursors ≡ 2
    pub follows : (i : ℕ) → i < 2 → Follows i p l
    pub events : (k : ℕ) → k < p.published → l.stream (word + k) ≡ event_at k
    pub aligned : (p.published % 64 ≡ 0) ⊎ (p.published ≡ event_count)
    pub bounded : p.published ≤ event_count

  module _ {p : Program S} {l : Log MarketEvent} (v : Inv p l) where
    -- No consumer is past the publication, or more than the ring's capacity behind it.
    pub within :
        (i : ℕ)
        → i < 2
        → (p.consumed i ≤ p.published) × (p.published ≤ p.consumed i + ring_capacity)
    within i lt =
        let near = All-get_or _ l.cursors i 0 v.shared.within (rw v.counted lt) in
        let at = (v.follows i lt).position in omega (arith, v.tail, near.0, near.1, at)
