-- ===== src/Example/Publishing.antt =====
-- A round of the publication loop.
use low_latency_showcase.Prelude.{
  ℕ, ◌+◌, ◌-◌, ◌%◌, ◌≤◌, ◌<◌, ◌≡◌, refl, sym, ◌∙◌, ◌⊎◌, inl, inr, Bool, true, false, ltb, leb, ◌==◌,
  Bool-cases, arith,
}
use low_latency_showcase.Words.{word}
use low_latency_showcase.Disruptor.State.{ProducerHandle}
use low_latency_showcase.Disruptor.Log
use low_latency_showcase.Disruptor.Log.{Log, append, has_room, deliver}
use low_latency_showcase.Disruptor.Log.Order.{deliver-congr}
use low_latency_showcase.Disruptor.Invariant.{IsShared, IsCursor, IsHandle-grown}
use low_latency_showcase.Disruptor.Publish.{handle_try_publish_batch}
use low_latency_showcase.Disruptor.Publish.Contract.{handle_try_publish_batch-Agrees}
use low_latency_showcase.Example.{
  MarketEvent, event_count, ring_capacity, no_event, next_batch, write_event, Program,
  publish_round,
}
use low_latency_showcase.Example.Inv.{ring-IsCapacity, event_at, next_batch-bounds, Inv, within}

-- An event of the batch that starts at a multiple of the batch size.
written :
    (published k : ℕ) (old : MarketEvent)
    → published % 64 ≡ 0
    → published ≤ k
    → k < published + 64
    → write_event published (k - published) old ≡ event_at k
unfolding write_event
written published k old aligned low high =
    let number : published + (k - published) ≡ k = omega arith in
    let offset : k - published ≡ k % 64 = omega arith in
    λ i. record { order_id = number i; price_ticks = 10000 + offset i }

module _ {κ} {S : Type κ} (handler : ℕ → S → MarketEvent → ℕ → S) (s₀ : S) {p : Program S}
    {l : Log MarketEvent} (v : Inv handler s₀ p l) (h : ProducerHandle)
    (w : IsCursor ring_capacity no_event h.cursor l) (started : p.start ≡ true)
    (lt : p.published < event_count) where
  abbrev batch : ℕ
  batch = next_batch p.published

  abbrev bounds :
      (0 < batch)
      × (batch ≤ 64)
      × (p.published + batch ≤ event_count)
      × ((batch ≡ 64) ⊎ (p.published + batch ≡ event_count))
  bounds = next_batch-bounds p.published lt

  abbrev grown : Log MarketEvent
  grown = append ring_capacity batch (write_event p.published) l

  granted :
      has_room ring_capacity (l.tail + batch) l.cursors ≡ true
      → Log.publish ring_capacity batch (write_event p.published) l ≡ (true, grown)
  unfolding Log.publish
  granted room =
      let some : (batch == 0) ≡ false = ground (arith, bounds) in
      let fits : leb batch ring_capacity ≡ true = ground (arith, bounds) in
      rw (some, fits, room) refl

  refused :
      has_room ring_capacity (l.tail + batch) l.cursors ≡ false
      → Log.publish ring_capacity batch (write_event p.published) l ≡ (false, l)
  unfolding Log.publish
  refused room =
      let some : (batch == 0) ≡ false = ground (arith, bounds) in
      let fits : leb batch ring_capacity ≡ true = ground (arith, bounds) in
      rw (some, fits, room) refl

  aligned : p.published % 64 ≡ 0
  aligned = elim v.aligned [ inl a ↦ a | inr end ↦ absurd (omega arith) ]

  grown_kept : (s : ℕ) → s < l.tail → grown.stream s ≡ l.stream s
  unfolding append
  grown_kept s below = ground arith

  grown_new : (k : ℕ) → k < p.published + batch → grown.stream (word + k) ≡ event_at k
  unfolding append
  grown_new k below = elim (Bool-cases (leb l.tail (word + k))) [
    | inl new ↦
        let inside : ltb (word + k) (l.tail + batch) ≡ true = ground (arith, v.tail) in
        let offset : word + k - l.tail ≡ k - p.published = omega (arith, v.tail) in
        rw (new, inside, offset)
          (written p.published k _ aligned (ground (arith, v.tail)) (omega (arith, bounds)))
    | inr old ↦ rw old (v.events k (ground (arith, v.tail)))
  ]

  answer :
      (done' : Bool) (l' : Log MarketEvent)
      → Log.publish ring_capacity batch (write_event p.published) l ≡ (done', l')
      → (let (done, m, h') =
            handle_try_publish_batch ring_capacity no_event batch
              (write_event p.published)
              p.stream.shared
              h in
          (done ≡ done')
          × IsShared ring_capacity no_event m l'
          × IsCursor ring_capacity no_event h'.cursor l')
  answer done' l' e = rw e at (
      handle_try_publish_batch-Agrees ring-IsCapacity no_event batch (write_event p.published) h
        v.shared w)

  pub granted-Inv :
      has_room ring_capacity (l.tail + batch) l.cursors ≡ true
      → Inv handler s₀ (publish_round handler h p) grown
        × ((publish_round handler h p).published ≡ p.published + batch)
  unfolding publish_round append
  granted-Inv room =
      let (done, shared, cursor) = answer true grown (granted room) in
      (
        record {
          shared = shared;
          leads = (cursor, started);
          tail = rw done (omega (arith, v.tail));
          counted = v.counted;
          follows = λ i inside.
              let f = v.follows i inside in
              record {
                index = f.index;
                boundary = f.boundary;
                handle = IsHandle-grown f.handle refl (omega arith);
                position = f.position;
                taken =
                    f.taken
                    ∙ deliver-congr (handler i) l.stream grown.stream word (p.consumed i) s₀
                        (λ j below.
                          sym (grown_kept j (omega (arith, v.tail, within handler s₀ v i inside))));
              };
          events = rw done grown_new;
          aligned =
              rw done
                (elim bounds.3 [ inl full ↦ inl (omega (arith, aligned)) | inr end ↦ inr end ]);
          bounded = rw done (omega (arith, bounds));
        },
        rw done refl,
      )

  pub refused-Inv :
      has_room ring_capacity (l.tail + batch) l.cursors ≡ false
      → Inv handler s₀ (publish_round handler h p) l
        × ((publish_round handler h p).published ≡ p.published)
  unfolding publish_round
  refused-Inv room =
      let (done, shared, cursor) = answer false l (refused room) in
      (
        record {
          shared = shared;
          leads = (cursor, started);
          tail = rw done v.tail;
          counted = v.counted;
          follows = λ i inside.
              let f = v.follows i inside in
              record {
                index = f.index;
                boundary = f.boundary;
                handle = f.handle;
                position = f.position;
                taken = f.taken;
              };
          events = rw done v.events;
          aligned = rw done v.aligned;
          bounded = rw done v.bounded;
        },
        rw done refl,
      )
