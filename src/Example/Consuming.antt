-- ===== src/Example/Consuming.antt =====
-- A round of a consumer's loop.
use low_latency_showcase.Prelude.{
  ℕ, ◌+◌, ◌-◌, ◌≤◌, ◌<◌, ◌≡◌, ◌≢◌, refl, ◌∙◌, inl, inr, true, Option, none, some, length, get_or,
  set, min, All-get_or, length-set, get_or-set_self, get_or-set_ne, ◌==◌, Bool-cases, arith, subst,
}
use low_latency_showcase.Words.{word}
use low_latency_showcase.Disruptor.State.{ProducerHandle}
use low_latency_showcase.Disruptor.Log
use low_latency_showcase.Disruptor.Log.{Log, append, has_room, deliver}
use low_latency_showcase.Disruptor.Log.Order.{deliver-add}
use low_latency_showcase.Disruptor.Invariant.{IsShared, IsHandle, IsHandle-apart}
use low_latency_showcase.Disruptor.Consume.Handle.{
  handle_boundary, HandleTakes, handle_consume_available-HandleTakes,
  consumer_index-handle_consume_available,
}
use low_latency_showcase.Disruptor.Consume.Refine.{advance-IsCursor}
use low_latency_showcase.Example.{MarketEvent, ring_capacity, no_event, Program, consume_round}
use low_latency_showcase.Disruptor.Consume.{handle_consume_available}
use low_latency_showcase.Example.Inv.{ring-IsCapacity, Follows, Leads, Inv}

module _ {κ} {S : Type κ} (handler : ℕ → S → MarketEvent → ℕ → S) (s₀ : S) {p : Program S}
    {l : Log MarketEvent} (v : Inv handler s₀ p l) (i : ℕ) (lt : i < 2) where
  abbrev f : Follows handler s₀ i p l
  f = v.follows i lt

  abbrev cursor : ℕ
  cursor = get_or l.cursors i 0

  abbrev boundary : ℕ
  boundary = handle_boundary 64 f.boundary cursor l.tail

  abbrev count : ℕ
  count = min 64 (boundary - cursor)

  abbrev drawn : Log MarketEvent
  drawn = record l { cursors = set l.cursors i (cursor + count) }

  abbrev inside : i < length l.cursors
  inside = rw v.counted lt

  answer :
      (let (n, m, h, s) =
          handle_consume_available ring_capacity no_event
            (handler i)
            64
            p.stream.shared
            (p.consumers i)
            (p.states i) in
        (n ≡ count)
        × IsShared ring_capacity no_event m drawn
        × IsHandle ring_capacity no_event h boundary drawn
        × (h.consumer_index ≡ i)
        × (s ≡ deliver (handler i) l.stream cursor count (p.states i)))
  unfolding Log.consume
  answer =
      let ((n, shared, state), mine) =
        subst
          (λ k.
            let b = handle_boundary 64 f.boundary (get_or l.cursors k 0) l.tail in
            HandleTakes ring-IsCapacity no_event (handler i) b
              (handle_consume_available ring_capacity no_event (handler i) 64 p.stream.shared
                (p.consumers i) (p.states i))
              (Log.consume (handler i) b k 64 l (p.states i)))
          f.index
          (handle_consume_available-HandleTakes ring-IsCapacity no_event (handler i) v.shared
            f.handle 64 (p.states i)) in
      (
        n,
        shared,
        mine,
        consumer_index-handle_consume_available ring-IsCapacity no_event (handler i) 64
              p.stream.shared (p.consumers i) (p.states i)
            ∙ f.index,
        state,
      )

  count-bounds : (cursor + count ≤ l.tail) × (cursor < l.tail → 0 < count)
  count-bounds =
      let top = (All-get_or _ l.cursors i 0 v.shared.within inside).0 in
      let known = f.handle.published in (ground arith, λ more. ground arith)

  taken-more :
      deliver (handler i) l.stream cursor count (p.states i)
      ≡ deliver (handler i) l.stream word (p.consumed i + count) s₀
  taken-more =
      rw f.taken (
        rw (← f.position) at
          (deliver-add {S = S} (handler i) l.stream word (p.consumed i) count s₀))

  Leads-consume :
      (o : Option ProducerHandle) (q : Program S)
      → q.stream.cursor ≡ p.stream.cursor
      → q.published ≡ p.published
      → q.start ≡ p.start
      → Leads handler s₀ o p l
      → Leads handler s₀ o q drawn
  Leads-consume none q same e st (w, z) = (
    rw same (advance-IsCursor ring_capacity no_event i (cursor + count) w inside (omega arith)),
    e ∙ z,
  )
  Leads-consume (some h) q same e st (w, z) =
      (advance-IsCursor ring_capacity no_event i (cursor + count) w inside (omega arith), st ∙ z)

  pub consume_round-Inv : Inv handler s₀ (consume_round handler i p) drawn
  unfolding consume_round
  consume_round-Inv =
      let (n, shared, mine, index, state) = answer in
      record {
        shared = shared;
        leads = Leads-consume p.producer _ refl refl refl v.leads;
        tail = v.tail;
        counted = length-set l.cursors i (cursor + count) ∙ v.counted;
        follows = λ j below. elim (Bool-cases (i == j)) [
          | inl here ↦
              let same : (i == i) ≡ true = ground arith in
              let e : i ≡ j = ground arith in
              subst (λ k. Follows handler s₀ k (consume_round handler i p) drawn) e
                (record {
                  index = rw same index;
                  boundary = boundary;
                  handle = rw same mine;
                  position =
                      rw (same, n)
                        (get_or-set_self l.cursors i (cursor + count) 0 inside
                          ∙ omega (arith, f.position));
                  taken = rw (same, n) (state ∙ taken-more);
                })
          | inr other ↦
              let apart : i ≢ j = λ q. ground arith in
              let g = v.follows j below in
              record {
                index = rw other g.index;
                boundary = g.boundary;
                handle =
                    rw other
                      (IsHandle-apart g.handle i (cursor + count) (λ q. apart (q ∙ g.index)));
                position =
                    rw (other, get_or-set_ne l.cursors i j (cursor + count) 0 apart) g.position;
                taken = rw other g.taken;
              }
        ];
        events = v.events;
        aligned = v.aligned;
        bounded = v.bounded;
      }

  -- The round moves no count back, and moves the consumer's own on where there is an event for it.
  pub consumed-consume_round :
      ((j : ℕ) → p.consumed j ≤ (consume_round handler i p).consumed j)
      × (p.consumed i < p.published → p.consumed i < (consume_round handler i p).consumed i)
  unfolding consume_round
  consumed-consume_round = (
    (λ j. elim (Bool-cases (i == j)) [
      | inl here ↦ let e : i ≡ j = ground arith in rw here (rw e (omega arith))
      | inr other ↦ rw other (omega arith)
    ]),
    (λ more.
        let same : (i == i) ≡ true = ground arith in
        rw (same, answer.0) (omega (arith, count-bounds.1 (omega (arith, f.position, v.tail))))),
  )
