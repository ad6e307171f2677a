-- ===== src/Example/Progress.antt =====
-- The turns of the example's threads keep its state standing, and undo nothing.
use low_latency_showcase.Prelude.{
  ℕ, zero, suc, ◌+◌, ◌-◌, ◌≤◌, ◌<◌, ◌≡◌, refl, sym, ◌∙◌, ◌⊎◌, inl, inr, Bool, true, Option, none,
  some, All-of-get_or, ltb, Bool-cases, if◌then◌else◌, arith, subst,
}
use mathlib.Core.Bool.{true≢false}
use low_latency_showcase.Disruptor.State.{ProducerHandle, make_producer}
use low_latency_showcase.Disruptor.Log.{Log, has_room}
use low_latency_showcase.Disruptor.Invariant.{All→has_room}
use low_latency_showcase.Example.{
  MarketEvent, event_count, ring_capacity, next_batch, Program, main_step, consume_round,
  consumer_step,
}
use low_latency_showcase.Example.{Turn, main_turn, risk_turn, journal_turn}
use low_latency_showcase.Example.Inv.{next_batch-bounds, Leads, Inv}
use low_latency_showcase.Example.Publishing.{granted-Inv, refused-Inv}
use low_latency_showcase.Example.Consuming.{consume_round-Inv, consumed-consume_round}

abbrev pub opening : Option ProducerHandle → ℕ
opening none = 1
opening (some h) = 0

pub opening_le : (o : Option ProducerHandle) → opening o ≤ 1
opening_le none = omega arith
opening_le (some h) = omega arith

module _ {κ} {S : Type κ} where
  -- The work that is left: to make the producer's handle, and the events to publish and to consume.
  unfoldable pub work_left : Program S → ℕ
  work_left p =
      opening p.producer
      + (event_count - p.published)
      + (event_count - p.consumed 0)
      + (event_count - p.consumed 1)

  -- A turn that does some of the work.
  unfoldable pub IsEnabled : Turn → Program S → Type 0
  IsEnabled main_turn p =
      (opening p.producer ≡ 1)
      ⊎ ((p.published < event_count) × (p.consumed 0 ≡ p.published) × (p.consumed 1 ≡ p.published))
  IsEnabled risk_turn p = p.consumed 0 < p.published
  IsEnabled journal_turn p = p.consumed 1 < p.published

module _ {κ} {S : Type κ} (handler : ℕ → S → MarketEvent → ℕ → S) (s₀ : S) where
  started :
      (p : Program S) (l : Log MarketEvent) (o : Option ProducerHandle)
      → Leads handler s₀ o p l
      → 0 < p.published
      → p.start ≡ true
  started p l none (w, z) some_published = absurd (omega arith)
  started p l (some h) (w, s) some_published = s

  module _ {p : Program S} {l : Log MarketEvent} (v : Inv handler s₀ p l) where
    pub record Turned (q : Program S) : Type κ where
      pub log : Log MarketEvent
      pub inv : Inv handler s₀ q log
      pub opened : opening q.producer ≤ opening p.producer
      pub more_published : p.published ≤ q.published
      pub more_consumed : (j : ℕ) → p.consumed j ≤ q.consumed j

    stays : Turned p
    stays = record {
      log = l;
      inv = v;
      opened = omega arith;
      more_published = omega arith;
      more_consumed = λ j. omega arith;
    }

    both :
        p.consumed 0 ≡ p.published
        → p.consumed 1 ≡ p.published
        → (i : ℕ) → i < 2
        → p.consumed i ≡ p.published
    both all_0 all_1 zero lt = all_0
    both all_0 all_1 (suc zero) lt = all_1
    both all_0 all_1 (suc (suc i)) lt = absurd (omega arith)

    drained_room :
        p.consumed 0 ≡ p.published
        → p.consumed 1 ≡ p.published
        → p.published < event_count
        → has_room ring_capacity (l.tail + next_batch p.published) l.cursors ≡ true
    drained_room all_0 all_1 lt = All→has_room ring_capacity _ l.cursors (
        All-of-get_or _ l.cursors 0 (λ i inside.
          let f = v.follows i (rw v.counted at inside) in
          let b = next_batch-bounds p.published lt in
          omega (arith, v.tail, f.position, b.1, both all_0 all_1 i (rw v.counted at inside))))

    pub main-Turned :
        (o : Option ProducerHandle)
        → p.producer ≡ o
        → Leads handler s₀ o p l
        → (r : Turned (main_step handler o p)) × (IsEnabled main_turn p
            → (opening (main_step handler o p).producer < opening o)
              ⊎ (p.published < (main_step handler o p).published))
    unfolding main_step IsEnabled make_producer
    main-Turned none e (w, z) = (
      record {
        log = l;
        inv = record {
          shared = v.shared;
          leads = (w, refl);
          tail = v.tail;
          counted = v.counted;
          follows = λ i inside.
              let f = v.follows i inside in
              record {
                index = f.index;
                boundary = f.boundary;
                handle = f.handle;
                position = f.position;
                taken = f.taken;
              };
          events = v.events;
          aligned = v.aligned;
          bounded = v.bounded;
        };
        opened = omega arith;
        more_published = omega arith;
        more_consumed = λ j. omega arith;
      },
      λ _. inl (omega arith),
    )
    main-Turned (some h) e (w, s) = elim (Bool-cases (ltb p.published event_count)) [
      | inr done ↦ rw done (
        stays,
        λ enabled. elim enabled [
          | inl o ↦ absurd (omega (arith, rw e at o))
          | inr (lt, _, _) ↦ absurd (ground arith)
        ],
      )
      | inl more ↦
          let lt : p.published < event_count = ground arith in
          elim (Bool-cases (has_room ring_capacity (l.tail + next_batch p.published) l.cursors)) [
            | inl room ↦
                let (v', grows) = granted-Inv handler s₀ v h w s lt room in
                rw more (
                  record {
                    log = _;
                    inv = v';
                    opened = omega arith;
                    more_published = omega (arith, grows);
                    more_consumed = λ j. omega arith;
                  },
                  λ _. inr omega (arith, grows, (next_batch-bounds p.published lt).0),
                )
            | inr full ↦
                let (v', same) = refused-Inv handler s₀ v h w s lt full in
                rw more (
                  record {
                    log = _;
                    inv = v';
                    opened = omega arith;
                    more_published = omega (arith, same);
                    more_consumed = λ j. omega arith;
                  },
                  λ enabled. elim enabled [
                    | inl o ↦ absurd (omega (arith, rw e at o))
                    | inr (_, all_0, all_1) ↦
                        absurd (true≢false (sym (drained_room all_0 all_1 lt) ∙ full))
                  ],
                )
          ]
    ]

    consumer_step-eq :
        (i : ℕ) {a b : Bool}
        → p.start ≡ a
        → ltb (p.consumed i) event_count ≡ b
        → (if a then if b then consume_round handler i p else p else p) ≡ consumer_step handler i p
    unfolding consumer_step
    consumer_step-eq i e f =
        λ k. if sym e k then if sym f k then consume_round handler i p else p else p

    pub consumer-Turned :
        (i : ℕ)
        → i < 2
        → Turned (consumer_step handler i p)
          × (p.consumed i < p.published → p.consumed i < (consumer_step handler i p).consumed i)
    unfolding consume_round
    consumer-Turned i lt =
        let P : Program S → Type κ =
          λ q. Turned q × (p.consumed i < p.published → p.consumed i < q.consumed i) in
        elim (Bool-cases p.start) [
          | inr waiting ↦ subst P (consumer_step-eq i waiting refl) (
            stays,
            λ more.
                absurd (true≢false (sym (started p l p.producer v.leads (omega arith)) ∙ waiting)),
          )
          | inl go ↦ elim (Bool-cases (ltb (p.consumed i) event_count)) [
            | inr done ↦
                subst P (consumer_step-eq i go done)
                  (stays, λ more. absurd (ground (arith, v.bounded)))
            | inl open_loop ↦
                let (kept, moved) = consumed-consume_round handler s₀ v i lt in
                subst P (consumer_step-eq i go open_loop) (
                  record {
                    log = _;
                    inv = consume_round-Inv handler s₀ v i lt;
                    opened = omega arith;
                    more_published = omega arith;
                    more_consumed = kept;
                  },
                  moved,
                )
          ]
        ]
