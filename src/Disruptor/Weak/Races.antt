-- ===== src/Disruptor/Weak/Races.antt =====
-- The plain accesses of a slot are ordered by the atomic ones: there is no data race.
use low_latency_showcase.Prelude.{
  ℕ, suc, ◌+◌, ◌<◌, ◌≡◌, refl, sym, ◌∙◌, true, some, inl, inr, All-get_or, arith, dec_lt,
}
use low_latency_showcase.Words.{word, IsCapacity, is_valid_config, mod-eq_apart}
use low_latency_showcase.Disruptor.State.{ProducerCursor, ConsumerHandle}
use low_latency_showcase.Disruptor.Log.{Log, append}
use low_latency_showcase.Disruptor.Threads.Producing.{ProducerPc, scanning, writing, pc_slot}
use low_latency_showcase.Disruptor.Threads.Consuming.{ConsumerPc, reading, consumer_pc_slot}
use low_latency_showcase.Disruptor.Threads.Invariant.{pending}
use low_latency_showcase.Disruptor.Threads.Safety.{written-position, read-position}
use low_latency_showcase.Disruptor.Weak.Orders.{touch, Ordered}
use low_latency_showcase.Disruptor.Weak.System.{
  Weak, WeakReach, producer_access, consumer_access, producer_next, consumer_next,
}
use low_latency_showcase.Disruptor.Weak.Invariant.{
  WeakView, written, known-near, known-le, base-le, read-le,
}
use low_latency_showcase.Disruptor.Weak.Safety.{WeakReach-WeakView}

touch-pc_slot {ℓ} :
    {A : Type ℓ} (capacity consumer_count : ℕ) (default : A) (pc : ProducerPc A)
    (c : ProducerCursor) (x : ℕ)
    → producer_access capacity consumer_count pc c ≡ touch x
    → pc_slot capacity consumer_count default pc c ≡ some x
unfolding producer_access pc_slot
touch-pc_slot capacity n default (ProducerPc.returned answer) c x e = cc
touch-pc_slot capacity n default (ProducerPc.loading count writer) c x e = cc
touch-pc_slot capacity n default (scanning count writer index g gi) c x e = ground (arith, e)
touch-pc_slot capacity n default (writing count writer index) c x e = ground (arith, e)

touch-consumer_pc_slot {ℓ κ} :
    {A : Type ℓ} {S : Type κ} (capacity : ℕ) (default : A) (handler : S → A → ℕ → S)
    (pc : ConsumerPc) (h : ConsumerHandle) (x : ℕ)
    → consumer_access capacity pc h ≡ touch x
    → consumer_pc_slot capacity default handler pc h ≡ some x
unfolding consumer_access consumer_pc_slot
touch-consumer_pc_slot capacity default handler (reading count index) h x e = ground (arith, e)
touch-consumer_pc_slot capacity default handler (ConsumerPc.returned count) h x e = cc
touch-consumer_pc_slot capacity default handler (ConsumerPc.loading max_count) h x e = cc

tail-pending {ℓ} :
    {A : Type ℓ} (capacity : ℕ) (default : A) (pc : ProducerPc A) (l : Log A)
    → (pending capacity default pc l).tail ≡ l.tail + written pc
unfolding append
tail-pending capacity default (writing count writer index) l = refl
tail-pending capacity default (ProducerPc.returned answer) l = omega arith
tail-pending capacity default (ProducerPc.loading count writer) l = omega arith
tail-pending capacity default (scanning count writer index g gi) l = omega arith

module _ {ℓ κ} {A : Type ℓ} {S : Type κ} {capacity : ℕ} (ok : IsCapacity capacity)
    (consumer_count : ℕ) (default : A) (handler : ℕ → S → A → ℕ → S) (first : ℕ) (s₀ : S)
    {s : Weak A S} {l : Log A} (v : WeakView ok consumer_count default handler first s₀ s l) where
  no_race_writing :
      (x : ℕ)
      → producer_next capacity consumer_count default handler s ≡ touch x
      → (i : ℕ) → i < consumer_count
      → Ordered s.orders (suc i) 0 x
  no_race_writing x e i lt =
      let producer = s.system.producer in
      let (p, slot, unpublished, room) =
        written-position ok consumer_count default handler first s₀ (record l { cursors = v.known })
          producer.pc producer.cursor x v.producer.1
          (touch-pc_slot capacity consumer_count default producer.pc producer.cursor x e) in
      let near = All-get_or _ v.known i 0 room (rw v.known_counted lt) in
      let acquired = v.orders.acquired 0 (suc i) (omega arith) (omega arith) in
      elim (v.orders.lasts (suc i) (omega arith) x) [
        | inl none ↦ omega (arith, none)
        | inr (q, number, slot', before) ↦
            let old : q < p =
              omega (arith, before, read-le ok consumer_count default handler first s₀ v i lt) in
            let apart = mod-eq_apart capacity q p (slot' ∙ slot) old in
            omega (arith, number, near, v.knows i lt, acquired.before)
      ]

  no_race_reading :
      (i : ℕ)
      → i < consumer_count
      → (x : ℕ) → consumer_next capacity consumer_count default handler i s ≡ touch x
      → Ordered s.orders 0 (suc i) x
  no_race_reading i lt x e =
      let c = s.system.consumers i in
      let near = known-near ok consumer_count default handler first s₀ v i lt in
      let le = known-le ok consumer_count default handler first s₀ v i lt in
      let below = base-le ok consumer_count default handler first s₀ v i lt in
      let ordered = v.producer.0.ordered in
      let so_far =
        tail-pending capacity default s.system.producer.pc (record l { cursors = v.known }) in
      let (p, slot, unreleased, published) =
        read-position ok consumer_count default handler first s₀
          (record l { tail = v.base (suc i) 0 }) i c.pc c.handle c.state x (omega arith)
          (v.consumers i lt)
          (touch-consumer_pc_slot capacity default (handler i) c.pc c.handle x e) in
      let acquired = v.orders.acquired (suc i) 0 (omega arith) (omega arith) in
      elim (v.orders.lasts 0 (omega arith) x) [
        | inl none ↦ omega (arith, none)
        | inr (q, number, slot', before) ↦ elim (dec_lt p q) [
          | yes later ↦
              let apart = mod-eq_apart capacity p q (sym slot ∙ sym slot') later in
              absurd (omega arith)
          | no before_or_at ↦ omega (arith, number, acquired.before)
        ]
      ]

module _ {ℓ κ} {A : Type ℓ} {S : Type κ} (capacity consumer_count initial : ℕ) (default : A)
    (handler : ℕ → S → A → ℕ → S) (s₀ : S) (valid : is_valid_config capacity consumer_count ≡ true)
    (small : initial < word) where
  -- For a configuration that the static assertions accept and an initial position below 2^64: in
  -- every state that the threads reach when each load may read any store that is not before the one
  -- that its thread read last, if the producer is about to write a slot, all accesses of the slot
  -- so far by the consumers happen before the write.
  pub WeakReach-no_race_writing :
      {s : Weak A S}
      → WeakReach capacity consumer_count default handler initial s₀ s
      → (x : ℕ) → producer_next capacity consumer_count default handler s ≡ touch x
      → (i : ℕ) → i < consumer_count
      → Ordered s.orders (suc i) 0 x
  WeakReach-no_race_writing r x e i lt =
      let (l, v) =
        WeakReach-WeakView capacity consumer_count initial default handler s₀ valid small r in
      no_race_writing _ consumer_count default handler (word + initial) s₀ v x e i lt

  -- For a configuration that the static assertions accept and an initial position below 2^64: in
  -- every state that the threads reach when each load may read any store that is not before the one
  -- that its thread read last, if a consumer is about to read a slot, all writes of the slot so far
  -- happen before the read.
  pub WeakReach-no_race_reading :
      {s : Weak A S}
      → WeakReach capacity consumer_count default handler initial s₀ s
      → (i : ℕ) → i < consumer_count
      → (x : ℕ) → consumer_next capacity consumer_count default handler i s ≡ touch x
      → Ordered s.orders 0 (suc i) x
  WeakReach-no_race_reading r i lt x e =
      let (l, v) =
        WeakReach-WeakView capacity consumer_count initial default handler s₀ valid small r in
      no_race_reading _ consumer_count default handler (word + initial) s₀ v i lt x e
