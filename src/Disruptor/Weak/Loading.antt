-- ===== src/Disruptor/Weak/Loading.antt =====
-- A consumer's moves up to the first read, with loads that may read an old publication.
use low_latency_showcase.Prelude.{
  ℕ, zero, suc, ◌%◌, ◌≤◌, ◌<◌, ◌≡◌, refl, subst, true, false, inl, inr, length, arith, update,
  Bool-cases, ◌==◌,
}
use low_latency_showcase.Words.{word, IsCapacity}
use low_latency_showcase.Disruptor.State.{Shared}
use low_latency_showcase.Disruptor.Log.{Log}
use low_latency_showcase.Disruptor.Threads.Consuming.{
  Consumer, begin_read, begin_consume, load_published,
}
use low_latency_showcase.Disruptor.Threads.Invariant.{pending, done, IsConsumer}
use low_latency_showcase.Disruptor.Threads.Taking.{IsReadable}
use low_latency_showcase.Disruptor.Threads.Inv.{stays}
use low_latency_showcase.Disruptor.Weak.Orders.{load, MayRead, acquire_load}
use low_latency_showcase.Disruptor.Weak.System.{Weak}
use low_latency_showcase.Disruptor.Weak.Clocks.{IsOrders-rise, acquire_load-IsOrders}
use low_latency_showcase.Disruptor.Weak.Invariant.{
  current, next_access, WeakView, WeakOnward, base-le, stale-IsReadable,
}
use low_latency_showcase.Disruptor.Weak.Invariant.{with_consumer}

module _ {ℓ κ} {A : Type ℓ} {S : Type κ} (capacity : ℕ) (default : A)
    (handler : S → A → ℕ → S) where
  -- Up to the first read nothing is read.
  pub done-load_published :
      (max_count : ℕ) (m : Shared A) (c : Consumer S)
      → done (load_published capacity default handler max_count m c).pc ≡ 0
  unfolding load_published begin_read
  done-load_published max_count m c = ground arith

  pub done-begin_consume :
      (max_count : ℕ) (c : Consumer S)
      → done (begin_consume capacity default handler max_count c).pc ≡ 0
  unfolding begin_consume begin_read
  done-begin_consume max_count c = ground arith

module _ {ℓ κ} {A : Type ℓ} {S : Type κ} {capacity : ℕ} (ok : IsCapacity capacity)
    (consumer_count : ℕ) (default : A) (handler : ℕ → S → A → ℕ → S) (first : ℕ) (s₀ : S) where
  abbrev Sees : Weak A S → Log A → Type (ℓ ⊔ κ)
  Sees = WeakView ok consumer_count default handler first s₀

  abbrev Onward : Log A → Weak A S → Type (ℓ ⊔ κ)
  Onward = WeakOnward ok consumer_count default handler first s₀

  abbrev Is : ℕ → Consumer S → Log A → Type (ℓ ⊔ κ)
  Is = IsConsumer capacity consumer_count default handler first s₀

  module _ {s : Weak A S} {l : Log A} (v : Sees s l) (i : ℕ) (lt : i < consumer_count) where
    abbrev pub inside : i < length l.cursors
    inside = rw v.counted lt

    progress-consumer :
        (c : Consumer S)
        → done (s.system.consumers i).pc ≡ done c.pc
        → (t : ℕ) → next_access s.system l t ≡ next_access (with_consumer s i c).system l t
    progress-consumer c e zero = refl
    progress-consumer c e (suc j) = elim (Bool-cases (i == j)) [
      | inl same ↦ let here : i ≡ j = ground arith in rw (same, ← here) (omega arith)
      | inr differs ↦ rw differs refl
    ]

    -- One consumer at another point of the code, and the others where they were.
    pub others :
        (c : Consumer S) (base : ℕ → ℕ → ℕ)
        → Is i c (record l { tail = base (suc i) 0 })
        → ((j : ℕ) → (i == j) ≡ false → base (suc j) 0 ≡ v.base (suc j) 0)
        → (j : ℕ) → j < consumer_count
        → Is j (update s.system.consumers i c j) (record l { tail = base (suc j) 0 })
    others c base w apart j lt' = elim (Bool-cases (i == j)) [
      | inl same ↦
          let e : i ≡ j = ground arith in
          rw same (subst (λ x. Is x c (record l { tail = base (suc x) 0 })) e w)
      | inr differs ↦ rw (differs, apart j differs) (v.consumers j lt')
    ]

    -- No access made.
    pub quiet_stays :
        (c : Consumer S)
        → done (s.system.consumers i).pc ≡ done c.pc
        → Is i c (record l { tail = v.base (suc i) 0 })
        → Onward l (with_consumer s i c)
    quiet_stays c e w = (
      l,
      stays,
      record {
        at = v.at;
        base = v.base;
        orders =
            IsOrders-rise (suc consumer_count) capacity first (λ u lu. omega arith)
              (λ t lt'. progress-consumer c e t) v.orders;
        counted = v.counted;
        cursor_words = v.cursor_words;
        known = v.known;
        known_counted = v.known_counted;
        knows = v.knows;
        producer = v.producer;
        consumers = others c v.base w (λ j differs. refl);
      },
    )

    -- The load of `published_` from store `k`.
    pub load_stays :
        (k : ℕ) (c : Consumer S)
        → MayRead s.orders (suc i) (load 0) k
        → done (s.system.consumers i).pc ≡ done c.pc
        → Is i c (record l { tail = v.at 0 k })
        → Onward l (record (with_consumer s i c) { orders = acquire_load (suc i) 0 k s.orders })
    load_stays k c may e w =
        let own : (suc i == suc i) ≡ true = ground arith in
        let not_producer : (suc i == 0) ≡ false = ground arith in
        let base : ℕ → ℕ → ℕ = update v.base (suc i) (update (v.base (suc i)) 0 (v.at 0 k)) in
        (
          l,
          stays,
          record {
            at = v.at;
            base = base;
            orders =
                IsOrders-rise (suc consumer_count) capacity first (λ u lu. omega arith)
                  (λ t lt'. progress-consumer c e t)
                  (acquire_load-IsOrders (suc consumer_count) capacity first s.orders v.at v.base
                    (current l) (next_access s.system l) v.orders (suc i) (omega arith) 0 k
                    (omega arith) may.1);
            counted = v.counted;
            cursor_words = v.cursor_words;
            known = v.known;
            known_counted = v.known_counted;
            knows = rw not_producer v.knows;
            producer = v.producer;
            consumers =
                others c base (rw own w) (λ j differs.
                  let apart : (suc i == suc j) ≡ false = ground arith in rw apart refl);
          },
        )

    -- What the consumer has read stands at the log that it knows.
    abbrev pub here : Log A
    here = record l { tail = v.base (suc i) 0 }

    abbrev pub pend : Log A
    pend = pending capacity default s.system.producer.pc (record l { cursors = v.known })

    abbrev pub readable :
        IsReadable capacity default
          (record s.system.memory { published = v.base (suc i) 0 % word })
          here
          pend
          i
    readable =
        stale-IsReadable ok consumer_count default handler first s₀ v i (v.base (suc i) 0) lt
          (omega arith) (base-le ok consumer_count default handler first s₀ v i lt)

    module _ (k : ℕ) (may : MayRead s.orders (suc i) (load 0) k) where
      pub published_word : ((s.orders.locations 0).stored k).value ≡ v.at 0 k % word
      published_word = (v.orders.history 0 (omega arith)).words k may.1

      pub newer : v.base (suc i) 0 ≤ v.at 0 k
      newer =
          let w = v.orders.acquired (suc i) 0 (omega arith) (omega arith) in
          omega (arith, w.covers, (v.orders.history 0 (omega arith)).rising _ k may.0 may.1)

      pub published : v.at 0 k ≤ l.tail
      published =
          let h = v.orders.history 0 (omega arith) in
          omega (arith, h.latest, h.rising k _ may.1 (omega arith))
