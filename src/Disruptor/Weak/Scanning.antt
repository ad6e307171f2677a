-- ===== src/Disruptor/Weak/Scanning.antt =====
-- The producer's moves up to the first write, with loads that may read old positions of the consumers.
use low_latency_showcase.Prelude.{
  ℕ, zero, suc, ◌%◌, ◌<◌, ◌≡◌, refl, sym, ap, ◌∙◌, false, inl, inr, List, length, get_or, set,
  get_or-set_self, get_or-set_ne, length-set, length-map, get_or-map, arith, update, Bool-cases,
  ◌==◌,
}
use low_latency_showcase.Words.{word, IsCapacity}
use low_latency_showcase.Disruptor.State.{Shared, ProducerCursor}
use low_latency_showcase.Disruptor.Log.{Log}
use low_latency_showcase.Disruptor.Invariant.{positions}
use low_latency_showcase.Disruptor.Threads.Producing.{
  Producer, begin_publish, load_blocker, scan_move,
}
use low_latency_showcase.Disruptor.Threads.Checking.{InStep}
use low_latency_showcase.Disruptor.Threads.Inv.{stays}
use low_latency_showcase.Disruptor.Weak.Orders.{load, MayRead, acquire_load}
use low_latency_showcase.Disruptor.Weak.System.{Weak}
use low_latency_showcase.Disruptor.Weak.Clocks.{IsOrders-rise, acquire_load-IsOrders}
use low_latency_showcase.Disruptor.Weak.Invariant.{
  written, current, next_access, WeakView, WeakOnward, base-le, behind-base, later-InStep,
}
use low_latency_showcase.Disruptor.Weak.Invariant.{with_producer}

module _ {ℓ} {A : Type ℓ} (capacity consumer_count : ℕ) (default : A) where
  -- Up to the first write nothing is written.
  pub written-load_blocker :
      (count : ℕ) (writer : ℕ → A → A) (m : Shared A) (c : ProducerCursor)
      → written (load_blocker capacity consumer_count default count writer m c).pc ≡ 0
  unfolding load_blocker
  written-load_blocker count writer m c = ground arith

  pub written-scan_move :
      (count : ℕ) (writer : ℕ → A → A) (index g gi : ℕ) (m : Shared A) (c : ProducerCursor)
      → written (scan_move capacity consumer_count default count writer index g gi m c).pc ≡ 0
  unfolding scan_move
  written-scan_move count writer index g gi m c = ground arith

  pub written-begin_publish :
      (count : ℕ) (writer : ℕ → A → A) (p : Producer A)
      → written (begin_publish capacity consumer_count default count writer p).pc ≡ 0
  unfolding begin_publish
  written-begin_publish count writer p = ground arith

-- A load finds the position of the store that it reads.
loaded-position :
    (cs known : List ℕ) (i value to : ℕ)
    → i < length cs
    → i < length known
    → value ≡ to % word
    → get_or (set cs i value) i 0 ≡ get_or (positions (set known i to)) i 0
loaded-position cs known i value to lt inside e =
    let inside' : i < length (set known i to) = rw (length-set known i to) inside in
    get_or-set_self cs i value 0 lt
    ∙ e
    ∙ ap (λ x. x % word) (sym (get_or-set_self known i to 0 inside))
    ∙ sym (get_or-map (λ x. x % word) (set known i to) i 0 0 inside')

module _ {ℓ κ} {A : Type ℓ} {S : Type κ} {capacity : ℕ} (ok : IsCapacity capacity)
    (consumer_count : ℕ) (default : A) (handler : ℕ → S → A → ℕ → S) (first : ℕ) (s₀ : S) where
  abbrev Sees : Weak A S → Log A → Type (ℓ ⊔ κ)
  Sees = WeakView ok consumer_count default handler first s₀

  abbrev Onward : Log A → Weak A S → Type (ℓ ⊔ κ)
  Onward = WeakOnward ok consumer_count default handler first s₀

  module _ {s : Weak A S} {l : Log A} (v : Sees s l) where
    progress-producer :
        (p : Producer A)
        → written s.system.producer.pc ≡ written p.pc
        → (t : ℕ) → next_access s.system l t ≡ next_access (with_producer s p).system l t
    progress-producer p e zero = omega arith
    progress-producer p e (suc i) = refl

    -- The producer at another point of the code, with no access made.
    pub quiet_stays :
        (p : Producer A)
        → written s.system.producer.pc ≡ written p.pc
        → InStep ok consumer_count default
            (record s.system.memory { consumers = positions v.known }, p)
            (record l { cursors = v.known })
        → Onward l (with_producer s p)
    quiet_stays p e w = (
      l,
      stays,
      record {
        at = v.at;
        base = v.base;
        orders =
            IsOrders-rise (suc consumer_count) capacity first (λ u lu. omega arith)
              (λ t lt. progress-producer p e t) v.orders;
        counted = v.counted;
        cursor_words = v.cursor_words;
        known = v.known;
        known_counted = v.known_counted;
        knows = v.knows;
        producer = w;
        consumers = v.consumers;
      },
    )

    -- The load of consumer `i`'s position from store `k`.
    pub load_stays :
        (i k : ℕ) (p : Producer A)
        → i < consumer_count
        → MayRead s.orders 0 (load (suc i)) k
        → written s.system.producer.pc ≡ written p.pc
        → InStep ok consumer_count default
            (record s.system.memory { consumers = positions (set v.known i (v.at (suc i) k)) }, p)
            (record l { cursors = set v.known i (v.at (suc i) k) })
        → Onward l (record s {
          system = record s.system { producer = p };
          orders = acquire_load 0 (suc i) k s.orders;
        })
    load_stays i k p lt may e w = (
      l,
      stays,
      record {
        at = v.at;
        base = update v.base 0 (update (v.base 0) (suc i) (v.at (suc i) k));
        orders =
            IsOrders-rise (suc consumer_count) capacity first (λ u lu. omega arith)
              (λ t lt. progress-producer p e t)
              (acquire_load-IsOrders (suc consumer_count) capacity first s.orders v.at v.base
                (current l) (next_access s.system l) v.orders 0 (omega arith) (suc i) k
                (omega arith) may.1);
        counted = v.counted;
        cursor_words = v.cursor_words;
        known = set v.known i (v.at (suc i) k);
        known_counted = length-set v.known i _ ∙ v.known_counted;
        knows = λ j lt'. elim (Bool-cases (suc i == suc j)) [
          | inl same ↦
              let e : i ≡ j = ground arith in
              let inside : i < length v.known = rw v.known_counted lt in
              rw (same, ← e, get_or-set_self v.known i _ 0 inside) (omega arith)
          | inr differs ↦ rw (differs, get_or-set_ne v.known i j _ 0 (ground arith)) (v.knows j lt')
        ];
        producer = w;
        consumers = λ j lt'.
            let other : (0 == suc j) ≡ false = ground arith in rw other (v.consumers j lt');
      },
    )

    module _ (i k : ℕ) where
      abbrev to : ℕ
      to = v.at (suc i) k

      abbrev pub stale_log : Log A
      stale_log = record l { cursors = set v.known i to }

      -- The memory with the positions that the producer then knows,
      abbrev pub stale : Shared A
      stale = record s.system.memory { consumers = positions (set v.known i to) }

      -- and the memory that its load finds.
      abbrev finds : Shared A
      finds = record s.system.memory {
        consumers = set s.system.memory.consumers i (((s.orders.locations (suc i)).stored k).value);
      }

      module _ (lt : i < consumer_count) (may : MayRead s.orders 0 (load (suc i)) k) where
        pub finds-eq-stale : get_or finds.consumers i 0 ≡ get_or stale.consumers i 0
        finds-eq-stale =
            let h = v.orders.history (suc i) (omega arith) in
            loaded-position s.system.memory.consumers v.known i _ to
              (rw (v.cursor_words, length-map, v.counted) lt) (rw v.known_counted lt)
              (h.words k may.1)

        pub load_InStep : InStep ok consumer_count default (stale, s.system.producer) stale_log
        load_InStep =
            let h = v.orders.history (suc i) (omega arith) in
            let w = v.orders.acquired 0 (suc i) (omega arith) (omega arith) in
            let up = h.rising _ k may.0 may.1 in
            let below = h.rising k _ may.1 (omega arith) in
            later-InStep ok consumer_count default handler first s₀ v i to lt
              (omega (arith, v.knows i lt, w.covers))
              (omega (
                arith,
                h.latest,
                behind-base ok consumer_count default handler first s₀ v i lt,
                base-le ok consumer_count default handler first s₀ v i lt,
              ))
