-- ===== src/Disruptor/Weak/Reading.antt =====
-- A consumer's reads, and the store that releases what it has read.
use low_latency_showcase.Prelude.{
  ℕ, zero, suc, ◌+◌, ◌%◌, ◌≤◌, ◌<◌, ◌≡◌, refl, sym, ap, ◌∙◌, subst, true, false, inl, inr, get_or,
  set, get_or-set_self, get_or-set_ne, length-set, map-set, arith, update, Bool-cases, ◌==◌,
}
use low_latency_showcase.Words.{word, add64, IsCapacity}
use low_latency_showcase.Disruptor.State.{Shared, ConsumerHandle}
use low_latency_showcase.Disruptor.Log.{Log}
use low_latency_showcase.Disruptor.Threads.Producing.{span_slot}
use low_latency_showcase.Disruptor.Threads.Consuming.{Consumer, reading, read_move, store_position}
use low_latency_showcase.Disruptor.Threads.Memory.{span_slot-eq-mod}
use low_latency_showcase.Disruptor.Threads.Invariant.{done, IsConsumer}
use low_latency_showcase.Disruptor.Threads.Taking.{read_move-IsConsumer, store_position-IsConsumer}
use low_latency_showcase.Disruptor.Threads.Inv.{stays, takes}
use low_latency_showcase.Disruptor.Threads.Others.{IsConsumer-advance}
use low_latency_showcase.Disruptor.Weak.Orders.{release_store, access_slot}
use low_latency_showcase.Disruptor.Weak.System.{Weak}
use low_latency_showcase.Disruptor.Weak.Clocks.{
  IsOrders-rise, access-IsOrders, release_store-IsOrders,
}
use low_latency_showcase.Disruptor.Weak.Invariant.{
  current, next_access, WeakView, WeakOnward, base-le,
}
use low_latency_showcase.Disruptor.Weak.Invariant.{with_consumer}
use low_latency_showcase.Disruptor.Weak.Loading.{inside, here, pend, readable, others}

module _ {ℓ κ} {A : Type ℓ} {S : Type κ} {capacity : ℕ} (ok : IsCapacity capacity)
    (consumer_count : ℕ) (default : A) (handler : ℕ → S → A → ℕ → S) (first : ℕ) (s₀ : S) where
  abbrev Sees : Weak A S → Log A → Type (ℓ ⊔ κ)
  Sees = WeakView ok consumer_count default handler first s₀

  abbrev Onward : Log A → Weak A S → Type (ℓ ⊔ κ)
  Onward = WeakOnward ok consumer_count default handler first s₀

  abbrev Is : ℕ → Consumer S → Log A → Type (ℓ ⊔ κ)
  Is = IsConsumer capacity consumer_count default handler first s₀

  module _ {s : Weak A S} {l : Log A} (v : Sees s l) (i : ℕ) (lt : i < consumer_count) where
    progress-read :
        (c : Consumer S)
        → done (s.system.consumers i).pc + 1 ≡ done c.pc
        → (t : ℕ)
        → update (next_access s.system l) (suc i) (next_access s.system l (suc i) + 1) t
          ≡ next_access (with_consumer s i c).system l t
    progress-read c e zero = let apart : (suc i == 0) ≡ false = ground arith in rw apart refl
    progress-read c e (suc j) = elim (Bool-cases (i == j)) [
      | inl same ↦
          let here : i ≡ j = ground arith in
          let same' : (suc i == suc j) ≡ true = ground arith in
          rw (same, same', ← here) (omega arith)
      | inr differs ↦
          let apart : (suc i == suc j) ≡ false = ground arith in rw (differs, apart) refl
    ]

    current-take :
        (to : ℕ) (u : ℕ)
        → update (current l) (suc i) to u ≤ current (record l { cursors = set l.cursors i to }) u
    current-take to zero = let apart : (suc i == 0) ≡ false = ground arith in rw apart (omega arith)
    current-take to (suc j) = elim (Bool-cases (suc i == suc j)) [
      | inl same ↦
          let here : i ≡ j = ground arith in
          rw
            (
              same,
              ← here,
              get_or-set_self l.cursors i to 0
                  (inside ok consumer_count default handler first s₀ v i lt),
            )
            (omega arith)
      | inr differs ↦ rw (differs, get_or-set_ne l.cursors i j to 0 (ground arith)) (omega arith)
    ]

    progress-take :
        (m : Shared A) (c : Consumer S) (to : ℕ)
        → get_or l.cursors i 0 + done (s.system.consumers i).pc ≡ to + done c.pc
        → (t : ℕ)
        → next_access s.system l t
          ≡ next_access
              (record s.system { memory = m; consumers = update s.system.consumers i c })
              (record l { cursors = set l.cursors i to })
              t
    progress-take m c to e zero = refl
    progress-take m c to e (suc j) = elim (Bool-cases (i == j)) [
      | inl same ↦
          let here : i ≡ j = ground arith in
          rw
            (
              same,
              ← here,
              get_or-set_self l.cursors i to 0
                  (inside ok consumer_count default handler first s₀ v i lt),
            )
            (omega arith)
      | inr differs ↦ rw (differs, get_or-set_ne l.cursors i j to 0 (ground arith)) refl
    ]

    -- The call of the handler on one event.
    pub touch_stays :
        (h : ConsumerHandle) (count index : ℕ) (state : S)
        → s.system.consumers i ≡ record { handle = h; pc = reading count index; state = state }
        → index < count
        → let c : Consumer S = record { handle = h; pc = reading count index; state = state } in
          Onward l
            (record (with_consumer s i
              (read_move capacity default (handler i) count index s.system.memory c)) {
                orders =
                    access_slot (suc i) (span_slot capacity h.next_position count index) s.orders;
              })
    unfolding read_move
    touch_stays h count index state e more =
        let w = rw e at (v.consumers i lt) in
        let next : h.next_position ≡ get_or l.cursors i 0 % word =
          w.handle.next_word ∙ ap (λ j. get_or l.cursors j 0 % word) w.own in
        let published = w.handle.published in
        let held = (readable ok consumer_count default handler first s₀ v i lt).held in
        let ordered = (readable ok consumer_count default handler first s₀ v i lt).ordered in
        let slot_at : span_slot capacity h.next_position count index
            ≡ (get_or l.cursors i 0 + index) % capacity =
          rw next (
            span_slot-eq-mod ok (get_or l.cursors i 0) count index (omega (arith, w.within))
              more) in
        let so_far : done (s.system.consumers i).pc ≡ index = ap (λ c. done c.pc) e in
        (
          l,
          stays,
          record {
            at = v.at;
            base = v.base;
            orders =
                IsOrders-rise (suc consumer_count) capacity first (λ u lu. omega arith)
                  (λ t lt'.
                    progress-read
                      (read_move capacity default (handler i) count index s.system.memory
                        (record { handle = h; pc = reading count index; state = state }))
                      (omega arith) t)
                  (access-IsOrders (suc consumer_count) capacity first s.orders v.at v.base
                    (current l) (next_access s.system l) v.orders (suc i) (omega arith) _
                    (rw so_far slot_at));
            counted = v.counted;
            cursor_words = v.cursor_words;
            known = v.known;
            known_counted = v.known_counted;
            knows = v.knows;
            producer = v.producer;
            consumers =
                others ok consumer_count default handler first s₀ v i lt _ v.base
                  (read_move-IsConsumer ok consumer_count default handler first s₀
                    (record s.system.memory { published = v.base (suc i) 0 % word })
                    (here ok consumer_count default handler first s₀ v i lt)
                    (pend ok consumer_count default handler first s₀ v i lt) i
                    (inside ok consumer_count default handler first s₀ v i lt)
                    (readable ok consumer_count default handler first s₀ v i lt) h count index state
                    w more)
                  (λ j differs. refl);
          },
        )

    -- The store of the consumer's position moves its cursor.
    pub store_takes :
        (h : ConsumerHandle) (count index : ℕ) (state : S)
        → s.system.consumers i ≡ record { handle = h; pc = reading count index; state = state }
        → count ≤ index
        → let c : Consumer S = record { handle = h; pc = reading count index; state = state } in
          let (m', c') = store_position capacity default (handler i) count s.system.memory c in
          Onward l (record s {
            system = record s.system { memory = m'; consumers = update s.system.consumers i c' };
            orders = release_store (suc i) c'.handle.next_position s.orders;
          })
    unfolding store_position
    store_takes h count index state e end =
        let w = rw e at (v.consumers i lt) in
        let next : h.next_position ≡ get_or l.cursors i 0 % word =
          w.handle.next_word ∙ ap (λ j. get_or l.cursors j 0 % word) w.own in
        let published = w.handle.published in
        let to = get_or l.cursors i 0 + count in
        let so_far : done (s.system.consumers i).pc ≡ index = ap (λ c. done c.pc) e in
        let c : Consumer S = record { handle = h; pc = reading count index; state = state } in
        let (m', c') = store_position capacity default (handler i) count s.system.memory c in
        let word_at : add64 h.next_position count ≡ to % word = rw next (omega arith) in
        let below = base-le ok consumer_count default handler first s₀ v i lt in
        (
          record l { cursors = set l.cursors i to },
          takes i count (inside ok consumer_count default handler first s₀ v i lt)
              (omega (arith, w.within)),
          record {
            at = _;
            base = v.base;
            orders =
                IsOrders-rise (suc consumer_count) capacity first (λ u lu. current-take to u)
                  (λ t lt'. progress-take m' c' to (omega (arith, w.within)) t)
                  (release_store-IsOrders (suc consumer_count) capacity first s.orders v.at v.base
                    (current l) (next_access s.system l) v.orders (suc i) (omega arith) _ to word_at
                    (omega arith) (omega (arith, w.within)));
            counted = length-set l.cursors i to ∙ v.counted;
            cursor_words =
                rw (v.cursor_words, word_at, w.own) (sym (map-set (λ x. x % word) l.cursors i to));
            known = v.known;
            known_counted = v.known_counted;
            knows = v.knows;
            producer = v.producer;
            consumers = λ j lt'. elim (Bool-cases (i == j)) [
              | inl same ↦
                  let e' : i ≡ j = ground arith in
                  rw same (
                    subst
                      (λ x.
                        Is x c'
                          (record l { tail = v.base (suc x) 0; cursors = set l.cursors i to }))
                      e'
                      (store_position-IsConsumer ok consumer_count default handler first s₀
                        (record s.system.memory { published = v.base (suc i) 0 % word })
                        (here ok consumer_count default handler first s₀ v i lt)
                        (pend ok consumer_count default handler first s₀ v i lt) i
                        (inside ok consumer_count default handler first s₀ v i lt)
                        (readable ok consumer_count default handler first s₀ v i lt) h count index
                        state w end))
              | inr differs ↦ rw differs (
                  IsConsumer-advance capacity consumer_count default handler first s₀ i j to
                    (s.system.consumers j) (record l { tail = v.base (suc j) 0 }) (ground arith)
                    (v.consumers j lt'))
            ];
          },
        )
