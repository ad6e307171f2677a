-- ===== src/Disruptor/Weak/Clocks.antt =====
-- What the clocks say in positions of the log: a thread that has read a store knows of all accesses
-- before the position that the store announces.
use low_latency_showcase.Prelude.{
  ℕ, ◌+◌, ◌%◌, ◌≤◌, ◌<◌, ◌≡◌, sym, ◌⊎◌, true, false, inl, inr, update, arith, Bool-cases, ◌==◌,
}
use low_latency_showcase.Words.{word}
use low_latency_showcase.Disruptor.Weak.Orders.{
  Location, Knowledge, Orders, acquire_load, release_store, access_slot,
}

-- The accesses of a thread are of the positions from `first` on, in order: access number `m` of the
-- thread is of position `first + m`, from 0.
module _ (thread_count capacity first : ℕ) where
  -- Store `k` to the location of thread `u` is of position `at k`, and all accesses by `u` of the
  -- positions below that happen before it.
  pub record IsHistory (u : ℕ) (h : Location) (at : ℕ → ℕ) (current : ℕ) : Type 0 where
    pub words : (k : ℕ) → k ≤ h.last → (h.stored k).value ≡ at k % word
    pub rising : (j k : ℕ) → j ≤ k → k ≤ h.last → at j ≤ at k
    pub latest : at h.last ≤ current
    pub before : (k : ℕ) → k ≤ h.last → at k ≤ first + (h.stored k).clock u

  -- All accesses by `u` of positions below `base` happen before what the thread does next, and no
  -- load of its shall read an older store than that.
  pub record HasAcquired (u : ℕ) (w : Knowledge) (h : Location) (at : ℕ → ℕ) (base : ℕ)
      : Type 0 where
    pub in_range : w.seen u ≤ h.last
    pub covers : base ≤ at (w.seen u)
    pub before : base ≤ first + w.clock u

  -- The last access of a slot was of a position of that slot, below `next_access`.
  abbrev pub IsLast : (ℕ → ℕ) → ℕ → Type 0
  IsLast last next_access =
      (x : ℕ)
      → (last x ≡ 0) ⊎ ((p : ℕ) × (last x + first ≡ p + 1) × (p % capacity ≡ x) × (p < next_access))

  pub record IsOrders (o : Orders) (at base : ℕ → ℕ → ℕ) (current next_access : ℕ → ℕ)
      : Type 0 where
    pub history : (u : ℕ) → u < thread_count → IsHistory u (o.locations u) (at u) (current u)
    pub acquired :
        (t u : ℕ)
        → t < thread_count
        → u < thread_count
        → HasAcquired u (o.threads t) (o.locations u) (at u) (base t u)
    pub counted : (t : ℕ) → t < thread_count → first + (o.threads t).accesses ≡ next_access t
    pub lasts : (t : ℕ) → t < thread_count → IsLast (o.last_access t) (next_access t)

  -- What is acquired is not past the latest position.
  pub acquired-le :
      {o : Orders} {at base : ℕ → ℕ → ℕ} {current next_access : ℕ → ℕ} (t u : ℕ)
      → t < thread_count
      → u < thread_count
      → IsOrders o at base current next_access
      → base t u ≤ current u
  acquired-le t u lt lu v =
      let w = v.acquired t u lt lu in
      let h = v.history u lu in
      omega (arith, w.covers, h.latest, h.rising _ _ w.in_range (omega arith))

  -- No thread moves, and positions only rise.
  pub IsOrders-rise :
      {o : Orders} {at base : ℕ → ℕ → ℕ} {current current' next_access next_access' : ℕ → ℕ}
      → ((u : ℕ) → u < thread_count → current u ≤ current' u)
      → ((t : ℕ) → t < thread_count → next_access t ≡ next_access' t)
      → IsOrders o at base current next_access
      → IsOrders o at base current' next_access'
  IsOrders-rise up same v = record {
    history = λ u lu.
        let h = v.history u lu in
        record {
          words = h.words;
          rising = h.rising;
          latest = omega (arith, h.latest, up u lu);
          before = h.before;
        };
    acquired = v.acquired;
    counted = λ t lt. omega (arith, v.counted t lt, same t lt);
    lasts = λ t lt. rw (← same t lt) (v.lasts t lt);
  }

  module _ (o : Orders) (at base : ℕ → ℕ → ℕ) (current next_access : ℕ → ℕ)
      (v : IsOrders o at base current next_access) (t : ℕ) (lt : t < thread_count) where
    pub acquire_load-IsOrders :
        (u k : ℕ)
        → u < thread_count
        → k ≤ (o.locations u).last
        → IsOrders
            (acquire_load t u k o)
            at
            (update base t (update (base t) u (at u k)))
            current
            next_access
    unfolding acquire_load
    acquire_load-IsOrders u k lu le =
        let h = v.history u lu in
        record {
          history = v.history;
          acquired = λ t' u' lt' lu'. elim (Bool-cases (t == t')) [
            | inl same ↦ rw same (elim (Bool-cases (u == u')) [
              | inl here ↦
                  let e : u ≡ u' = ground arith in
                  let own : (u == u) ≡ true = ground arith in
                  rw (here, ← e)
                    (record {
                      in_range = rw own le;
                      covers = rw own (omega arith);
                      before = omega (arith, h.before k le);
                    })
              | inr there ↦
                  let w = v.acquired t u' lt lu' in
                  rw there (record {
                    in_range = rw there w.in_range;
                    covers = rw there w.covers;
                    before = omega (arith, w.before);
                  })
            ])
            | inr differs ↦ rw differs (v.acquired t' u' lt' lu')
          ];
          counted = λ t' lt'. elim (Bool-cases (t == t')) [
            | inl same ↦ let e : t ≡ t' = ground arith in rw (same, ← e) (v.counted t lt)
            | inr differs ↦ rw differs (v.counted t' lt')
          ];
          lasts = v.lasts;
        }

    pub access-IsOrders :
        (x : ℕ)
        → x ≡ next_access t % capacity
        → IsOrders (access_slot t x o) at base current (update next_access t (next_access t + 1))
    unfolding access_slot
    access-IsOrders x here =
        let made = v.counted t lt in
        record {
          history = v.history;
          acquired = λ t' u' lt' lu'. elim (Bool-cases (t == t')) [
            | inl same ↦
                let e : t ≡ t' = ground arith in
                rw (same, ← e)
                  (let w = v.acquired t u' lt lu' in
                    record { in_range = w.in_range; covers = w.covers; before = w.before })
            | inr differs ↦ rw differs (v.acquired t' u' lt' lu')
          ];
          counted = λ t' lt'. elim (Bool-cases (t == t')) [
            | inl same ↦ rw same (omega arith)
            | inr differs ↦ rw differs (v.counted t' lt')
          ];
          lasts = λ t' lt'. elim (Bool-cases (t == t')) [
            | inl same ↦ rw same (λ y. elim (Bool-cases (x == y)) [
              | inl at_x ↦
                  let e : x ≡ y = ground arith in
                  rw (at_x, ← e) (inr (next_access t, omega arith, sym here, omega arith))
              | inr other ↦ rw other (elim (v.lasts t lt y) [
                | inl none ↦ inl none
                | inr (p, number, slot, below) ↦ inr (p, number, slot, omega arith)
              ])
            ])
            | inr differs ↦ rw differs (v.lasts t' lt')
          ];
        }

    pub release_store-IsOrders :
        (value position : ℕ)
        → value ≡ position % word
        → current t ≤ position
        → position ≤ next_access t
        → IsOrders
            (release_store t value o)
            (update at t (update (at t) ((o.locations t).last + 1) position))
            base
            (update current t position)
            next_access
    unfolding release_store
    release_store-IsOrders value position word_at up reached =
        let h = v.history t lt in
        let old_latest = h.latest in
        let made = v.counted t lt in
        let last = (o.locations t).last in
        record {
          history = λ u lu. elim (Bool-cases (t == u)) [
            | inl same ↦
                let e : t ≡ u = ground arith in
                let own : (t == t) ≡ true = ground arith in
                rw (same, ← e)
                  (record {
                    words = λ k le. elim (Bool-cases (last + 1 == k)) [
                      | inl new ↦ rw new word_at
                      | inr old ↦ rw old (h.words k (ground arith))
                    ];
                    rising = λ j k below le. elim (Bool-cases (last + 1 == k)) [
                      | inl new ↦ rw new (elim (Bool-cases (last + 1 == j)) [
                        | inl newer ↦ rw newer (omega arith)
                        | inr older ↦
                            rw older (omega (arith, h.rising j last (ground arith) (omega arith)))
                      ])
                      | inr old ↦
                          let before_new : (last + 1 == j) ≡ false = ground arith in
                          rw (old, before_new) (h.rising j k below (ground arith))
                    ];
                    latest =
                        let new : (last + 1 == last + 1) ≡ true = ground arith in
                        rw new (omega arith);
                    before = λ k le. elim (Bool-cases (last + 1 == k)) [
                      | inl new ↦ rw (new, own) (omega arith)
                      | inr old ↦ rw old (h.before k (ground arith))
                    ];
                  })
            | inr differs ↦ rw differs (v.history u lu)
          ];
          acquired = λ t' u lt' lu. elim (Bool-cases (t == u)) [
            | inl same ↦
                let e : t ≡ u = ground arith in
                let w = v.acquired t' t lt' lt in
                let seen_old : (last + 1 == (o.threads t').seen t) ≡ false =
                  ground (arith, w.in_range) in
                rw (same, ← e)
                  (record {
                    in_range = omega (arith, w.in_range);
                    covers = rw seen_old w.covers;
                    before = w.before;
                  })
            | inr differs ↦ rw differs (v.acquired t' u lt' lu)
          ];
          counted = v.counted;
          lasts = v.lasts;
        }
