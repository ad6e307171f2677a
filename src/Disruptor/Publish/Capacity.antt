-- ===== src/Disruptor/Publish/Capacity.antt =====
-- The capacity check: `refresh_available_capacity` succeeds exactly if every consumer's lag leaves
-- room, and then its cache is the room that the slowest consumer leaves.
use low_latency_showcase.Prelude.{
  ℕ, suc, ◌+◌, ◌^◌, ◌≤◌, ◌<◌, ◌≡◌, ◌⊎◌, inl, inr, refl, Bool, true, false, List, [], ◌∷◌, length,
  get_or, All, arith, Bool-cases, ltb, ◌==◌,
}
use low_latency_showcase.Words.{sub64}
use low_latency_showcase.Disruptor.State.{ProducerCursor}
use low_latency_showcase.Disruptor.Publish.{
  Scan, blocked, scanned, scan, settle, refresh_available_capacity,
}

-- Every one of these positions is at most `bound` behind `next`.
abbrev pub LagsWithin : ℕ → ℕ → List ℕ → Type 0
LagsWithin next bound = All (λ position. sub64 next position ≤ bound)

module _ (maximum_lag next blocker : ℕ) where
  -- How the loop may end, begun at `index` with the greatest lag `g` at `gi`.
  abbrev Ends : List ℕ → ℕ → ℕ → ℕ → Scan → Type 0
  Ends cs index g gi (blocked i) =
      (j : ℕ) × (j < length cs) × (i ≡ index + j) × (maximum_lag < sub64 next (get_or cs j 0))
  Ends cs index g gi (scanned g' gi') =
      LagsWithin next g' cs
      × (g ≤ g')
      × (g' ≤ maximum_lag)
      × (((gi' ≡ gi) × (g' ≡ g))
          ⊎ ((j : ℕ) × (j < length cs) × (gi' ≡ index + j) × (g' ≡ sub64 next (get_or cs j 0))))

  Ends-cons :
      (c : ℕ) (cs : List ℕ) (index g gi g₁ gi₁ : ℕ) (r : Scan)
      → g ≤ g₁
      → sub64 next c ≤ g₁
      → ((gi₁ ≡ gi) × (g₁ ≡ g)) ⊎ ((gi₁ ≡ index) × (g₁ ≡ sub64 next c))
      → Ends cs (index + 1) g₁ gi₁ r
      → Ends (c ∷ cs) index g gi r
  Ends-cons c cs index g gi g₁ gi₁ (blocked i) le lag best (j, lt, e, over) =
      (suc j, omega arith, omega arith, over)
  Ends-cons c cs index g gi g₁ gi₁ (scanned g' gi') le lag best
        (within, up, fits, inr (j, lt, e, q)) =
      ((omega arith, within), omega arith, fits, inr (suc j, omega arith, omega arith, q))
  Ends-cons c cs index g gi g₁ gi₁ (scanned g' gi') le lag (inl b) (within, up, fits, inl same) =
      ((omega arith, within), omega arith, fits, inl (omega arith))
  Ends-cons c cs index g gi g₁ gi₁ (scanned g' gi') le lag (inr b) (within, up, fits, inl same) =
      ((omega arith, within), omega arith, fits, inr (0, omega arith, omega arith, omega arith))

  scan-Ends :
      (cs : List ℕ) (index g gi : ℕ)
      → g ≤ maximum_lag
      → ((j : ℕ) → j < length cs → index + j ≡ blocker → sub64 next (get_or cs j 0) ≤ g)
      → Ends cs index g gi (scan maximum_lag next blocker cs index g gi)
  unfolding scan
  scan-Ends [] index g gi fits known = (tt, omega arith, fits, inl (refl, refl))
  scan-Ends (c ∷ cs) index g gi fits known =
      let lag = sub64 next c in
      let later : (k : ℕ)
          → k < length cs
          → index + 1 + k ≡ blocker
          → sub64 next (get_or cs k 0) ≤ g =
        λ k lt e. known (suc k) (omega arith) (omega arith) in
      let onward : lag ≤ g
          → Ends (c ∷ cs) index g gi (scan maximum_lag next blocker cs (index + 1) g gi) =
        λ le.
          Ends-cons c cs index g gi g gi _ (omega arith) le (inl (refl, refl))
            (scan-Ends cs (index + 1) g gi fits later) in
      elim (Bool-cases (index == blocker)) [
        | inl here ↦ rw here (onward (known 0 (omega arith) (ground arith)))
        | inr other ↦ rw other (elim (Bool-cases (ltb maximum_lag lag)) [
          | inl over ↦ rw over (0, omega arith, omega arith, ground arith)
          | inr under ↦ rw under (elim (Bool-cases (ltb g lag)) [
            | inl more ↦ rw more (
                Ends-cons c cs index g gi lag index _ (ground arith) (omega arith)
                  (inr (refl, refl))
                  (scan-Ends cs (index + 1) lag index (ground arith)
                    (λ k lt e. let p = later k lt e in ground arith)))
            | inr less ↦ rw less (onward (ground arith))
          ])
        ])
      ]

module _ (capacity : ℕ) (consumers : List ℕ) (c : ProducerCursor) (required : ℕ) where
  -- What a check leaves: on success the cache is what the greatest lag leaves of the capacity; on
  -- failure it is as before, and some consumer is too far behind.
  unfoldable pub Refreshed : Bool × ProducerCursor → Type 0
  Refreshed (true, c') =
      (c'.next_to_publish ≡ c.next_to_publish)
      × (c'.blocking_consumer < length consumers)
      × (let greatest = sub64 c.next_to_publish (get_or consumers c'.blocking_consumer 0) in
          LagsWithin c.next_to_publish greatest consumers
          × (greatest + required ≤ capacity)
          × (c'.available_before_rescan + greatest ≡ capacity))
  Refreshed (false, c') =
      (c'.next_to_publish ≡ c.next_to_publish)
      × (c'.available_before_rescan ≡ c.available_before_rescan)
      × (c'.blocking_consumer < length consumers)
      × (capacity < sub64 c.next_to_publish (get_or consumers c'.blocking_consumer 0) + required)

  module _ (small : capacity < 2 ^ 63) (fits : required ≤ capacity)
      (blocker_in : c.blocking_consumer < length consumers) where
    abbrev next : ℕ
    next = c.next_to_publish

    abbrev blocker : ℕ
    blocker = c.blocking_consumer

    abbrev first_lag : ℕ
    first_lag = sub64 next (get_or consumers blocker 0)

    settle-Refreshed :
        (r : Scan)
        → Ends (sub64 capacity required) next blocker consumers 0 first_lag blocker r
        → Refreshed (settle capacity c r)
    unfolding settle Refreshed
    settle-Refreshed (blocked i) (j, lt, e, over) =
        let same : i ≡ j = omega arith in (refl, refl, omega arith, rw same (omega arith))
    settle-Refreshed (scanned g gi) (within, up, low, inl (e, q)) =
        (refl, omega arith, rw (e, ← q) (within, omega arith, omega arith))
    settle-Refreshed (scanned g gi) (within, up, low, inr (j, lt, e, q)) =
        let same : gi ≡ j = omega arith in
        (refl, omega arith, rw (same, ← q) (within, omega arith, omega arith))

    -- With a capacity below 2^63, at most `capacity` required and a blocking consumer in range, the
    -- check succeeds only where every consumer's lag leaves room for `required` events, and caches
    -- what the greatest lag leaves of the capacity; it fails only where the consumer that it names
    -- as blocking leaves less than `required`, and then the cached capacity is as before.
    pub refresh_available_capacity-Refreshed :
        Refreshed (refresh_available_capacity capacity consumers c required)
    unfolding refresh_available_capacity Refreshed
    refresh_available_capacity-Refreshed =
        elim (Bool-cases (ltb (sub64 capacity required) first_lag)) [
          | inl over ↦ rw over (refl, refl, blocker_in, ground arith)
          | inr under ↦ rw under (
              settle-Refreshed _ (
                scan-Ends (sub64 capacity required) next blocker consumers 0 first_lag blocker
                  (ground arith)
                  (λ j lt e. let same : j ≡ blocker = omega arith in rw same (omega arith))))
        ]
