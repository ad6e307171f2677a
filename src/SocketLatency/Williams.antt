-- ===== src/SocketLatency/Williams.antt =====
-- socket_latency.cpp: `williams_first_row` and the order in which `main` runs the workloads: a
-- Williams design.
use mathlib.Core.Option.{some-injective}
use native.Mathlib.Nat.{mod-eq_of_lt, mod-eq-sub-mod}
use low_latency_showcase.Prelude.{
  ℕ, zero, suc, ◌+◌, ◌-◌, ◌/◌, ◌%◌, ◌≤◌, ◌<◌, ◌≡◌, ◌⊎◌, inl, inr, refl, ap, ◌∙◌, false, ◌||◌, ◌&&◌,
  not, List, [], ◌∷◌, Option, none, some, get_or, ltb, ◌==◌, if◌then◌else◌, arith, dec_lt,
}
use low_latency_showcase.Words.{word, sub64, add64}

unfoldable pub williams_entry : ℕ → ℕ → ℕ
williams_entry width position =
    if position == 0
    then 0
    else if not (position % 2 == 0)
    then (position + 1) / 2
    else sub64 width (position / 2)

-- `for (; position < width; ++position) order.push_back(...)`, with the number of rounds left.
unfoldable pub williams_entries : ℕ → ℕ → ℕ → List ℕ
williams_entries width zero position = []
williams_entries width (suc n) position =
    williams_entry width position ∷ williams_entries width n (position + 1)

-- A width that it rejects is `none`.
unfoldable pub williams_first_row : ℕ → Option (List ℕ)
unfolding williams_entries
williams_first_row width =
    if width == 0 || (ltb 1 width && not (width % 2 == 0))
    then none
    else some (williams_entries width width 0)

-- The workload at a position of a run.
unfoldable pub workload_index : ℕ → List ℕ → ℕ → ℕ → ℕ
workload_index width order run position = add64 (get_or order position 0) run % width

module _ (width : ℕ) (even : width % 2 ≡ 0) (small : width + width < word) where
  entry_lt : (p : ℕ) → p < width → williams_entry width p < width
  unfolding williams_entry
  entry_lt p lt = ground (arith, even)

  -- Twice the entry, and the parity of its position.
  entry_value :
      (p : ℕ)
      → p < width
      → let e = williams_entry width p in
        ((p % 2 ≡ 1) × (e + e ≡ p + 1))
        ⊎ ((p ≡ 0) × (e ≡ 0))
        ⊎ ((p % 2 ≡ 0) × (e + e + p ≡ width + width))
  unfolding williams_entry
  entry_value p lt = ground (arith, even)

  get_or-williams_entries :
      (n position p : ℕ)
      → p < n
      → get_or (williams_entries width n position) p 0 ≡ williams_entry width (position + p)
  unfolding williams_entries
  get_or-williams_entries zero position p lt = absurd (omega arith)
  get_or-williams_entries (suc n) position zero lt = ap (williams_entry width) (omega arith)
  get_or-williams_entries (suc n) position (suc p) lt =
      get_or-williams_entries n (position + 1) p (omega arith)
      ∙ ap (williams_entry width) (omega arith)

  -- A sum of two numbers below the width, modulo the width.
  IsSum : ℕ → ℕ → ℕ → Type 0
  IsSum a r i = ((i ≡ a + r) ⊎ (i + width ≡ a + r)) × (i < width)

  IsSum-modulo : (a r : ℕ) → a < width → r < width → IsSum a r (add64 a r % width)
  unfolding IsSum
  IsSum-modulo a r lt lt' =
      let plain : add64 a r ≡ a + r = omega arith in
      elim (dec_lt (a + r) width) [
        | yes low ↦ rw (plain, mod-eq_of_lt low) (inl refl, low)
        | no high ↦
            let less : a + r - width < width = omega arith in
            let le : width ≤ a + r = omega arith in
            rw (plain, mod-eq-sub-mod le, mod-eq_of_lt less) (inr (omega arith), less)
      ]

  -- From a workload to the next one of a run the index goes up by an odd number below the width at
  -- an even position, and down by an even one at an odd position, modulo the width.
  IsStep : ℕ → ℕ → ℕ → Type 0
  IsStep p i j =
      ((p % 2 ≡ 0) × ((j ≡ i + p + 1) ⊎ (j + width ≡ i + p + 1)))
      ⊎ ((p % 2 ≡ 1) × ((j + p + 1 ≡ i) ⊎ (j + p + 1 ≡ i + width)))

  sums-IsStep :
      (p r i j : ℕ)
      → p + 1 < width
      → IsSum (williams_entry width p) r i
      → IsSum (williams_entry width (p + 1)) r j
      → IsStep p i j
  unfolding IsSum IsStep
  sums-IsStep p r i j lt (first, low) (second, low') = elim (entry_value p (omega arith)) [
    | inl odd ↦ inr (odd.0, omega (arith, entry_value (p + 1) lt, odd))
    | inr (inl first_one) ↦ inl (omega arith, omega (arith, entry_value (p + 1) lt, first_one))
    | inr (inr even) ↦ inl (even.0, omega (arith, entry_value (p + 1) lt, even))
  ]

  same_step :
      (p q i j : ℕ)
      → p + 1 < width
      → q + 1 < width
      → i < width
      → j < width
      → IsStep p i j
      → IsStep q i j
      → p ≡ q
  unfolding IsStep
  same_step p q i j lt lt' low low' s t = omega arith

  same_run : (a r r' i : ℕ) → r < width → r' < width → IsSum a r i → IsSum a r' i → r ≡ r'
  unfolding IsSum
  same_run a r r' i lt lt' s t = omega arith

  entries_accepted :
      (order : List ℕ)
      → williams_first_row width ≡ some order
      → (p : ℕ) → p < width
      → get_or order p 0 ≡ williams_entry width p
  unfolding williams_first_row
  entries_accepted order e p lt =
      let accepted : (width == 0 || (ltb 1 width && not (width % 2 == 0))) ≡ false =
        ground (arith, even, lt) in
      let same : williams_entries width width 0 ≡ order = some-injective _ _ (rw accepted at e) in
      rw (← same) (get_or-williams_entries width 0 p lt ∙ ap (williams_entry width) (omega arith))

  workload-IsSum :
      (order : List ℕ)
      → williams_first_row width ≡ some order
      → (run p : ℕ) → run < width
      → p < width
      → IsSum (williams_entry width p) run (workload_index width order run p)
  unfolding workload_index
  workload-IsSum order e run p lt lt' =
      rw (entries_accepted order e p lt')
        (IsSum-modulo (williams_entry width p) run (entry_lt p lt') lt)

  -- For an even number of workloads, at most half of what 64 bits hold: in as many runs as there
  -- are workloads, no workload comes after the same other one twice. Two places that have the same
  -- workload, and the same one after it, are the same position of the same run.
  pub williams_first_row-follow_once :
      (order : List ℕ)
      → williams_first_row width ≡ some order
      → (run run' p q : ℕ) → run < width
      → run' < width
      → p + 1 < width
      → q + 1 < width
      → workload_index width order run p ≡ workload_index width order run' q
      → workload_index width order run (p + 1) ≡ workload_index width order run' (q + 1)
      → (run ≡ run') × (p ≡ q)
  unfolding IsSum
  williams_first_row-follow_once order e run run' p q lt lt' inside inside' same next =
      let a = workload-IsSum order e run p lt (omega arith) in
      let b = workload-IsSum order e run (p + 1) lt inside in
      let c = rw (← same) at (workload-IsSum order e run' q lt' (omega arith)) in
      let d = rw (← next) at (workload-IsSum order e run' (q + 1) lt' inside') in
      let place : p ≡ q =
        same_step p q _ _ inside inside' a.1 b.1 (sums-IsStep p run _ _ inside a b)
          (sums-IsStep q run' _ _ inside' c d) in
      (same_run (williams_entry width p) run run' _ lt lt' a (rw (← place) at c), place)
