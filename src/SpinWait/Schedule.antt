-- ===== src/SpinWait/Schedule.antt =====
-- What an idle period of the adaptive policy looks like.
use low_latency_showcase.Prelude.{
  ℕ, zero, suc, ◌+◌, ◌-◌, ◌≤◌, ◌<◌, min, ◌≡◌, refl, sym, ap, ◌∙◌, inl, inr, List, ◌∷◌, ◌++◌,
  replicate, ltb, leb, Bool-cases, arith,
}
use low_latency_showcase.SpinWait.{
  Hint, pause, yield_thread, AdaptiveSpinWait, reset, wait, waits, is_yielding,
}

module _ (pause_limit : ℕ) where
  -- The hints of `n` waits by a policy that has paused `count` times.
  abbrev schedule : ℕ → ℕ → List Hint
  schedule count n =
      let pauses = min n (pause_limit - count) in
      replicate pauses pause ++ replicate (n - pauses) yield_thread

  schedule-pause :
      (count n : ℕ) → count < pause_limit → pause ∷ schedule (count + 1) n ≡ schedule count (suc n)
  schedule-pause count n lt =
      let first : min (suc n) (pause_limit - count) ≡ suc (min n (pause_limit - (count + 1))) =
        omega arith in
      let rest : suc n - min (suc n) (pause_limit - count) ≡ n - min n (pause_limit - (count + 1)) =
        omega arith in
      sym (
        ap (λ k. replicate (min (suc n) (pause_limit - count)) pause ++ replicate k yield_thread)
          rest
        ∙ ap
            (λ k.
              replicate k pause ++ replicate (n - min n (pause_limit - (count + 1))) yield_thread)
            first)

  schedule-yield :
      (count n : ℕ) → pause_limit ≤ count → yield_thread ∷ schedule count n ≡ schedule count (suc n)
  schedule-yield count n le =
      let none_left : pause_limit - count ≡ 0 = omega arith in
      let before : min n (pause_limit - count) ≡ 0 = omega arith in
      let after : min (suc n) (pause_limit - count) ≡ 0 = omega arith in
      let more : suc n - 0 ≡ suc (n - 0) = omega arith in rw (before, after, more) refl

  waits-schedule :
      (n : ℕ) (w : AdaptiveSpinWait)
      → w.pause_count ≤ pause_limit
      → ((waits pause_limit n w).0 ≡ schedule w.pause_count n)
        × ((waits pause_limit n w).1.pause_count ≡ min (w.pause_count + n) pause_limit)
  unfolding waits wait
  waits-schedule zero w le =
      let no_pauses : min 0 (pause_limit - w.pause_count) ≡ 0 = omega arith in
      (rw no_pauses refl, omega arith)
  waits-schedule (suc n) w le = elim (Bool-cases (ltb w.pause_count pause_limit)) [
    | inl more ↦
        let lt : w.pause_count < pause_limit = ground arith in
        let (hints, count) =
          waits-schedule n (record w { pause_count = w.pause_count + 1 }) (omega arith) in
        rw more
          (ap (λ hs. pause ∷ hs) hints ∙ schedule-pause w.pause_count n lt, count ∙ omega arith)
    | inr spent ↦
        let over : pause_limit ≤ w.pause_count = ground arith in
        let (hints, count) = waits-schedule n w le in
        rw spent (
          ap (λ hs. yield_thread ∷ hs) hints ∙ schedule-yield w.pause_count n over,
          count ∙ omega arith,
        )
  ]

  -- The waits of an idle period, from a reset on, are pauses up to the limit and yields from there,
  -- and the policy says that it is yielding exactly if the period has reached the limit.
  pub waits-reset :
      (n : ℕ) (w : AdaptiveSpinWait)
      → ((waits pause_limit n (reset w)).0
          ≡ replicate (min n pause_limit) pause ++ replicate (n - min n pause_limit) yield_thread)
        × (is_yielding pause_limit (waits pause_limit n (reset w)).1 ≡ leb pause_limit n)
  unfolding reset is_yielding
  waits-reset n w =
      let (hints, count) = waits-schedule n (reset w) (omega arith) in
      let small : min (0 + n) pause_limit ≡ min n pause_limit = omega arith in
      let full : pause_limit - 0 ≡ pause_limit = omega arith in
      (
        hints ∙ ap (λ k. replicate (min n k) pause ++ replicate (n - min n k) yield_thread) full,
        rw (count, small) (ground arith),
      )
