-- ===== src/Example/Turns.antt =====
-- No turn leaves more to do, and while work is left there is a thread whose turn does some.
use low_latency_showcase.Prelude.{ℕ, ◌≤◌, ◌<◌, ◌≡◌, refl, ◌⊎◌, inl, inr, dec_lt, arith}
use low_latency_showcase.Disruptor.Log.{Log}
use low_latency_showcase.Example.{MarketEvent, event_count, Program}
use low_latency_showcase.Example.{Turn, main_turn, risk_turn, journal_turn, take_turn}
use low_latency_showcase.Example.Inv.{Inv, within}
use low_latency_showcase.Example.Progress.{
  opening, opening_le, work_left, IsEnabled, Turned, main-Turned, consumer-Turned,
}

module _ {κ} {S : Type κ} (handler : ℕ → S → MarketEvent → ℕ → S) (s₀ : S) {p : Program S}
    {l : Log MarketEvent} (v : Inv handler s₀ p l) where
  -- Where a turn moves one of the counts, less is left.
  fewer :
      {q : Program S}
      → Turned handler s₀ v q
      → ((opening q.producer < opening p.producer) ⊎ (p.published < q.published))
        ⊎ ((p.consumed 0 < q.consumed 0) ⊎ (p.consumed 1 < q.consumed 1))
      → work_left q < work_left p
  unfolding work_left
  fewer {q} t moved =
      let first = within handler s₀ t.inv 0 (omega arith) in
      let second = within handler s₀ t.inv 1 (omega arith) in
      omega (
        arith,
        first,
        second,
        t.inv.bounded,
        t.opened,
        t.more_published,
        t.more_consumed 0,
        t.more_consumed 1,
      )

  -- A turn that is enabled leaves less to do, and no turn leaves more.
  pub take_turn-work_left :
      (t : Turn)
      → Turned handler s₀ v (take_turn handler t p)
        × (IsEnabled t p → work_left (take_turn handler t p) < work_left p)
  unfolding take_turn IsEnabled
  take_turn-work_left main_turn =
      let (turned, moved) = main-Turned handler s₀ v p.producer refl v.leads in
      (turned, λ more. fewer turned (inl (moved more)))
  take_turn-work_left risk_turn =
      let (turned, moved) = consumer-Turned handler s₀ v 0 (omega arith) in
      (turned, λ more. fewer turned (inr (inl (moved more))))
  take_turn-work_left journal_turn =
      let (turned, moved) = consumer-Turned handler s₀ v 1 (omega arith) in
      (turned, λ more. fewer turned (inr (inr (moved more))))

  -- Unless all work is done, some turn is enabled.
  pub some-IsEnabled : 0 < work_left p → (t : Turn) × IsEnabled t p
  unfolding work_left IsEnabled
  some-IsEnabled left =
      let first = within handler s₀ v 0 (omega arith) in
      let second = within handler s₀ v 1 (omega arith) in
      elim (dec_lt (p.consumed 0) p.published) [
        | yes risk ↦ (risk_turn, risk)
        | no risk ↦ elim (dec_lt (p.consumed 1) p.published) [
          | yes journal ↦ (journal_turn, journal)
          | no journal ↦ elim (dec_lt p.published event_count) [
            | yes lt ↦ (main_turn, inr (lt, omega arith, omega arith))
            | no lt ↦ (main_turn, inl (omega (arith, opening_le p.producer)))
          ]
        ]
      ]

  pub work_left_le : {q : Program S} → Turned handler s₀ v q → work_left q ≤ work_left p
  unfolding work_left
  work_left_le t = omega (arith, t.opened, t.more_published, t.more_consumed 0, t.more_consumed 1)

  unmoved :
      {q : Program S}
      → Turned handler s₀ v q
      → work_left p ≤ work_left q
      → (opening q.producer ≡ opening p.producer)
        × (q.published ≡ p.published)
        × (q.consumed 0 ≡ p.consumed 0)
        × (q.consumed 1 ≡ p.consumed 1)
  unfolding work_left
  unmoved t same = omega (
    arith,
    within handler s₀ t.inv 0 (omega arith),
    within handler s₀ t.inv 1 (omega arith),
    t.inv.bounded,
    t.opened,
    t.more_published,
    t.more_consumed 0,
    t.more_consumed 1,
  )

  -- A turn stays enabled until some work is done.
  pub IsEnabled-kept :
      {q : Program S} (t : Turn)
      → Turned handler s₀ v q
      → work_left p ≤ work_left q
      → IsEnabled t p
      → IsEnabled t q
  unfolding IsEnabled
  IsEnabled-kept main_turn t same (inl o) = inl (omega (arith, unmoved t same))
  IsEnabled-kept main_turn t same (inr (lt, all_0, all_1)) =
      let (_, a, b, c) = unmoved t same in inr (omega arith, omega arith, omega arith)
  IsEnabled-kept risk_turn t same more = omega (arith, unmoved t same)
  IsEnabled-kept journal_turn t same more = omega (arith, unmoved t same)
