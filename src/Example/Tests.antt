-- ===== src/Example/Tests.antt =====
-- The example's threads on concrete schedules.
use low_latency_showcase.Prelude.{
  ℕ, ◌+◌, ◌≤◌, ◌≡◌, refl, List, [], ◌∷◌, length-replicate, replicate, All-replicate, arith,
}
use mathlib.Core.List.{Memᴰ}
use low_latency_showcase.Example.{
  MarketEvent, event_count, ring_capacity, launch, Turn, main_turn, risk_turn, journal_turn,
  take_turns,
}
use low_latency_showcase.Example.Finish.{
  IsCycle, take_cycles, hand_over, take_cycles-finish, take_turns-in_order,
}

-- Handlers that count their events and add up the order numbers.
abbrev tally : ℕ → ℕ × ℕ → MarketEvent → ℕ → ℕ × ℕ
tally i (events, total) event sequence = (events + 1, total + event.order_id)

abbrev round_robin : List Turn
round_robin = journal_turn ∷ main_turn ∷ risk_turn ∷ []

round_robin-IsCycle : IsCycle round_robin
unfolding IsCycle
round_robin-IsCycle =
    (Memᴰ.tail (Memᴰ.head refl), Memᴰ.tail (Memᴰ.tail (Memᴰ.head refl)), Memᴰ.head refl)

abbrev many : List (List Turn)
many = replicate 300001 round_robin

take_cycles-finish_example :
    let p = take_cycles tally many (launch (0, 0)) in
    (p.published ≡ event_count) × (p.consumed 0 ≡ event_count) × (p.consumed 1 ≡ event_count)
take_cycles-finish_example =
    take_cycles-finish tally (0, 0) many
      (All-replicate IsCycle 300001 round_robin round_robin-IsCycle)
      (omega (arith, length-replicate 300001 round_robin))

-- The journal lags behind.
abbrev uneven : List Turn
uneven = main_turn ∷ main_turn ∷ risk_turn ∷ main_turn ∷ risk_turn ∷ []

take_turns-in_order_example :
    let p = take_turns tally uneven (launch (0, 0)) in
    (p.states 0 ≡ hand_over (tally 0) 0 (p.consumed 0) (0, 0))
    × (p.consumed 0 ≤ p.published)
    × (p.published ≤ p.consumed 0 + ring_capacity)
    × (p.published ≤ event_count)
take_turns-in_order_example = take_turns-in_order tally (0, 0) uneven 0 (omega arith)
