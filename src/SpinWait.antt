-- ===== src/SpinWait.antt =====
-- modules/concurrency/spin-wait: the three policies between unsuccessful polls.
pub mod Schedule
mod Tests
use low_latency_showcase.Prelude.{ℕ, zero, suc, ◌+◌, Bool, List, [], ◌∷◌, ltb, ◌==◌, if◌then◌else◌}

-- What a wait does: a PAUSE instruction, or a yield to the scheduler.
pub data Hint : Type 0 where
  pause yield_thread : Hint

-- `busy_spin_wait::wait` and `yield_wait::wait`, which keep no state.
unfoldable pub busy_spin_wait : Hint
busy_spin_wait = pause

unfoldable pub yield_wait : Hint
yield_wait = yield_thread

pub record AdaptiveSpinWait : Type 0 where
  pub pause_count : ℕ

-- `adaptive_spin_wait pause_limit` as it is made, and `reset`.
unfoldable pub fresh : AdaptiveSpinWait
fresh = record { pause_count = 0 }

unfoldable pub reset : AdaptiveSpinWait → AdaptiveSpinWait
reset w = record w { pause_count = 0 }

unfoldable pub wait : ℕ → AdaptiveSpinWait → Hint × AdaptiveSpinWait
wait pause_limit w =
    if ltb w.pause_count pause_limit
    then (pause, record w { pause_count = w.pause_count + 1 })
    else (yield_thread, w)

unfoldable pub is_yielding : ℕ → AdaptiveSpinWait → Bool
is_yielding pause_limit w = w.pause_count == pause_limit

-- The hints of `n` waits in a row, and the policy after them.
unfoldable pub waits : ℕ → ℕ → AdaptiveSpinWait → List Hint × AdaptiveSpinWait
unfolding wait
waits pause_limit zero w = ([], w)
waits pause_limit (suc n) w =
    let (hint, w') = wait pause_limit w in
    let (hints, w'') = waits pause_limit n w' in (hint ∷ hints, w'')
