-- ===== src/SpinWait/Tests.antt =====
-- The adaptive policy at work, with a limit of two pauses.
use low_latency_showcase.Prelude.{◌≡◌, ◌++◌, replicate, leb}
use low_latency_showcase.SpinWait.{pause, yield_thread, AdaptiveSpinWait, reset, waits, is_yielding}
use low_latency_showcase.SpinWait.Schedule.{waits-reset}

abbrev tired : AdaptiveSpinWait
tired = record { pause_count = 2 }

waits-reset_example :
    ((waits 2 5 (reset tired)).0 ≡ replicate 2 pause ++ replicate 3 yield_thread)
    × (is_yielding 2 (waits 2 5 (reset tired)).1 ≡ leb 2 5)
waits-reset_example = waits-reset 2 5 tired
