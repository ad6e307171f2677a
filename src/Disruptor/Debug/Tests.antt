-- ===== src/Disruptor/Debug/Tests.antt =====
-- The debug state on concrete calls.
use low_latency_showcase.Prelude.{◌≡◌, refl, none, some, true, false}
use low_latency_showcase.Disruptor.Debug.{
  idle, publish_directly, publish_by_handle, make_handle, move_handle, destroy_handle, CallList,
  done, call, run_all,
}
use low_latency_showcase.Disruptor.Debug.Rules.{
  between, between_all, keeps_rules_all, run_all-keeps_rules_all,
}

-- A handle is made, moved and used, its moved-from original is destroyed, and then the handle
-- itself; the disruptor publishes directly before and after.
abbrev one_after_the_other : CallList
one_after_the_other = call (publish_directly true done) (
    call make_handle (
      call (move_handle true) (
        call (destroy_handle false) (
          call (publish_by_handle true true (call (destroy_handle false) done))
            (call (destroy_handle true) (call (publish_directly true done) done))))))

abbrev two_handles : CallList
two_handles = call make_handle (call make_handle done)

abbrev from_a_writer : CallList
from_a_writer = call (publish_directly true (call (publish_directly true done) done)) done

order_allowed : run_all one_after_the_other idle ≡ some idle
unfolding run_all
order_allowed = refl

two_handles_refused : run_all two_handles idle ≡ none
unfolding run_all
two_handles_refused = refl

writer_refused : run_all from_a_writer idle ≡ none
unfolding run_all
writer_refused = refl

run_all-keeps_rules_all_example :
    run_all one_after_the_other (between false)
    ≡ between_all (keeps_rules_all one_after_the_other false)
run_all-keeps_rules_all_example = run_all-keeps_rules_all one_after_the_other false
