-- ===== src/Disruptor/Debug.antt =====
-- The assertions of a build without NDEBUG: `producer_state_` follows which publication path is in
-- use, and a call that breaks the rules of use stops the program.
pub mod Rules
mod Tests
use low_latency_showcase.Prelude.{Bool, true, false, Option, none, some, if◌then◌else◌}

-- `producer_debug_state`
pub data DebugState : Type 0 where
  idle handle handle_publishing direct_publishing : DebugState

-- The producer's calls. A batch is granted if it is not empty and there is room for it: its writer
-- is called then, and may make calls itself. A handle is owned if it has not been moved from; the
-- first argument of `publish_by_handle` says so.
mutual
  pub data Call : Type 0 where
    publish_directly : Bool → CallList → Call
    publish_by_handle : Bool → Bool → CallList → Call
    make_handle : Call
    move_handle : Bool → Call
    destroy_handle : Bool → Call

  pub data CallList : Type 0 where
    done : CallList
    call : Call → CallList → CallList

-- The five assertions; a failed one is `none`.
unfoldable pub assert_idle : DebugState → Option DebugState
assert_idle idle = some idle
assert_idle _ = none

unfoldable pub assert_handle : DebugState → Option DebugState
assert_handle handle = some handle
assert_handle _ = none

-- `compare_exchange_strong` from `idle`, and the assertion that it succeeded.
unfoldable pub acquire : DebugState → Option DebugState
acquire idle = some handle
acquire _ = none

unfoldable pub assert_then :
    Option DebugState → (DebugState → Option DebugState) → Option DebugState
assert_then none f = none
assert_then (some s) f = f s

-- The state after a call or some, or `none` if an assertion failed.
unfoldable mutual
  unfolding assert_idle assert_handle acquire assert_then

  pub run : Call → DebugState → Option DebugState
  run (publish_directly granted writer) s = assert_then (assert_idle s) (λ s'. elim granted [
    | true ↦ assert_then (run_all writer direct_publishing) (λ _. some idle)
    | false ↦ some s'
  ])
  run (publish_by_handle owned granted writer) s =
      assert_then (if owned then assert_handle s else none) (λ s'. elim granted [
        | true ↦ assert_then (run_all writer handle_publishing) (λ _. some handle)
        | false ↦ some s'
      ])
  run make_handle s = acquire s
  run (move_handle owned) s = if owned then assert_handle s else some s
  run (destroy_handle owned) s =
      if owned then assert_then (assert_handle s) (λ _. some idle) else some s

  pub run_all : CallList → DebugState → Option DebugState
  run_all done s = some s
  run_all (call c cs) s = assert_then (run c s) (run_all cs)
