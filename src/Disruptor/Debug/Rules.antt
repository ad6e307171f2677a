-- ===== src/Disruptor/Debug/Rules.antt =====
-- The rules of use, and that the assertions check exactly these.
use low_latency_showcase.Prelude.{
  ◌≡◌, refl, Bool, true, false, ◌&&◌, not, Option, none, some, if◌then◌else◌,
}
use low_latency_showcase.Disruptor.Debug.{
  DebugState, idle, handle, handle_publishing, direct_publishing, Call, publish_directly,
  publish_by_handle, make_handle, move_handle, destroy_handle, CallList, done, call, assert_idle,
  assert_handle, acquire, assert_then, run, run_all,
}

-- A writer makes no call, but for handles that have been moved from.
unfoldable pub is_inert : Call → Bool
is_inert (move_handle owned) = not owned
is_inert (destroy_handle owned) = not owned
is_inert _ = false

unfoldable pub all_inert : CallList → Bool
unfolding is_inert
all_inert done = true
all_inert (call c cs) = is_inert c && all_inert cs

abbrev permit : Bool → Bool → Option Bool
permit allowed live = if allowed then some live else none

-- Whether a producer's handle is live after a call, if the call keeps the rules: one publication
-- path at a time, one live handle at most, and no publication from within a writer.
unfoldable pub keeps_rules : Call → Bool → Option Bool
unfolding all_inert
keeps_rules (publish_directly granted writer) live =
    permit (not live && (if granted then all_inert writer else true)) live
keeps_rules (publish_by_handle owned granted writer) live =
    permit (owned && live && (if granted then all_inert writer else true)) live
keeps_rules make_handle live = permit (not live) true
keeps_rules (move_handle owned) live = permit (if owned then live else true) live
keeps_rules (destroy_handle true) live = permit live false
keeps_rules (destroy_handle false) live = some live

unfoldable pub after_rules : Option Bool → (Bool → Option Bool) → Option Bool
after_rules none f = none
after_rules (some live) f = f live

unfoldable pub keeps_rules_all : CallList → Bool → Option Bool
unfolding keeps_rules after_rules
keeps_rules_all done live = some live
keeps_rules_all (call c cs) live = after_rules (keeps_rules c live) (keeps_rules_all cs)

-- The debug state between two calls.
abbrev pub between : Bool → DebugState
between true = handle
between false = idle

abbrev pub between_all : Option Bool → Option DebugState
between_all none = none
between_all (some live) = some (between live)

module _ (s : DebugState)
    (busy : (assert_idle s ≡ none) × (assert_handle s ≡ none) × (acquire s ≡ none)) where
  -- While a writer runs, every call but an inert one fails.
  run_busy : (c : Call) → run c s ≡ (if is_inert c then some s else none)
  unfolding run is_inert assert_then
  run_busy (publish_directly granted writer) = rw busy.0 refl
  run_busy (publish_by_handle true granted writer) = rw busy.1 refl
  run_busy (publish_by_handle false granted writer) = refl
  run_busy make_handle = busy.2
  run_busy (move_handle true) = busy.1
  run_busy (move_handle false) = refl
  run_busy (destroy_handle true) = rw busy.1 refl
  run_busy (destroy_handle false) = refl

  run_all_busy : (cs : CallList) → run_all cs s ≡ (if all_inert cs then some s else none)
  unfolding run_all all_inert assert_then
  run_all_busy done = refl
  run_all_busy (call c cs) =
      rw (run_busy c)
        (elim (is_inert c)
          as (λ b.
            assert_then (if b then some s else none) (run_all cs)
            ≡ (if b && all_inert cs then some s else none)) [
              | true ↦ run_all_busy cs
              | false ↦ refl
            ])

-- The same for one call.
run-keeps_rules : (c : Call) (live : Bool) → run c (between live) ≡ between_all (keeps_rules c live)
unfolding run keeps_rules assert_idle assert_handle acquire assert_then
run-keeps_rules (publish_directly true writer) true = refl
run-keeps_rules (publish_directly true writer) false =
    rw (run_all_busy direct_publishing (refl, refl, refl) writer)
      (elim (all_inert writer)
        as (λ b.
          assert_then (if b then some direct_publishing else none) (λ _. some idle)
          ≡ between_all (permit b false)) [ true ↦ refl | false ↦ refl ])
run-keeps_rules (publish_directly false writer) true = refl
run-keeps_rules (publish_directly false writer) false = refl
run-keeps_rules (publish_by_handle true true writer) true =
    rw (run_all_busy handle_publishing (refl, refl, refl) writer)
      (elim (all_inert writer)
        as (λ b.
          assert_then (if b then some handle_publishing else none) (λ _. some handle)
          ≡ between_all (permit b true)) [ true ↦ refl | false ↦ refl ])
run-keeps_rules (publish_by_handle true true writer) false = refl
run-keeps_rules (publish_by_handle true false writer) true = refl
run-keeps_rules (publish_by_handle true false writer) false = refl
run-keeps_rules (publish_by_handle false granted writer) live = refl
run-keeps_rules make_handle true = refl
run-keeps_rules make_handle false = refl
run-keeps_rules (move_handle true) true = refl
run-keeps_rules (move_handle true) false = refl
run-keeps_rules (move_handle false) true = refl
run-keeps_rules (move_handle false) false = refl
run-keeps_rules (destroy_handle true) true = refl
run-keeps_rules (destroy_handle true) false = refl
run-keeps_rules (destroy_handle false) true = refl
run-keeps_rules (destroy_handle false) false = refl

-- Between two calls, for every sequence of calls and whether or not a handle is live: no assertion
-- fails if and only if each call keeps the rules of use, and the debug state is then `handle` if a
-- handle is live after the calls and `idle` if none is.
pub run_all-keeps_rules_all :
    (cs : CallList) (live : Bool)
    → run_all cs (between live) ≡ between_all (keeps_rules_all cs live)
unfolding run_all keeps_rules_all assert_then after_rules
run_all-keeps_rules_all done live = refl
run_all-keeps_rules_all (call c cs) live =
    rw (run-keeps_rules c live)
      (elim (keeps_rules c live)
        as (λ after.
          assert_then (between_all after) (run_all cs)
          ≡ between_all (after_rules after (keeps_rules_all cs))) [
            | none ↦ refl
            | some live' ↦ run_all-keeps_rules_all cs live'
          ])
