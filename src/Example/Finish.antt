-- ===== src/Example/Finish.antt =====
-- The example's threads finish, and each consumer is given every event, in order.
use low_latency_showcase.Prelude.{
  ℕ, subst, zero, suc, ◌+◌, ◌-◌, ◌*◌, ◌%◌, ◌≤◌, ◌<◌, ◌≡◌, refl, ◌∙◌, List, [], ◌∷◌, length, All,
  arith, dec_lt, inl,
}
use low_latency_showcase.Words.{word}
use low_latency_showcase.Disruptor.State.{init, make_consumer}
use low_latency_showcase.Disruptor.Log.{Log, empty, deliver}
use low_latency_showcase.Disruptor.Invariant.{init-IsShared}
use low_latency_showcase.Example.{
  MarketEvent, event_count, ring_capacity, no_event, Program, launch, Turn, main_turn, risk_turn,
  journal_turn, take_turn, take_turns,
}
use low_latency_showcase.Example.Inv.{ring-IsCapacity, event_at, Follows, Inv, within}
use low_latency_showcase.Example.Progress.{work_left, IsEnabled}
use low_latency_showcase.Example.Turns.{
  take_turn-work_left, some-IsEnabled, IsEnabled-kept, work_left_le,
}
use mathlib.Core.List.{Memᴰ}

module _ {κ} {S : Type κ} where
  -- The handler on `n` events from number `k` on, in order, each with its sequence.
  unfoldable pub hand_over : (S → MarketEvent → ℕ → S) → ℕ → ℕ → S → S
  hand_over handle k zero s = s
  hand_over handle k (suc n) s = hand_over handle (k + 1) n (handle s (event_at k) k)

  deliver-hand_over :
      (handle : S → MarketEvent → ℕ → S) (stream : ℕ → MarketEvent) (k n : ℕ) (s : S)
      → ((j : ℕ) → j < k + n → stream (word + j) ≡ event_at j)
      → k + n ≤ event_count
      → deliver handle stream (word + k) n s ≡ hand_over handle k n s
  unfolding deliver hand_over
  deliver-hand_over handle stream k zero s same le = refl
  deliver-hand_over handle stream k (suc n) s same le =
      let sequence : (word + k) % word ≡ k = omega arith in
      let next : word + k + 1 ≡ word + (k + 1) = omega arith in
      rw (same k (omega arith), sequence, next)
        (deliver-hand_over handle stream (k + 1) n _ (λ j lt. same j (omega arith)) (omega arith))

-- Some stretch of the schedule in which every thread has a turn.
unfoldable pub IsCycle : List Turn → Type 0
IsCycle ts = Memᴰ main_turn ts × Memᴰ risk_turn ts × Memᴰ journal_turn ts

unfoldable pub take_cycles {κ} :
    {S : Type κ} (handler : ℕ → S → MarketEvent → ℕ → S) → List (List Turn) → Program S → Program S
take_cycles handler [] p = p
take_cycles handler (ts ∷ cycles) p = take_cycles handler cycles (take_turns handler ts p)

module _ {κ} {S : Type κ} (handler : ℕ → S → MarketEvent → ℕ → S) (s₀ : S) where
  launch-Follows : (i : ℕ) → i < 2 → Follows handler s₀ i (launch s₀) (empty no_event 2 0)
  unfolding launch empty init make_consumer deliver
  launch-Follows zero inside = record {
    index = refl;
    boundary = word;
    handle = record {
      index_in = omega arith;
      next_word = refl;
      cached_word = refl;
      behind = omega arith;
      published = omega arith;
    };
    position = refl;
    taken = refl;
  }
  launch-Follows (suc zero) inside = record {
    index = refl;
    boundary = word;
    handle = record {
      index_in = omega arith;
      next_word = refl;
      cached_word = refl;
      behind = omega arith;
      published = omega arith;
    };
    position = refl;
    taken = refl;
  }
  launch-Follows (suc (suc i)) inside = absurd (omega arith)

  launch-Inv : Inv handler s₀ (launch s₀) (empty no_event 2 0)
  unfolding launch empty init make_consumer deliver
  launch-Inv =
      let (shared, cursor) =
        init-IsShared ring-IsCapacity no_event 2 0 (omega arith) (omega arith) in
      record {
        shared = shared;
        leads = (cursor, refl);
        tail = omega arith;
        counted = refl;
        follows = λ i inside. launch-Follows i inside;
        events = λ k lt. absurd (omega arith);
        aligned = inl (omega arith);
        bounded = omega arith;
      }

  abbrev Going : Program S → Type κ
  Going p = (l : Log MarketEvent) × Inv handler s₀ p l

  after_turn : (t : Turn) (p : Program S) → Going p → Going (take_turn handler t p)
  after_turn t p (l, v) =
      let (turned, _) = take_turn-work_left handler s₀ v t in (turned.log, turned.inv)

  after_turns : (ts : List Turn) (p : Program S) → Going p → Going (take_turns handler ts p)
  unfolding take_turns
  after_turns [] p g = g
  after_turns (t ∷ ts) p g = after_turns ts (take_turn handler t p) (after_turn t p g)

  after_cycles :
      (cycles : List (List Turn)) (p : Program S) → Going p → Going (take_cycles handler cycles p)
  unfolding take_cycles
  after_cycles [] p g = g
  after_cycles (ts ∷ cycles) p g =
      after_cycles cycles (take_turns handler ts p) (after_turns ts p g)

  turns-work_left :
      (ts : List Turn) (p : Program S) → Going p → work_left (take_turns handler ts p) ≤ work_left p
  unfolding take_turns
  turns-work_left [] p g = omega arith
  turns-work_left (t ∷ ts) p (l, v) =
      let (turned, _) = take_turn-work_left handler s₀ v t in
      omega (
        arith,
        work_left_le handler s₀ v turned,
        turns-work_left ts (take_turn handler t p) (turned.log, turned.inv),
      )

  -- A stretch that holds an enabled turn leaves less to do.
  enabled-work_left :
      (t : Turn) (ts : List Turn) (p : Program S)
      → Going p
      → IsEnabled t p
      → Memᴰ t ts
      → work_left (take_turns handler ts p) < work_left p
  unfolding take_turns
  enabled-work_left t [] p g enabled m = elim m [ ]
  enabled-work_left t (u ∷ ts) p (l, v) enabled (Memᴰ.head e) =
      let (turned, less) = take_turn-work_left handler s₀ v u in
      omega (
        arith,
        less (subst (λ w. IsEnabled w p) e enabled),
        turns-work_left ts (take_turn handler u p) (turned.log, turned.inv),
      )
  enabled-work_left t (u ∷ ts) p (l, v) enabled (Memᴰ.tail m) =
      let q = take_turn handler u p in
      let (turned, less) = take_turn-work_left handler s₀ v u in
      elim (dec_lt (work_left q) (work_left p)) [
        | yes moved ↦ omega (arith, turns-work_left ts q (turned.log, turned.inv))
        | no same ↦ omega (
          arith,
          work_left_le handler s₀ v turned,
          enabled-work_left t ts q (turned.log, turned.inv)
              (IsEnabled-kept handler s₀ v t turned (omega arith) enabled) m,
        )
      ]

  in_cycle : (t : Turn) {ts : List Turn} → IsCycle ts → Memᴰ t ts
  unfolding IsCycle
  in_cycle main_turn (m, r, j) = m
  in_cycle risk_turn (m, r, j) = r
  in_cycle journal_turn (m, r, j) = j

  cycles-work_left :
      (cycles : List (List Turn)) (p : Program S)
      → Going p
      → All IsCycle cycles
      → work_left (take_cycles handler cycles p) ≤ work_left p - length cycles
  unfolding take_cycles
  cycles-work_left [] p g all = omega arith
  cycles-work_left (ts ∷ cycles) p (l, v) (cycle, all) =
      let q = take_turns handler ts p in
      let rest = cycles-work_left cycles q (after_turns ts p (l, v)) all in
      elim (dec_lt 0 (work_left p)) [
        | no done ↦ omega (arith, rest, turns-work_left ts p (l, v))
        | yes left ↦
            let (t, enabled) = some-IsEnabled handler s₀ v left in
            omega (arith, rest, enabled-work_left t ts p (l, v) enabled (in_cycle t cycle))
      ]

  -- However the threads' turns are interleaved, once there have been 300001 stretches in each of
  -- which every thread has had a turn, all events are published and both consumers have them all.
  pub take_cycles-finish :
      (cycles : List (List Turn))
      → All IsCycle cycles
      → 3 * event_count < length cycles
      → let p = take_cycles handler cycles (launch s₀) in
        (p.published ≡ event_count) × (p.consumed 0 ≡ event_count) × (p.consumed 1 ≡ event_count)
  unfolding work_left launch
  take_cycles-finish cycles all enough =
      let start : Going (launch s₀) = (_, launch-Inv) in
      let left = cycles-work_left cycles (launch s₀) start all in
      let (l, v) = after_cycles cycles (launch s₀) start in
      omega (
        arith,
        left,
        v.bounded,
        within handler s₀ v 0 (omega arith),
        within handler s₀ v 1 (omega arith),
      )

  -- However the threads' turns are interleaved, each consumer has been given the events from number
  -- 0 up to its count, once each and in order, and its count is at most the number of events
  -- published and at most the ring's capacity below it.
  pub take_turns-in_order :
      (ts : List Turn) (i : ℕ)
      → i < 2
      → let p = take_turns handler ts (launch s₀) in
        (p.states i ≡ hand_over (handler i) 0 (p.consumed i) s₀)
        × (p.consumed i ≤ p.published)
        × (p.published ≤ p.consumed i + ring_capacity)
        × (p.published ≤ event_count)
  take_turns-in_order ts i lt =
      let (l, v) = after_turns ts (launch s₀) (_, launch-Inv) in
      let near = within handler s₀ v i lt in
      (
        (v.follows i lt).taken
            ∙ deliver-hand_over (handler i) l.stream 0 _ s₀ (λ j below. v.events j (omega arith))
                (omega (arith, v.bounded)),
        near.0,
        near.1,
        v.bounded,
      )
