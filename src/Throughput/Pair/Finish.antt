-- ===== src/Throughput/Pair/Finish.antt =====
-- Every run of the pair ends with the checksum that the benchmark expects.
use low_latency_showcase.Prelude.{
  ℕ, ◌+◌, ◌*◌, ◌%◌, ◌^◌, ◌≤◌, ◌<◌, ◌≡◌, ap, ◌∙◌, ◌⊎◌, inl, inr, Bool, true, false, List, [], ◌∷◌,
  length, All, arith, dec_lt,
}
use mathlib.Core.List.{Memᴰ}
use low_latency_showcase.Words.{word}
use low_latency_showcase.Throughput.Channel.{
  Channel, sum_below, expected_checksum, sum_below-eq-expected_checksum,
}
use low_latency_showcase.Throughput.Pair.{
  Pair, Turn, producer_turn, consumer_turn, step, steps, begin, IsStretch, stretches,
}
use low_latency_showcase.Throughput.Pair.Turns.{
  Inv, work_done, bit, IsEnabled, begin-Inv, step-Turned, some-IsEnabled, IsEnabled-kept,
}

module _ {Q : Type 0} (events : ℕ) (channel : Channel events Q) where
  -- Over a sequence of turns.
  steps-Inv :
      (ts : List Turn) (p : Pair Q)
      → Inv events channel p
      → Inv events channel (steps events channel ts p)
        × (p.consumed ≤ (steps events channel ts p).consumed)
        × (work_done events channel p ≤ work_done events channel (steps events channel ts p))
  unfolding steps
  steps-Inv [] p v = (v, omega arith, omega arith)
  steps-Inv (t ∷ ts) p v =
      let turned = step-Turned events channel p v t in
      let (w, further, more) = steps-Inv ts (step events channel t p) turned.inv in
      (
        w,
        omega (arith, further, turned.more_consumed),
        omega (arith, more, turned.flags, turned.more_published, turned.more_consumed),
      )

  -- A turn that is enabled gets something done, if not itself then one before it.
  enabled-work_done :
      (t : Turn) (ts : List Turn) (p : Pair Q)
      → Inv events channel p
      → IsEnabled events channel t p
      → Memᴰ t ts
      → work_done events channel p < work_done events channel (steps events channel ts p)
  unfolding steps
  enabled-work_done t [] p v enabled m = elim m [ ]
  enabled-work_done t (u ∷ ts) p v enabled (Memᴰ.head e) =
      let turned = step-Turned events channel p v u in
      let (w, further, more) = steps-Inv ts (step events channel u p) turned.inv in
      omega (arith, more, turned.moves (rw e at enabled))
  enabled-work_done t (u ∷ ts) p v enabled (Memᴰ.tail m) =
      let turned = step-Turned events channel p v u in
      let q = step events channel u p in
      let (w, further, more) = steps-Inv ts q turned.inv in
      elim (dec_lt (work_done events channel p) (work_done events channel q)) [
        | yes moved ↦ omega (arith, more, moved)
        | no stuck ↦
            let kept = IsEnabled-kept events channel t u p q turned (omega arith) enabled in
            omega (
              arith,
              enabled-work_done t ts q turned.inv kept m,
              turned.flags,
              turned.more_published,
              turned.more_consumed,
            )
      ]

  in_stretch : (t : Turn) {ts : List Turn} → IsStretch events channel ts → Memᴰ t ts
  unfolding IsStretch
  in_stretch producer_turn m = m.0
  in_stretch consumer_turn m = m.1

  stretches-work_done :
      (all : List (List Turn)) (p : Pair Q)
      → Inv events channel p
      → All (IsStretch events channel) all
      → Inv events channel (stretches events channel all p)
        × (p.consumed ≤ (stretches events channel all p).consumed)
        × ((events ≤ (stretches events channel all p).consumed)
            ⊎ (work_done events channel p + length all
                ≤ work_done events channel (stretches events channel all p)))
  unfolding stretches
  stretches-work_done [] p v each = (v, omega arith, inr (omega arith))
  stretches-work_done (ts ∷ all) p v (stretch, each) =
      let (w, further, more) = steps-Inv ts p v in
      let (w', further', rest) = stretches-work_done all (steps events channel ts p) w each in
      (
        w',
        omega (arith, further, further'),
        elim (dec_lt p.consumed events) [
          | no done ↦ inl (omega (arith, further, further'))
          | yes left ↦ elim rest [
            | inl done ↦ inl done
            | inr grown ↦
                let (t, enabled) = some-IsEnabled events channel p v left in
                inr
                  (omega (arith, grown, enabled-work_done t ts p v enabled (in_stretch t stretch)))
          ]
        ],
      )

  bit_le : (b : Bool) → bit events channel b ≤ 1
  bit_le true = omega arith
  bit_le false = omega arith

  -- For less than 2^32 events, a queue or stream that keeps what `Channel` asks, and however the
  -- turns of the two threads are interleaved: once there have been more than two stretches for each
  -- event and two for the start, in each of which both threads have had a turn, the consumer has
  -- every event, and its checksum is the expected one times the weight of an event, modulo 2^64.
  pub stretches-finish :
      (all : List (List Turn))
      → events < 2 ^ 32
      → All (IsStretch events channel) all
      → 2 * events + 2 < length all
      → let p = stretches events channel all (begin events channel) in
        (p.consumed ≡ events) × (p.checksum ≡ channel.weight * expected_checksum events % word)
  stretches-finish all small each enough =
      let (v, _, rest) =
        stretches-work_done all (begin events channel) (begin-Inv events channel) each in
      let p = stretches events channel all (begin events channel) in
      let finished : p.consumed ≡ events = elim rest [
        | inl done ↦ omega (arith, done, v.behind, v.bounded)
        | inr grown ↦
            absurd (omega (arith, grown, v.behind, v.bounded, bit_le p.ready, bit_le p.start))
      ] in
      (
        finished,
        rw (sum_below-eq-expected_checksum events small)
            (v.summed ∙ ap (λ n. channel.weight * sum_below n % word) finished),
      )
