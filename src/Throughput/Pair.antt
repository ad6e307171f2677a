-- ===== src/Throughput/Pair.antt =====
-- run_pair: the main thread and the consumer's thread, a turn at a time.
pub mod Turns
pub mod Finish
use low_latency_showcase.Prelude.{
  ℕ, ◌+◌, ◌*◌, ◌%◌, ◌^◌, ◌≤◌, ◌<◌, ◌≡◌, refl, ap, ◌∙◌, ◌⊎◌, inl, inr, Bool, true, false, List, [],
  ◌∷◌, length, All, arith, Bool-cases, ltb, dec_lt, if◌then◌else◌,
}
use native.Mathlib.Nat.{mul-zero}
use mathlib.Core.List.{Memᴰ}
use low_latency_showcase.Words.{word}
use low_latency_showcase.Throughput.Channel.{
  Channel, sum_below, expected_checksum, sum_below-eq-expected_checksum,
}

-- The queue or stream, the two flags of the start, the two counts of the loops, and the checksum.
pub record Pair (Q : Type 0) : Type 0 where
  pub queue : Q
  pub ready : Bool
  pub start : Bool
  pub published : ℕ
  pub consumed : ℕ
  pub checksum : ℕ

pub data Turn : Type 0 where
  producer_turn : Turn
  consumer_turn : Turn

module _ {Q : Type 0} (events : ℕ) (channel : Channel events Q) where
  -- The main thread waits for `ready`, sets `start` and runs the producer's loop.
  unfoldable pub producer_step : Pair Q → Pair Q
  producer_step p =
      if p.start
      then if ltb p.published events
        then (let (n, q) = channel.produce p.published p.queue in
            record p { queue = q; published = p.published + n })
        else p
      else if p.ready
      then record p { start = true }
      else p

  -- The consumer's thread sets `ready`, waits for `start` and runs the consumer's loop.
  unfoldable pub consumer_step : Pair Q → Pair Q
  consumer_step p =
      if p.ready
      then if p.start
        then if ltb p.consumed events
          then (let (n, q, checksum) = channel.consume p.queue p.checksum in
              record p { queue = q; consumed = p.consumed + n; checksum = checksum })
          else p
        else p
      else record p { ready = true }

  unfoldable pub step : Turn → Pair Q → Pair Q
  unfolding producer_step consumer_step
  step producer_turn p = producer_step p
  step consumer_turn p = consumer_step p

  unfoldable pub steps : List Turn → Pair Q → Pair Q
  unfolding step
  steps [] p = p
  steps (t ∷ ts) p = steps ts (step t p)

  unfoldable pub begin : Pair Q
  begin = record {
    queue = channel.new;
    ready = false;
    start = false;
    published = 0;
    consumed = 0;
    checksum = 0;
  }

  -- A stretch of turns in which each thread has one.
  unfoldable pub IsStretch : List Turn → Type 0
  IsStretch ts = Memᴰ producer_turn ts × Memᴰ consumer_turn ts

  unfoldable pub stretches : List (List Turn) → Pair Q → Pair Q
  stretches [] p = p
  stretches (ts ∷ rest) p = stretches rest (steps ts p)
