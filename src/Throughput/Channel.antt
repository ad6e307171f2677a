-- ===== src/Throughput/Channel.antt =====
-- What the measured pair of threads needs of the queue or stream between them.
use low_latency_showcase.Prelude.{
  ℕ, zero, suc, ◌+◌, ◌-◌, ◌*◌, ◌/◌, ◌%◌, ◌^◌, ◌≤◌, ◌<◌, ◌≡◌, refl, arith,
}
use native.Mathlib.Nat.{mod-eq_of_lt, mul-le-mul}
use low_latency_showcase.Words.{word}

-- `expected_checksum`, for any number of events.
unfoldable pub expected_checksum : ℕ → ℕ
expected_checksum events = (events - 1) * events % word / 2

-- The sum of the numbers below `n`.
unfoldable pub sum_below : ℕ → ℕ
sum_below zero = 0
sum_below (suc n) = sum_below n + n

sum_below-square : (n : ℕ) → 2 * sum_below n + n ≡ n * n
unfolding sum_below
sum_below-square zero = refl
sum_below-square (suc n) = grind (arith, sum_below-square n)

pub sum_below-eq-expected_checksum :
    (events : ℕ) → events < 2 ^ 32 → expected_checksum events ≡ sum_below events
unfolding expected_checksum sum_below
sum_below-eq-expected_checksum zero small = refl
sum_below-eq-expected_checksum (suc n) small =
    let square = sum_below-square n in
    let largest : n * suc n ≤ 18446744065119617025 =
      mul-le-mul {n₁ = n} {m₁ = suc n} {n₂ = 4294967295} {m₂ = 4294967295} (omega arith)
        (omega arith) in
    let bound : n * suc n < word = omega arith in
    let before : suc n - 1 ≡ n = omega arith in
    let product : n * suc n ≡ 2 * (sum_below n + n) = grind (arith, square) in
    let plain : n * suc n % word ≡ 2 * (sum_below n + n) = rw (mod-eq_of_lt bound) product in
    rw (before, plain) (omega arith)

-- A queue of events that the producer fills with the numbers from 0 on. `weight` is what an event's
-- checksum is a multiple of its number by. A state stands for the numbers from the consumer's count
-- up to the producer's.
pub record Channel (events : ℕ) (Q : Type 0) : Type 1 where
  pub weight : ℕ
  pub new : Q
  pub produce : ℕ → Q → ℕ × Q
  pub consume : Q → ℕ → ℕ × Q × ℕ
  pub Holds : Q → ℕ → ℕ → Type 0
  pub new-Holds : Holds new 0 0
  pub produces :
      (q : Q) (consumed published : ℕ)
      → Holds q consumed published
      → published < events
      → let (n, q') = produce published q in
        Holds q' consumed (published + n)
        × (published + n ≤ events)
        × ((consumed ≡ published) → 0 < n)
  pub consumes :
      (q : Q) (consumed published checksum : ℕ)
      → Holds q consumed published
      → checksum ≡ weight * sum_below consumed % word
      → let (n, q', checksum') = consume q checksum in
        Holds q' (consumed + n) published
        × (consumed + n ≤ published)
        × (checksum' ≡ weight * sum_below (consumed + n) % word)
        × (consumed < published → 0 < n)
