-- ===== src/Throughput/Rings.antt =====
-- benchmark_mutex_ring and benchmark_spsc_ring: the loops over a queue of bounded length.
use native.Mathlib.Nat.{add-zero}
use low_latency_showcase.Prelude.{
  ℕ, zero, suc, ◌+◌, ◌-◌, ◌*◌, ◌%◌, ◌≤◌, ◌<◌, ◌≡◌, refl, ap, inl, inr, Option, none, some, List, [],
  ◌∷◌, ◌++◌, length, arith, Bool-cases, ltb, if◌then◌else◌,
}
use low_latency_showcase.Words.{word, add64}
use low_latency_showcase.Throughput.Queue.{Queue, push, pop}
use low_latency_showcase.Throughput.Channel.{Channel, sum_below}

-- The numbers from `first` on.
unfoldable pub numbers : ℕ → ℕ → List ℕ
numbers first zero = []
numbers first (suc n) = first ∷ numbers (first + 1) n

length-numbers : (first n : ℕ) → length (numbers first n) ≡ n
unfolding numbers
length-numbers first zero = refl
length-numbers first (suc n) = ap suc (length-numbers (first + 1) n)

numbers-push : (first n : ℕ) → numbers first n ++ (first + n) ∷ [] ≡ numbers first (n + 1)
unfolding numbers
numbers-push first zero = rw add-zero refl
numbers-push first (suc n) =
    let shifted : first + 1 + n ≡ first + suc n = omega arith in
    let longer : suc n + 1 ≡ suc (n + 1) = omega arith in
    rw longer (ap (λ xs. first ∷ xs) (rw shifted at (numbers-push (first + 1) n)))

module _ {Q : Type 0} (queue : Queue Q) (events : ℕ) (room : 0 < queue.capacity) where
  -- One round of the producer's loop: the next value is the producer's count.
  unfoldable pub produce_one : ℕ → Q → ℕ × Q
  produce_one value q = let (done, q') = queue.try_push value q in (if done then 1 else 0, q')

  -- What is done with the value popped, if there is one.
  abbrev add_popped : Option ℕ → ℕ → ℕ × ℕ
  add_popped none checksum = (0, checksum)
  add_popped (some value) checksum = (1, add64 checksum value)

  -- One round of the consumer's loop.
  unfoldable pub consume_one : Q → ℕ → ℕ × Q × ℕ
  consume_one q checksum =
      let (value, q') = queue.try_pop q in
      let (n, checksum') = add_popped value checksum in (n, q', checksum')

  -- The queue holds the numbers from the consumer's count up to the producer's.
  abbrev HoldsNumbers : Q → ℕ → ℕ → Type 0
  HoldsNumbers q consumed published =
      (consumed ≤ published) × queue.Holds q (numbers consumed (published - consumed))

  pub produce_one-HoldsNumbers :
      (q : Q) (consumed published : ℕ)
      → HoldsNumbers q consumed published
      → published < events
      → let (n, q') = produce_one published q in
        HoldsNumbers q' consumed (published + n)
        × (published + n ≤ events)
        × ((consumed ≡ published) → 0 < n)
  unfolding produce_one push
  produce_one-HoldsNumbers q consumed published (le, held) lt =
      let held_count = published - consumed in
      let (answer, after) = queue.pushes published q _ held in
      let count = length-numbers consumed held_count in
      elim (Bool-cases (ltb (length (numbers consumed held_count)) queue.capacity)) [
        | inl fits ↦
            let last : consumed + held_count ≡ published = omega arith in
            let longer : published + 1 - consumed ≡ held_count + 1 = omega arith in
            rw (rw fits at answer, longer, ← numbers-push consumed held_count, last)
              ((omega arith, rw fits at after), omega arith, λ e. omega arith)
        | inr full ↦
            rw (rw full at answer, add-zero)
              ((le, rw full at after), omega arith, λ e. absurd (ground (arith, count)))
      ]

  consume_held :
      (q : Q) (consumed published held_count checksum : ℕ)
      → consumed + held_count ≡ published
      → queue.Holds q (numbers consumed held_count)
      → checksum ≡ 1 * sum_below consumed % word
      → let (n, q', checksum') = consume_one q checksum in
        HoldsNumbers q' (consumed + n) published
        × (consumed + n ≤ published)
        × (checksum' ≡ 1 * sum_below (consumed + n) % word)
        × (consumed < published → 0 < n)
  unfolding consume_one pop numbers sum_below
  consume_held q consumed published zero checksum all held summed =
      let (answer, after) = queue.pops q _ held in
      let none_left : published - consumed ≡ 0 = omega arith in
      rw (answer, add-zero, none_left)
        ((omega arith, after), omega arith, summed, λ lt. absurd (omega arith))
  consume_held q consumed published (suc n) checksum all held summed =
      let (answer, after) = queue.pops q _ held in
      let left : published - (consumed + 1) ≡ n = omega arith in
      let next : consumed + 1 ≡ suc consumed = omega arith in
      let total : add64 checksum consumed ≡ 1 * (sum_below consumed + consumed) % word =
        rw summed (omega arith) in
      rw (answer, left) ((omega arith, after), omega arith, rw next total, λ lt. omega arith)

  pub consume_one-HoldsNumbers :
      (q : Q) (consumed published checksum : ℕ)
      → HoldsNumbers q consumed published
      → checksum ≡ 1 * sum_below consumed % word
      → let (n, q', checksum') = consume_one q checksum in
        HoldsNumbers q' (consumed + n) published
        × (consumed + n ≤ published)
        × (checksum' ≡ 1 * sum_below (consumed + n) % word)
        × (consumed < published → 0 < n)
  consume_one-HoldsNumbers q consumed published checksum (le, held) summed =
      let all : consumed + (published - consumed) ≡ published = omega arith in
      consume_held q consumed published (published - consumed) checksum all held summed

  unfoldable pub queue_channel : Channel events Q
  unfolding numbers
  queue_channel = record {
    weight = 1;
    new = queue.new;
    produce = produce_one;
    consume = consume_one;
    Holds = HoldsNumbers;
    new-Holds = (omega arith, queue.new-Holds);
    produces = produce_one-HoldsNumbers;
    consumes = consume_one-HoldsNumbers;
  }
