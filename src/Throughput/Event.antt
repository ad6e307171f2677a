-- ===== src/Throughput/Event.antt =====
-- The events of benchmark_disruptor, and what their checksums add up to.
use native.Mathlib.Nat.{add-zero, zero-mul, mod-eq_of_lt, mod-add-mod}
use low_latency_showcase.Prelude.{
  ℕ, zero, suc, ◌+◌, ◌*◌, ◌%◌, ◌<◌, ◌≡◌, sym, ap, ◌∙◌, List, [], ◌∷◌, replicate, arith,
}
use low_latency_showcase.Words.{word, add64}
use low_latency_showcase.Disruptor.Log.{deliver}
use low_latency_showcase.Throughput.Channel.{sum_below}

-- `event` and `event_64`: the second has a payload of seven words.
pub record Event : Type 0 where
  pub value : ℕ
  pub payload : List ℕ

unfoldable pub write_event : ℕ → ℕ → Event
write_event payload_words value = record { value = value; payload = replicate payload_words value }

add_payload : List ℕ → ℕ → ℕ
add_payload [] checksum = checksum
add_payload (value ∷ payload) checksum = add_payload payload (add64 checksum value)

unfoldable pub event_checksum : Event → ℕ
unfolding add_payload
event_checksum input = add_payload input.payload input.value

add_payload-replicate :
    (n value checksum : ℕ)
    → value < word
    → checksum < word
    → add_payload (replicate n value) checksum ≡ (checksum + n * value) % word
unfolding add_payload
add_payload-replicate zero value checksum small fits =
    rw (zero-mul, add-zero) (sym (mod-eq_of_lt fits))
add_payload-replicate (suc n) value checksum small fits =
    let first = add64 checksum value in
    let total : checksum + value + n * value ≡ checksum + suc n * value = grind arith in
    add_payload-replicate n value first small (omega arith)
    ∙ mod-add-mod (checksum + value) word (n * value)
    ∙ ap (λ k. k % word) total

event_checksum-write_event :
    (payload_words value : ℕ)
    → value < word
    → event_checksum (write_event payload_words value) ≡ (1 + payload_words) * value % word
unfolding event_checksum write_event
event_checksum-write_event n value small =
    add_payload-replicate n value value small small ∙ ap (λ k. k % word) (grind arith)

module _ (payload_words : ℕ) where
  abbrev pub add_event : ℕ → Event → ℕ → ℕ
  add_event checksum input sequence = add64 checksum (event_checksum input)

  -- A delivery adds the weight of an event times its number.
  pub deliver-sum_below :
      (stream : ℕ → Event) (first n checksum : ℕ)
      → first + n < word
      → ((k : ℕ) → k < first + n → stream (word + k) ≡ write_event payload_words k)
      → checksum ≡ (1 + payload_words) * sum_below first % word
      → deliver add_event stream (word + first) n checksum
        ≡ (1 + payload_words) * sum_below (first + n) % word
  unfolding deliver sum_below
  deliver-sum_below stream first zero checksum small same summed = rw add-zero summed
  deliver-sum_below stream first (suc n) checksum small same summed =
      let weight = 1 + payload_words in
      let here : stream (word + first) ≡ write_event payload_words first =
        same first (omega arith) in
      let worth = event_checksum-write_event payload_words first (omega arith) in
      let product : weight * sum_below first + weight * first ≡ weight * (sum_below first + first) =
        grind arith in
      let after : add64 checksum (event_checksum (stream (word + first)))
          ≡ weight * (sum_below first + first) % word =
        rw (here, worth, summed, ← product) (omega arith) in
      let next : first + 1 ≡ suc first = omega arith in
      let moved : word + first + 1 ≡ word + (first + 1) = omega arith in
      let total : first + 1 + n ≡ first + suc n = omega arith in
      rw (moved, ← total)
        (deliver-sum_below stream (first + 1) n _ (omega arith) (λ k lt. same k (omega arith))
          (rw next after))
