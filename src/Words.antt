-- ===== src/Words.antt =====
-- `std::uint64_t` and `std::size_t` as numbers below 2^64, and the ring's capacity checks.
use Prim.Native.Nat.{◌∣◌}
use native.Mathlib.Nat.{mod-mod_of_dvd, mod-lt, mod-add-mod, mod-eq_of_lt, mod-eq-sub-mod}
use low_latency_showcase.Prelude.{
  ℕ, ◌+◌, ◌-◌, ◌*◌, ◌/◌, ◌%◌, ◌^◌, ◌≤◌, ◌<◌, bit_and, ◌≡◌, ◌≢◌, sym, ap, ◌∙◌, Bool, true, ◌&&◌,
  arith, ltb, leb, ◌==◌, dec_lt,
}
use low_latency_showcase.Bits.{bit_and-mask, power_of_two, pow_pos, pow-add}

abbrev pub word : ℕ
word = 2 ^ 64

abbrev pub max_word : ℕ
max_word = 2 ^ 64 - 1

-- Unsigned addition and subtraction wrap at 2^64.
abbrev pub add64 : ℕ → ℕ → ℕ
add64 a b = (a + b) % word

abbrev pub sub64 : ℕ → ℕ → ℕ
sub64 a b = (a + word - b) % word

-- The class's `static_assert`s: Capacity is a positive power of two within half the sequence
-- range, and there is a consumer.
abbrev pub is_valid_config : ℕ → ℕ → Bool
is_valid_config capacity consumer_count =
    ltb 0 capacity
    && (bit_and capacity (sub64 capacity 1) == 0
        && (ltb 0 consumer_count && leb capacity (max_word / 2)))

-- The slot of a sequence: `static_cast<std::size_t>(sequence) & (Capacity - 1)`.
unfoldable pub slot : ℕ → ℕ → ℕ
slot capacity sequence = bit_and sequence (sub64 capacity 1)

-- What the proofs use of a capacity.
pub record IsCapacity (capacity : ℕ) : Type 0 where
  pub positive : 0 < capacity
  pub small : capacity < 2 ^ 63
  pub masks : (s : ℕ) → slot capacity s ≡ s % capacity
  pub wraps : (s : ℕ) → s % word % capacity ≡ s % capacity

pow-exponent-lt : (k : ℕ) → 2 ^ k < 2 ^ 63 → k < 63
pow-exponent-lt k h = elim (dec_lt k 63) [
  | yes p ↦ p
  | no p ↦
      let d : 2 ^ 63 * 2 ^ (k - 63) ≡ 2 ^ k = pow-add 63 (k - 63) ∙ ap (λ t. 2 ^ t) (omega arith) in
      absurd (omega (arith, d, pow_pos (k - 63)))
]

pow-dvd-word : (k : ℕ) → k < 63 → 2 ^ k ∣ word
pow-dvd-word k h =
    let e : k + (64 - k) ≡ 64 = omega arith in
    ∣ (2 ^ (64 - k), sym (pow-add k (64 - k) ∙ ap (λ t. 2 ^ t) e)) ∣₁

pow-IsCapacity : (c k : ℕ) → c ≡ 2 ^ k → c < 2 ^ 63 → IsCapacity c
unfolding slot
pow-IsCapacity c k e small =
    let short : k < 63 = pow-exponent-lt k (rw (← e) small) in
    let less : sub64 c 1 ≡ 2 ^ k - 1 = omega (arith, pow_pos k) in
    record {
      positive = omega (arith, pow_pos k);
      small = small;
      masks = λ s. rw (less, e) (bit_and-mask k s);
      wraps = λ s. rw e (mod-mod_of_dvd (2 ^ k) s (pow-dvd-word k short));
    }

-- Every configuration that the static assertions accept has at least one consumer, and a capacity
-- below 2^63 for which the mask of a position is its remainder and survives wrap-around at 2^64.
pub is_valid_config-IsCapacity :
    (capacity consumer_count : ℕ)
    → is_valid_config capacity consumer_count ≡ true
    → IsCapacity capacity × (0 < consumer_count)
is_valid_config-IsCapacity c n h =
    let facts : (0 < c) × (c ≤ max_word / 2) × (0 < n) × (bit_and c (sub64 c 1) ≡ 0) =
      ground arith in
    let less : sub64 c 1 ≡ c - 1 = omega arith in
    let (k, e) = power_of_two c facts.0 (rw less at facts.3) in
    (pow-IsCapacity c k e (omega arith), facts.2)

module _ {capacity : ℕ} (ok : IsCapacity capacity) where
  -- The slot of a position, also behind a wrap of the sequence.
  pub slot-eq-mod : (s : ℕ) → slot capacity (s % word) ≡ s % capacity
  slot-eq-mod s = ok.masks (s % word) ∙ ok.wraps s

  pub slot-lt : (s : ℕ) → slot capacity s < capacity
  slot-lt s = rw (ok.masks s) (mod-lt s ok.positive)

  pub slot-add64 :
      (first i : ℕ) → slot capacity (add64 first i) ≡ (slot capacity first + i) % capacity
  slot-add64 first i =
      slot-eq-mod (first + i) ∙ sym (rw (ok.masks first) (mod-add-mod first capacity i))

-- Two positions of one window of `capacity` have different slots.
pub mod-ne : (capacity s t : ℕ) → s < t → t < s + capacity → s % capacity ≢ t % capacity
mod-ne capacity s t lt near e =
    let d : t % capacity ≡ (s % capacity + (t - s)) % capacity =
      sym (mod-add-mod s capacity (t - s) ∙ ap (λ k. k % capacity) (omega arith)) in
    elim (dec_lt (s % capacity + (t - s)) capacity) [
      | yes p ↦ omega (arith, mod-eq_of_lt p)
      | no p ↦ omega (
        arith,
        mod-lt s {m = capacity} (omega arith),
        mod-eq-sub-mod {n = s % capacity + (t - s)} {m = capacity} (omega arith),
        mod-eq_of_lt {n = s % capacity + (t - s) - capacity} {m = capacity}
            (omega (arith, mod-lt s {m = capacity} (omega arith))),
      )
    ]

-- Two positions of one slot are a revolution of the ring apart.
pub mod-eq_apart : (capacity s t : ℕ) → s % capacity ≡ t % capacity → s < t → s + capacity ≤ t
mod-eq_apart capacity s t e lt = elim (dec_lt t (s + capacity)) [
  | yes near ↦ absurd (mod-ne capacity s t lt near e)
  | no far ↦ omega arith
]
