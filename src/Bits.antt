-- ===== src/Bits.antt =====
-- Masks: `x & (2^k - 1)` is the remainder by 2^k, and `x & (x - 1)` is 0 only at powers of two.
use Prim.Native.Nat.{digits, bit_and-bitwise}
use native.Mathlib.Nat.{pow-suc, zero-add, suc-add, div-div-eq-div-mul, div-add-mod}
use low_latency_showcase.Prelude.{
  ℕ, zero, suc, ◌+◌, ◌-◌, ◌*◌, ◌/◌, ◌%◌, ◌^◌, ◌≤◌, ◌<◌, min, bit_and, ◌≡◌, refl, ap, ◌∙◌, arith,
  ℕ_discrete,
}

abbrev both : ℕ → ℕ → ℕ → ℕ
both n a b = digits (λ b. zero) min n a b

-- The digit recursion has the same value with any two sufficient bounds.
both_bound : (n m a b : ℕ) → a ≤ n → a ≤ m → both n a b ≡ both m a b
both_bound zero zero a b p q = refl
both_bound zero (suc m) zero b p q = refl
both_bound zero (suc m) (suc a) b p q = absurd (omega arith)
both_bound (suc n) zero zero b p q = refl
both_bound (suc n) zero (suc a) b p q = absurd (omega arith)
both_bound (suc n) (suc m) zero b p q = refl
both_bound (suc n) (suc m) (suc a) b p q =
    omega (arith, both_bound n m (suc a / 2) (b / 2) (omega arith) (omega arith))

zero-bit_and : (b : ℕ) → bit_and 0 b ≡ 0
zero-bit_and b = bit_and-bitwise 0 b

-- The lowest binary digit of `a & b`, and the rest.
bit_and-halves : (a b : ℕ) → bit_and a b ≡ bit_and (a / 2) (b / 2) * 2 + min (a % 2) (b % 2)
bit_and-halves zero b = omega (arith, zero-bit_and b, zero-bit_and (b / 2))
bit_and-halves (suc a) b = omega (
  arith,
  bit_and-bitwise (suc a) b,
  bit_and-bitwise (suc a / 2) (b / 2),
  both_bound a (suc a / 2) (suc a / 2) (b / 2) (omega arith) (omega arith),
)

bit_and_zero_below : (n a : ℕ) → a < suc n → bit_and a 0 ≡ 0
bit_and_zero_below n zero h = zero-bit_and 0
bit_and_zero_below zero (suc a) h = absurd (omega arith)
bit_and_zero_below (suc n) (suc a) h =
    omega (arith, bit_and-halves (suc a) 0, bit_and_zero_below n (suc a / 2) (omega arith))

bit_and_self_below : (n a : ℕ) → a < suc n → bit_and a a ≡ a
bit_and_self_below n zero h = zero-bit_and 0
bit_and_self_below zero (suc a) h = absurd (omega arith)
bit_and_self_below (suc n) (suc a) h =
    omega (arith, bit_and-halves (suc a) (suc a), bit_and_self_below n (suc a / 2) (omega arith))

bit_and_self : (a : ℕ) → bit_and a a ≡ a
bit_and_self a = bit_and_self_below a a (omega arith)

pub pow_pos : (k : ℕ) → 0 < 2 ^ k
pow_pos zero = omega arith
pow_pos (suc k) = omega (arith, pow-suc 2 k, pow_pos k)

pub pow-add : (j k : ℕ) → 2 ^ j * 2 ^ k ≡ 2 ^ (j + k)
pow-add zero k = rw zero-add (omega arith)
pow-add (suc j) k =
    rw suc-add
      (omega (arith, ap (λ (t : ℕ). t * 2 ^ k) (pow-suc 2 j), pow-suc 2 (j + k), pow-add j k))

-- The remainder by a product, from the last digit and the remainder of the quotient.
mod-double : (a m : ℕ) → 0 < m → a % (m * 2) ≡ (a / 2) % m * 2 + a % 2
mod-double a m h =
    let e : a / 2 / m ≡ a / (m * 2) = div-div-eq-div-mul a 2 m ∙ ap (λ t. a / t) (omega arith) in
    let e' : m * (a / 2 / m) ≡ m * (a / (m * 2)) = ap (λ t. m * t) e in
    omega (arith, e', div-add-mod a (m * 2), div-add-mod (a / 2) m)

-- Masking by 2^k - 1 is the remainder by 2^k.
pub bit_and-mask : (k a : ℕ) → bit_and a (2 ^ k - 1) ≡ a % 2 ^ k
bit_and-mask zero a = omega (arith, bit_and_zero_below a a (omega arith))
bit_and-mask (suc k) a =
    let p : 0 < 2 ^ k = pow_pos k in
    let halves : (2 ^ suc k - 1) / 2 ≡ 2 ^ k - 1 = omega (arith, pow-suc 2 k) in
    rw (bit_and-halves a (2 ^ suc k - 1), halves, bit_and-mask k (a / 2), pow-suc 2 k)
      (omega (arith, mod-double a (2 ^ k) p))

power_of_two_below : (n c : ℕ) → c ≤ n → 0 < c → bit_and c (c - 1) ≡ 0 → (k : ℕ) × (c ≡ 2 ^ k)
power_of_two_below zero c h p e = absurd (omega arith)
power_of_two_below (suc n) c h p e = elim (ℕ_discrete (c % 2) 1) [
  | yes odd ↦
      let same : (c - 1) / 2 ≡ c / 2 = omega arith in
      let rest : bit_and (c / 2) ((c - 1) / 2) ≡ c / 2 = rw same (bit_and_self (c / 2)) in
      (0, omega (arith, bit_and-halves c (c - 1), rest))
  | no even ↦
      let less : (c - 1) / 2 ≡ c / 2 - 1 = omega arith in
      let rest : bit_and (c / 2) (c / 2 - 1) ≡ 0 =
        rw (← less) (omega (arith, bit_and-halves c (c - 1))) in
      let (k, q) = power_of_two_below n (c / 2) (omega arith) (omega arith) rest in
      (suc k, omega (arith, pow-suc 2 k))
]

-- A positive number shares no digit with its predecessor only if it is a power of two.
pub power_of_two : (c : ℕ) → 0 < c → bit_and c (c - 1) ≡ 0 → (k : ℕ) × (c ≡ 2 ^ k)
power_of_two c = power_of_two_below c c (omega arith)
