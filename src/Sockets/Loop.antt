-- ===== src/Sockets/Loop.antt =====
-- Retry loops: a step either goes round again or is done. The loops take fuel; with a measure that
-- falls on every round they need no more than it says.
use low_latency_showcase.Prelude.{ℕ, zero, suc, ◌≤◌, ◌<◌, ◌≡◌, refl, Option, none, some, arith}

pub data Next (R : Type 0) : Type 0 where
  again : R → Next R
  done : R → Next R

module _ {R K : Type 0} where
  abbrev pub proceed : (R → K → Option (R × K)) → Next R × K → Option (R × K)
  proceed rest (again r, k) = rest r k
  proceed rest (done r, k) = some (r, k)

  unfoldable pub run_loop : (R → K → Next R × K) → ℕ → R → K → Option (R × K)
  run_loop step zero r k = none
  run_loop step (suc fuel) r k = proceed (run_loop step fuel) (step r k)

  -- What a step leaves: the invariant, or the postcondition.
  abbrev pub Leaves : (R → K → Type 0) → (R → K → Type 0) → Next R × K → Type 0
  Leaves P Q (again r, k) = P r k
  Leaves P Q (done r, k) = Q r k

  -- A loop that returns, with a result that satisfies the postcondition.
  abbrev pub Returns : (R → K → Type 0) → Option (R × K) → Type 0
  Returns Q x = (out : R × K) × (x ≡ some out) × Q out.0 out.1

  -- What a round keeps: the invariant, and a measure below a bound.
  abbrev pub Smaller : (R → K → Type 0) → (R → K → ℕ) → ℕ → R → K → Type 0
  Smaller P measure m r k = P r k × (measure r k < m)

  proceed-Returns :
      (P Q : R → K → Type 0) (measure : R → K → ℕ) (m fuel : ℕ) (rest : R → K → Option (R × K))
      → ((r : R) (k : K) → P r k → measure r k < fuel → Returns Q (rest r k))
      → m ≤ fuel
      → (x : Next R × K) → Leaves (Smaller P measure m) Q x
      → Returns Q (proceed rest x)
  proceed-Returns P Q measure m fuel rest onward le (again r, k) p = onward r k p.0 (omega arith)
  proceed-Returns P Q measure m fuel rest onward le (done r, k) q = ((r, k), refl, q)

  pub run_loop-Returns :
      (P Q : R → K → Type 0) (measure : R → K → ℕ) (step : R → K → Next R × K)
      → ((r : R) (k : K) → P r k → Leaves (Smaller P measure (measure r k)) Q (step r k))
      → (fuel : ℕ) (r : R) (k : K) → P r k
      → measure r k < fuel
      → Returns Q (run_loop step fuel r k)
  unfolding run_loop
  run_loop-Returns P Q measure step keep zero r k p lt = absurd (omega arith)
  run_loop-Returns P Q measure step keep (suc fuel) r k p lt =
      proceed-Returns P Q measure (measure r k) fuel (run_loop step fuel)
        (run_loop-Returns P Q measure step keep fuel) (omega arith) (step r k) (keep r k p)
