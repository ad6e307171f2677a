-- ===== src/Throughput/Queue.antt =====
-- What the benchmark's two rings promise: a queue of bounded length.
use low_latency_showcase.Prelude.{
  ℕ, ◌≡◌, Bool, true, false, Option, none, some, List, [], ◌∷◌, ◌++◌, length, ltb, if◌then◌else◌,
}

unfoldable pub push : ℕ → ℕ → List ℕ → Bool × List ℕ
push capacity value xs = if ltb (length xs) capacity then (true, xs ++ value ∷ []) else (false, xs)

unfoldable pub pop : List ℕ → Option ℕ × List ℕ
pop [] = (none, [])
pop (x ∷ xs) = (some x, xs)

-- A representation of a queue, with the calls on it. A state stands for the list of the values that
-- it holds, oldest first.
pub record Queue (Q : Type 0) : Type 1 where
  pub capacity : ℕ
  pub try_push : ℕ → Q → Bool × Q
  pub try_pop : Q → Option ℕ × Q
  pub new : Q
  pub Holds : Q → List ℕ → Type 0
  pub new-Holds : Holds new []
  pub pushes :
      (value : ℕ) (q : Q) (xs : List ℕ)
      → Holds q xs
      → ((try_push value q).0 ≡ (push capacity value xs).0)
        × Holds (try_push value q).1 (push capacity value xs).1
  pub pops :
      (q : Q) (xs : List ℕ)
      → Holds q xs
      → ((try_pop q).0 ≡ (pop xs).0) × Holds (try_pop q).1 (pop xs).1
