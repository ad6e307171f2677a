-- ===== src/Disruptor/Log/Order.antt =====
-- What the log delivers: in order, each event once, and never changed by a later publication.
use native.Mathlib.Nat.{zero-add, suc-add, add-zero}
use low_latency_showcase.Prelude.{
  ℕ, zero, suc, ◌+◌, ◌≤◌, ◌<◌, ◌≡◌, ◌≢◌, refl, length, get_or, set, length-set, get_or-set_self,
  get_or-set_ne, arith, ◌==◌, ==_iff, Bool-cases, inl, inr,
}
use low_latency_showcase.Disruptor.Log.{Log, append, publish, deliver}

-- One log has at least the events of another, and the same consumers, none of them further back.
pub record Extends {ℓ} {A : Type ℓ} (l l' : Log A) : Type ℓ where
  pub longer : l.tail ≤ l'.tail
  pub kept : (s : ℕ) → s < l.tail → l'.stream s ≡ l.stream s
  pub consumers : length l'.cursors ≡ length l.cursors
  pub onward : (i : ℕ) → get_or l.cursors i 0 ≤ get_or l'.cursors i 0

pub Extends-refl {ℓ} : {A : Type ℓ} (l : Log A) → Extends l l
Extends-refl l = record {
  longer = omega arith;
  kept = λ s lt. refl;
  consumers = refl;
  onward = λ i. omega arith;
}

pub publish-Extends {ℓ} :
    {A : Type ℓ} (capacity count : ℕ) (writer : ℕ → A → A) (l : Log A)
    → Extends l (publish capacity count writer l).1
unfolding publish append
publish-Extends capacity count writer l = record {
  longer = ground arith;
  kept = λ s lt. ground arith;
  consumers = ground arith;
  onward = λ i. ground arith;
}

pub cursors-publish {ℓ} :
    {A : Type ℓ} (capacity count : ℕ) (writer : ℕ → A → A) (l : Log A)
    → (publish capacity count writer l).1.cursors ≡ l.cursors
unfolding publish append
cursors-publish capacity count writer l = ground arith

pub drawn-Extends {ℓ} :
    {A : Type ℓ} (i n : ℕ) (l : Log A)
    → i < length l.cursors
    → Extends l (record l { cursors = set l.cursors i (get_or l.cursors i 0 + n) })
drawn-Extends i n l lt =
    let c = get_or l.cursors i 0 in
    record {
      longer = omega arith;
      kept = λ s p. refl;
      consumers = length-set l.cursors i (c + n);
      onward = λ j. elim (Bool-cases (i == j)) [
        | inl here ↦
            let e : i ≡ j = (==_iff i j).0 here in
            rw (← e, get_or-set_self l.cursors i (c + n) 0 lt) (omega arith)
        | inr other ↦
            let e : i ≢ j = λ q. ground arith in
            rw (get_or-set_ne l.cursors i j (c + n) 0 e) (omega arith)
      ];
    }

module _ {ℓ κ} {A : Type ℓ} {S : Type κ} (handler : S → A → ℕ → S) where
  -- Two deliveries, the second from where the first ended, are one.
  pub deliver-add :
      (stream : ℕ → A) (s n k : ℕ) (acc : S)
      → deliver handler stream (s + n) k (deliver handler stream s n acc)
        ≡ deliver handler stream s (n + k) acc
  unfolding deliver
  deliver-add stream s zero k acc = rw (zero-add, add-zero)
  deliver-add stream s (suc n) k acc =
      let e : s + 1 + n ≡ s + suc n = omega arith in
      rw (suc-add, ← e) (deliver-add stream (s + 1) n k _)

  pub deliver-congr :
      (stream stream' : ℕ → A) (s n : ℕ) (acc : S)
      → ((j : ℕ) → j < s + n → stream j ≡ stream' j)
      → deliver handler stream s n acc ≡ deliver handler stream' s n acc
  unfolding deliver
  deliver-congr stream stream' s zero acc same = refl
  deliver-congr stream stream' s (suc n) acc same =
      rw (same s (omega arith))
        (deliver-congr stream stream' (s + 1) n _ (λ j lt. same j (omega arith)))
