-- ===== src/Disruptor/System/Standing.antt =====
-- When a system stands for a log.
use low_latency_showcase.Prelude.{
  ℕ, ◌-◌, ◌≤◌, ◌<◌, ◌≡◌, true, Option, none, some, length, get_or, All,
}
use low_latency_showcase.Words.{IsCapacity}
use low_latency_showcase.Disruptor.State.{Disruptor, ProducerHandle, ConsumerHandle}
use low_latency_showcase.Disruptor.Log.{Log, deliver}
use low_latency_showcase.Disruptor.Log.Order.{Extends}
use low_latency_showcase.Disruptor.Invariant.{IsShared, IsCursor, IsHandle}
use low_latency_showcase.Disruptor.System.{System}

module _ {ℓ κ} {A : Type ℓ} {S : Type κ} {capacity : ℕ} (ok : IsCapacity capacity) (default : A)
    (handler : ℕ → S → A → ℕ → S) (first : ℕ) (s₀ : S) where
  -- What consumer `i` has made of the events from the first position up to its cursor.
  abbrev pub Taken : Log A → (ℕ → S) → Type κ
  Taken l states =
      (i : ℕ)
      → i < length l.cursors
      → states i ≡ deliver (handler i) l.stream first (get_or l.cursors i 0 - first) s₀

  abbrev pub ProducerInv : Disruptor A → Option ProducerHandle → Log A → Type 0
  ProducerInv d none l = IsCursor capacity default d.cursor l
  ProducerInv d (some h) l = (h.owned ≡ true) × IsCursor capacity default h.cursor l

  abbrev pub HandleInv : ℕ → Log A → Option ConsumerHandle → Type 0
  HandleInv i l none = Unit
  HandleInv i l (some h) = (h.consumer_index ≡ i) × ((b : ℕ) × IsHandle capacity default h b l)

  pub record Inv (s : System A S) (l : Log A) : Type (ℓ ⊔ κ) where
    pub shared : IsShared capacity default s.disruptor.shared l
    pub producing : ProducerInv s.disruptor s.producer l
    pub consuming : (i : ℕ) → HandleInv i l (s.handles i)
    pub begun : All (λ c. first ≤ c) l.cursors
    pub taken : Taken l s.states

  -- What a call does: the log grows, or stays, with no consumer further back, and the system is in
  -- step with it.
  abbrev pub Next : Log A → System A S → Type (ℓ ⊔ κ)
  Next l t = (l' : Log A) × Extends l l' × Inv t l'
