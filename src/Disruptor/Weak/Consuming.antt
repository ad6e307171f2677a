-- ===== src/Disruptor/Weak/Consuming.antt =====
-- A consumer's moves keep the threads in step with the log.
use low_latency_showcase.Prelude.{
  ℕ, suc, ◌%◌, ◌<◌, ◌≡◌, refl, sym, ap, ◌∙◌, inl, inr, arith, Bool-cases, ltb,
}
use low_latency_showcase.Words.{word, IsCapacity}
use low_latency_showcase.Disruptor.State.{ConsumerHandle}
use low_latency_showcase.Disruptor.Log.{Log}
use low_latency_showcase.Disruptor.Threads.Consuming.{
  Consumer, ConsumerPc, reading, load_published, consumer_pc_move, consumer_move,
}
use low_latency_showcase.Disruptor.Threads.Invariant.{done, IsConsumer}
use low_latency_showcase.Disruptor.Threads.Taking.{load_published-IsConsumer}
use low_latency_showcase.Disruptor.Threads.Others.{IsConsumer-grow}
use low_latency_showcase.Disruptor.Weak.Orders.{MayRead, perform}
use low_latency_showcase.Disruptor.Weak.System.{Weak, consumer_access, found, leaves, take_reading}
use low_latency_showcase.Disruptor.Weak.Invariant.{WeakView, WeakOnward, stale-IsReadable}
use low_latency_showcase.Disruptor.Weak.Loading.{
  done-load_published, inside, here, pend, quiet_stays, load_stays, published_word, newer,
  published,
}
use low_latency_showcase.Disruptor.Weak.Reading.{touch_stays, store_takes}

module _ {ℓ κ} {A : Type ℓ} {S : Type κ} {capacity : ℕ} (ok : IsCapacity capacity)
    (consumer_count : ℕ) (default : A) (handler : ℕ → S → A → ℕ → S) (first : ℕ) (s₀ : S) where
  abbrev Sees : Weak A S → Log A → Type (ℓ ⊔ κ)
  Sees = WeakView ok consumer_count default handler first s₀

  abbrev Onward : Log A → Weak A S → Type (ℓ ⊔ κ)
  Onward = WeakOnward ok consumer_count default handler first s₀

  abbrev Is : ℕ → Consumer S → Log A → Type (ℓ ⊔ κ)
  Is = IsConsumer capacity consumer_count default handler first s₀

  module _ {s : Weak A S} {l : Log A} (v : Sees s l) (i : ℕ) (lt : i < consumer_count) where
    -- A move of the consumer.
    pub take_Onward :
        (pc : ConsumerPc) (h : ConsumerHandle) (state : S) (k : ℕ)
        → s.system.consumers i ≡ record { handle = h; pc = pc; state = state }
        → MayRead s.orders (suc i) (consumer_access capacity pc h) k
        → Onward l (take_reading capacity consumer_count default handler i k s)
    unfolding take_reading consumer_access perform found leaves consumer_move consumer_pc_move
    take_Onward (ConsumerPc.returned count) h state k e may = rw e (
        quiet_stays ok consumer_count default handler first s₀ v i lt _ (ap (λ c. done c.pc) e)
          (rw e at (v.consumers i lt)))
    take_Onward (ConsumerPc.loading max_count) h state k e may =
        let c : Consumer S = record {
          handle = h;
          pc = ConsumerPc.loading max_count;
          state = state;
        } in
        let m = record s.system.memory { published = v.at 0 k % word } in
        rw (e, published_word ok consumer_count default handler first s₀ v i lt k may)
          (load_stays ok consumer_count default handler first s₀ v i lt k
            (load_published capacity default (handler i) max_count m c) may
            (ap (λ c. done c.pc) e
              ∙ sym (done-load_published capacity default (handler i) max_count m c))
            (load_published-IsConsumer ok consumer_count default handler first s₀ m
              (record l { tail = v.at 0 k })
              (pend ok consumer_count default handler first s₀ v i lt) i
              (inside ok consumer_count default handler first s₀ v i lt)
              (stale-IsReadable ok consumer_count default handler first s₀ v i (v.at 0 k) lt
                (newer ok consumer_count default handler first s₀ v i lt k may)
                (published ok consumer_count default handler first s₀ v i lt k may))
              h _ state
              (IsConsumer-grow capacity consumer_count default handler first s₀ i (v.at 0 k)
                l.stream c (here ok consumer_count default handler first s₀ v i lt)
                (newer ok consumer_count default handler first s₀ v i lt k may) (λ j below. refl)
                (rw e at (v.consumers i lt)))
              max_count refl))
    take_Onward (reading count index) h state k e may = elim (Bool-cases (ltb index count)) [
      | inl more ↦
          rw (e, more)
            (touch_stays ok consumer_count default handler first s₀ v i lt h count index state e
              (ground arith))
      | inr end ↦
          rw (e, end)
            (store_takes ok consumer_count default handler first s₀ v i lt h count index state e
              (ground arith))
    ]
