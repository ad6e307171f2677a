-- ===== src/Disruptor/Weak/Inv.antt =====
-- Every move keeps the threads in step with the log, whichever stores its load reads.
use low_latency_showcase.Prelude.{ℕ, refl, sym, ap, ◌∙◌}
use low_latency_showcase.Words.{IsCapacity}
use low_latency_showcase.Disruptor.Log.{Log}
use low_latency_showcase.Disruptor.Invariant.{positions}
use low_latency_showcase.Disruptor.Threads.Invariant.{done}
use low_latency_showcase.Disruptor.Threads.Checking.{begin_publish-InStep}
use low_latency_showcase.Disruptor.Threads.Taking.{begin_consume-IsConsumer}
use low_latency_showcase.Disruptor.Weak.System.{Weak, WeakStep, publish, produce, consume, take}
use low_latency_showcase.Disruptor.Weak.Invariant.{WeakView, WeakOnward, written}
use low_latency_showcase.Disruptor.Weak.Scanning
use low_latency_showcase.Disruptor.Weak.Producing.{produce_Onward}
use low_latency_showcase.Disruptor.Weak.Scanning.{written-begin_publish}
use low_latency_showcase.Disruptor.Weak.Loading
use low_latency_showcase.Disruptor.Weak.Consuming.{take_Onward}
use low_latency_showcase.Disruptor.Weak.Loading.{done-begin_consume}

module _ {ℓ κ} {A : Type ℓ} {S : Type κ} {capacity : ℕ} (ok : IsCapacity capacity)
    (consumer_count : ℕ) (default : A) (handler : ℕ → S → A → ℕ → S) (first : ℕ) (s₀ : S) where
  -- A step of threads that stand for a log, whichever store its load reads, leaves them standing for
  -- a log that is the same, or one batch longer where there is room for the batch, or has one
  -- consumer's cursor moved over events that the log holds.
  pub WeakStep-Onward :
      {s t : Weak A S} {l : Log A}
      → WeakStep capacity consumer_count default handler s t
      → WeakView ok consumer_count default handler first s₀ s l
      → WeakOnward ok consumer_count default handler first s₀ l t
  WeakStep-Onward {s} {l = l} (publish count writer e) v =
      Scanning.quiet_stays ok consumer_count default handler first s₀ v _
        (ap (λ pc. written pc) e
          ∙ sym (
              written-begin_publish capacity consumer_count default count writer s.system.producer))
        (begin_publish-InStep ok consumer_count default
          (record s.system.memory { consumers = positions v.known })
          (record l { cursors = v.known }) count writer s.system.producer.cursor
          s.system.producer.pc (rw e at v.producer.0) v.producer.1.cursor)
  WeakStep-Onward {s} (produce k may) v =
      produce_Onward ok consumer_count default handler first s₀ v s.system.producer.pc
        s.system.producer.cursor k refl may
  WeakStep-Onward {s} (consume i max_count lt e) v =
      let c = s.system.consumers i in
      Loading.quiet_stays ok consumer_count default handler first s₀ v i lt _
        (ap (λ pc. done pc) e ∙ sym (done-begin_consume capacity default (handler i) max_count c))
        (begin_consume-IsConsumer ok consumer_count default handler first s₀ _
          (Loading.here ok consumer_count default handler first s₀ v i lt)
          (Loading.pend ok consumer_count default handler first s₀ v i lt) i
          (Loading.inside ok consumer_count default handler first s₀ v i lt)
          (Loading.readable ok consumer_count default handler first s₀ v i lt) c.handle c.pc c.state
          (v.consumers i lt) max_count (rw e refl))
  WeakStep-Onward {s} (take i k lt may) v =
      let c = s.system.consumers i in
      take_Onward ok consumer_count default handler first s₀ v i lt c.pc c.handle c.state k refl may
