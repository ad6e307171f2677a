-- ===== src/Disruptor/Weak/Producing.antt =====
-- The producer's moves keep the threads in step with the log.
use low_latency_showcase.Prelude.{
  ℕ, suc, ◌<◌, ◌≡◌, sym, ap, ◌∙◌, inl, inr, length-set, arith, Bool-cases, ltb, leb, ◌==◌,
}
use low_latency_showcase.Words.{IsCapacity}
use low_latency_showcase.Disruptor.State.{Shared, ProducerCursor}
use low_latency_showcase.Disruptor.Log.{Log}
use low_latency_showcase.Disruptor.Invariant.{positions}
use low_latency_showcase.Disruptor.Threads.Producing.{
  ProducerPc, scanning, writing, load_blocker, scan_move, producer_move, pc_move,
}
use low_latency_showcase.Disruptor.Threads.Publishing.{after_move, producer_move-InStep}
use low_latency_showcase.Disruptor.Weak.Orders.{load, MayRead, perform}
use low_latency_showcase.Disruptor.Weak.System.{
  Weak, producer_access, found, leaves, produce_reading,
}
use low_latency_showcase.Disruptor.Weak.Invariant.{written, WeakView, WeakOnward}
use low_latency_showcase.Disruptor.Weak.Invariant.{with_producer}
use low_latency_showcase.Disruptor.Weak.Scanning.{
  written-load_blocker, written-scan_move, quiet_stays, load_stays, stale_log, stale,
  finds-eq-stale, load_InStep,
}
use low_latency_showcase.Disruptor.Weak.Publishing.{touch_stays, store_publishes}

module _ {ℓ κ} {A : Type ℓ} {S : Type κ} {capacity : ℕ} (ok : IsCapacity capacity)
    (consumer_count : ℕ) (default : A) (handler : ℕ → S → A → ℕ → S) (first : ℕ) (s₀ : S) where
  abbrev Sees : Weak A S → Log A → Type (ℓ ⊔ κ)
  Sees = WeakView ok consumer_count default handler first s₀

  abbrev Onward : Log A → Weak A S → Type (ℓ ⊔ κ)
  Onward = WeakOnward ok consumer_count default handler first s₀

  module _ {s : Weak A S} {l : Log A} (v : Sees s l) where
    -- A move of the producer.
    pub produce_Onward :
        (pc : ProducerPc A) (c : ProducerCursor) (k : ℕ)
        → s.system.producer ≡ record { cursor = c; pc = pc }
        → MayRead s.orders 0 (producer_access capacity consumer_count pc c) k
        → Onward l (
            produce_reading capacity consumer_count default handler k
              (with_producer s (record { cursor = c; pc = pc })))
    unfolding produce_reading producer_access perform found leaves producer_move pc_move after_move
    produce_Onward (ProducerPc.returned answer) c k e may =
        quiet_stays ok consumer_count default handler first s₀ v _ (ap (λ p. written p.pc) e)
          (rw e at v.producer)
    produce_Onward (ProducerPc.loading count writer) c k e may =
        let i = c.blocking_consumer in
        let lt : i < consumer_count =
          rw v.known_counted at ((rw e at v.producer).1.cursor.blocker_in) in
        rw (finds-eq-stale ok consumer_count default handler first s₀ v i k lt may) (
          load_stays ok consumer_count default handler first s₀ v i k
            (load_blocker capacity consumer_count default count writer
              (stale ok consumer_count default handler first s₀ v i k) c)
            lt may
            (ap (λ p. written p.pc) e
              ∙ sym (
                  written-load_blocker capacity consumer_count default count writer
                    (stale ok consumer_count default handler first s₀ v i k) c))
            (producer_move-InStep ok consumer_count default
              (stale ok consumer_count default handler first s₀ v i k)
              (stale_log ok consumer_count default handler first s₀ v i k)
              (record { cursor = c; pc = ProducerPc.loading count writer })
              (length-set v.known i _ ∙ v.known_counted)
              (rw e at (load_InStep ok consumer_count default handler first s₀ v i k lt may))))
    produce_Onward (scanning count writer index g gi) c k e may =
        let known_memory : Shared A = record s.system.memory { consumers = positions v.known } in
        let moved =
          producer_move-InStep ok consumer_count default known_memory
            (record l { cursors = v.known })
            (record { cursor = c; pc = scanning count writer index g gi }) v.known_counted
            (rw e at v.producer) in
        let quiet =
          ap (λ p. written p.pc) e
          ∙ sym (
              written-scan_move capacity consumer_count default count writer index g gi known_memory
                c) in
        elim (Bool-cases (leb consumer_count index)) [
          | inl end ↦ rw end (
              quiet_stays ok consumer_count default handler first s₀ v _ (rw end at quiet)
                (rw end at moved))
          | inr more ↦ elim (Bool-cases (index == c.blocking_consumer)) [
            | inl skipped ↦
                rw (more, skipped)
                  (quiet_stays ok consumer_count default handler first s₀ v _
                    (rw (more, skipped) at quiet) (rw (more, skipped) at moved))
            | inr other ↦
                let lt : index < consumer_count = ground arith in
                let reads : MayRead s.orders 0 (load (suc index)) k = rw (more, other) at may in
                let next =
                  scan_move capacity consumer_count default count writer index g gi
                    (stale ok consumer_count default handler first s₀ v index k) c in
                let kept : written s.system.producer.pc ≡ written next.pc =
                  ap (λ p. written p.pc) e
                  ∙ sym (
                      written-scan_move capacity consumer_count default count writer index g gi
                        (stale ok consumer_count default handler first s₀ v index k) c) in
                let after_load =
                  producer_move-InStep ok consumer_count default
                    (stale ok consumer_count default handler first s₀ v index k)
                    (stale_log ok consumer_count default handler first s₀ v index k)
                    (record { cursor = c; pc = scanning count writer index g gi })
                    (length-set v.known index _ ∙ v.known_counted)
                    (rw e at (
                      load_InStep ok consumer_count default handler first s₀ v index k lt reads)) in
                rw
                  (
                    more,
                    other,
                    finds-eq-stale ok consumer_count default handler first s₀ v index k lt reads,
                  )
                  (load_stays ok consumer_count default handler first s₀ v index k _ lt reads
                    (rw (more, other) at kept) (rw (more, other) at after_load))
          ]
        ]
    produce_Onward (writing count writer index) c k e may = elim (Bool-cases (ltb index count)) [
      | inl more ↦ rw more (
          touch_stays ok consumer_count default handler first s₀ v count writer index c e
            (ground arith))
      | inr end ↦ rw end (
          store_publishes ok consumer_count default handler first s₀ v count writer index c e
            (ground arith))
    ]
