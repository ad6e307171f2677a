-- ===== src/Disruptor/Consume/One.antt =====
-- `try_consume`: one event, or none.
use low_latency_showcase.Prelude.{
  ℕ, ◌+◌, ◌-◌, ◌<◌, min, ◌≡◌, ◌∙◌, refl, ap, subst, true, false, ◌⊎◌, inl, inr, length, get_or, set,
  All-get_or, set-get_or_self, arith, Bool-cases, ◌==◌,
}
use low_latency_showcase.Words.{IsCapacity}
use low_latency_showcase.Disruptor.State.{Shared}
use low_latency_showcase.Disruptor.Log
use low_latency_showcase.Disruptor.Log.{Log, deliver}
use low_latency_showcase.Disruptor.Invariant.{IsShared}
use low_latency_showcase.Disruptor.Consume.{try_consume, consume_available}
use low_latency_showcase.Disruptor.Consume.Refine.{advance, consume_available-Takes}

module _ {ℓ κ} {A : Type ℓ} {S : Type κ} {capacity : ℕ} (ok : IsCapacity capacity) (default : A)
    (handler : S → A → S) {m : Shared A} {l : Log A} (v : IsShared capacity default m l)
    (i : ℕ) where
  -- The handler without the sequence.
  abbrev handed : S → A → ℕ → S
  handed s event sequence = handler s event

  -- For a memory that stands for a log and a consumer that it has, `try_consume` succeeds exactly
  -- if the consumer is behind the log's tail. It has then given the handler the event at the
  -- consumer's position and left memory that stands for the log with the consumer one further;
  -- otherwise the handler's state is as it was and the memory stands for the same log.
  pub try_consume-Takes :
      (s : S)
      → i < length l.cursors
      → let c = get_or l.cursors i 0 in
        let (done, m', s') = try_consume capacity default handler i m s in
        ((done ≡ true)
          × (c < l.tail)
          × (s' ≡ handler s (l.stream c))
          × IsShared capacity default m' (advance capacity default i (c + 1) l))
        ⊎ ((done ≡ false) × (c ≡ l.tail) × (s' ≡ s) × IsShared capacity default m' l)
  unfolding try_consume Log.consume Log.deliver
  try_consume-Takes s lt =
      let c = get_or l.cursors i 0 in
      let near = All-get_or _ l.cursors i 0 v.within lt in
      let (count, stands, acc) = consume_available-Takes ok default handed v i 1 s lt in
      elim (Bool-cases (l.tail - c == 0)) [
        | inl drained ↦
            let none_left : min 1 (l.tail - c) ≡ 0 = ground arith in
            let same : c + min 1 (l.tail - c) ≡ c = omega arith in
            inr (
              rw (count, none_left) refl,
              ground arith,
              acc ∙ ap (λ n. deliver handed l.stream c n s) none_left,
              subst
                  (λ cs.
                    IsShared capacity default (consume_available capacity default handed i 1 m s).1
                      (record l { cursors = cs }))
                  (ap (λ p. set l.cursors i p) same ∙ set-get_or_self l.cursors i 0) stands,
            )
        | inr more ↦
            let one : min 1 (l.tail - c) ≡ 1 = ground arith in
            inl (
              rw (count, one) refl,
              ground arith,
              acc ∙ ap (λ n. deliver handed l.stream c n s) one,
              subst
                  (λ n.
                    IsShared capacity default (consume_available capacity default handed i 1 m s).1
                      (advance capacity default i (c + n) l))
                  one stands,
            )
      ]
