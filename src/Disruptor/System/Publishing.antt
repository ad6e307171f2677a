-- ===== src/Disruptor/System/Publishing.antt =====
-- A publication keeps the system in step with the log.
use low_latency_showcase.Prelude.{
  ℕ, ◌-◌, ◌≤◌, ◌<◌, ◌≡◌, refl, sym, ◌∙◌, subst, true, Option, none, some, length, get_or, All,
  All-get_or, arith,
}
use low_latency_showcase.Words.{IsCapacity}
use low_latency_showcase.Disruptor.State.{Disruptor, ProducerHandle, ConsumerHandle}
use low_latency_showcase.Disruptor.Log
use low_latency_showcase.Disruptor.Log.{Log, deliver, empty}
use low_latency_showcase.Disruptor.Log.Order.{
  Extends, publish-Extends, cursors-publish, deliver-congr,
}
use low_latency_showcase.Disruptor.Invariant.{IsShared, IsCursor, IsHandle-grown}
use low_latency_showcase.Disruptor.Publish.{
  write_events, write_two_spans, try_publish_batch, handle_try_publish_batch,
}
use low_latency_showcase.Disruptor.Publish.Loop.{write_two_spans-eq-write_events}
use low_latency_showcase.Disruptor.Publish.Refine.{publish_with-Agrees}
use low_latency_showcase.Disruptor.System.{System, after_publish, after_handle_publish}
use low_latency_showcase.Disruptor.System.Standing.{Taken, ProducerInv, HandleInv, Inv, Next}

module _ {ℓ κ} {A : Type ℓ} {S : Type κ} {capacity : ℕ} (ok : IsCapacity capacity) (default : A)
    (handler : ℕ → S → A → ℕ → S) (first : ℕ) (s₀ : S) where
  -- Publication leaves the consumers alone.
  module _ (count : ℕ) (writer : ℕ → A → A) {s : System A S} {l : Log A}
      (v : Inv ok default handler first s₀ s l) where
    abbrev grown : Log A
    grown = (Log.publish capacity count writer l).1

    same_cursors : grown.cursors ≡ l.cursors
    same_cursors = cursors-publish capacity count writer l

    more : Extends l grown
    more = publish-Extends capacity count writer l

    HandleInv-publish :
        (i : ℕ) (o : Option ConsumerHandle)
        → HandleInv ok default handler first s₀ i l o
        → HandleInv ok default handler first s₀ i grown o
    HandleInv-publish i none h = tt
    HandleInv-publish i (some c) (e, (b, w)) = (e, (b, IsHandle-grown w same_cursors more.longer))

    Taken-publish : Taken ok default handler first s₀ grown s.states
    Taken-publish i lt =
        let lt' : i < length l.cursors = rw same_cursors at lt in
        let c = get_or l.cursors i 0 in
        let low = All-get_or _ l.cursors i 0 v.begun lt' in
        let high = All-get_or _ l.cursors i 0 v.shared.within lt' in
        rw same_cursors (
          v.taken i lt'
          ∙ deliver-congr (handler i) l.stream grown.stream first (c - first) s₀
              (λ j p. sym (more.kept j (omega arith))))

    begun-publish : All (λ c. first ≤ c) grown.cursors
    begun-publish = rw same_cursors v.begun

    -- Both publication paths, once their memory and cursor are known to agree with the log.
    published :
        (d : Disruptor A) (p : Option ProducerHandle)
        → IsShared capacity default d.shared grown
        → ProducerInv ok default handler first s₀ d p grown
        → Next ok default handler first s₀ l (record s { disruptor = d; producer = p })
    published d p shared producing = (
      grown,
      more,
      record {
        shared = shared;
        producing = producing;
        consuming = λ i. HandleInv-publish i (s.handles i) (v.consuming i);
        begun = begun-publish;
        taken = Taken-publish;
      },
    )

  module _ {s : System A S} {l : Log A} (v : Inv ok default handler first s₀ s l) where
    pub publish_directly-Next :
        (count : ℕ) (writer : ℕ → A → A)
        → s.producer ≡ none
        → Next ok default handler first s₀ l (
            after_publish capacity default handler s
              (try_publish_batch capacity default count writer s.disruptor))
    unfolding try_publish_batch
    publish_directly-Next count writer e =
        let w : IsCursor capacity default s.disruptor.cursor l =
          subst (λ p. ProducerInv ok default handler first s₀ s.disruptor p l) e v.producing in
        let (same, shared, cursor) =
          publish_with-Agrees ok default (write_events capacity default writer) writer
            (λ first count events fits. refl) v.shared count w in
        published count writer v _ s.producer shared (rw e cursor)

    pub publish_by_handle-Next :
        (h : ProducerHandle) (count : ℕ) (writer : ℕ → A → A)
        → s.producer ≡ some h
        → Next ok default handler first s₀ l (
            after_handle_publish capacity default handler s
              (handle_try_publish_batch capacity default count writer s.disruptor.shared h))
    unfolding handle_try_publish_batch
    publish_by_handle-Next h count writer e =
        let w : (h.owned ≡ true) × IsCursor capacity default h.cursor l =
          subst (λ p. ProducerInv ok default handler first s₀ s.disruptor p l) e v.producing in
        let (same, shared, cursor) =
          publish_with-Agrees ok default (write_two_spans capacity default writer) writer
            (write_two_spans-eq-write_events ok default writer) v.shared count w.1 in
        published count writer v _ (some _) shared (w.0, cursor)
