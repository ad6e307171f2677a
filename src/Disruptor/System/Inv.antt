-- ===== src/Disruptor/System/Inv.antt =====
-- Every call keeps the system in step with a log that only grows.
use low_latency_showcase.Prelude.{
  ℕ, ◌%◌, ◌<◌, ◌≡◌, refl, subst, ==_iff, true, Option, none, some, length, get_or, All-get_or,
  get_or-map, update, arith, ◌==◌, Bool-cases, inl, inr,
}
use low_latency_showcase.Words.{word, IsCapacity}
use low_latency_showcase.Disruptor.State.{
  ProducerHandle, ConsumerHandle, make_producer, synchronize_owner_state, make_consumer,
}
use low_latency_showcase.Disruptor.Log.{Log}
use low_latency_showcase.Disruptor.Log.Order.{Extends-refl}
use low_latency_showcase.Disruptor.Invariant.{IsCursor}
use low_latency_showcase.Disruptor.System.{
  System, Step, publish_directly, publish_by_handle, open_producer, close_producer,
  consume_directly, consume_by_handle, open_consumer, close_consumer,
}
use low_latency_showcase.Disruptor.System.Standing.{ProducerInv, HandleInv, Inv, Next}
use low_latency_showcase.Disruptor.System.Publishing.{publish_directly-Next, publish_by_handle-Next}
use low_latency_showcase.Disruptor.System.Consuming.{
  length-consumers, consume_directly-Next, consume_by_handle-Next,
}

module _ {ℓ κ} {A : Type ℓ} {S : Type κ} {capacity : ℕ} (ok : IsCapacity capacity) (default : A)
    (handler : ℕ → S → A → ℕ → S) (first : ℕ) (s₀ : S) where
  module _ {s : System A S} {l : Log A} (v : Inv ok default handler first s₀ s l) where
    rehandled :
        (i : ℕ) (o : Option ConsumerHandle)
        → HandleInv ok default handler first s₀ i l o
        → Next ok default handler first s₀ l (record s { handles = update s.handles i o })
    rehandled i o mine = (
      l,
      Extends-refl l,
      record {
        shared = v.shared;
        producing = v.producing;
        consuming = λ j. elim (Bool-cases (i == j)) [
          | inl here ↦
              let e : i ≡ j = (==_iff i j).0 here in
              rw here (subst (λ k. HandleInv ok default handler first s₀ k l o) e mine)
          | inr other ↦ rw other (v.consuming j)
        ];
        begun = v.begun;
        taken = v.taken;
      },
    )

    open_consumer-Next :
        (i : ℕ)
        → i < length s.disruptor.shared.consumers
        → Next ok default handler first s₀ l
            (record s { handles = update s.handles i (some (make_consumer s.disruptor.shared i)) })
    unfolding make_consumer
    open_consumer-Next i lt =
        let lt' : i < length l.cursors =
          rw (length-consumers ok default handler first s₀ v) at lt in
        let near = All-get_or _ l.cursors i 0 v.shared.within lt' in
        let here : get_or s.disruptor.shared.consumers i 0 ≡ get_or l.cursors i 0 % word =
          rw v.shared.cursor_words (get_or-map (λ c. c % word) l.cursors i 0 0 lt') in
        rehandled i (some (make_consumer s.disruptor.shared i)) (
          refl,
          (
            get_or l.cursors i 0,
            record {
              index_in = lt';
              next_word = here;
              cached_word = here;
              behind = omega arith;
              published = near.0;
            },
          ),
        )

    open_producer-Next :
        s.producer ≡ none
        → Next ok default handler first s₀ l
            (record s { producer = some (make_producer s.disruptor) })
    unfolding make_producer
    open_producer-Next free = (
      l,
      Extends-refl l,
      record {
        shared = v.shared;
        producing = (
          refl,
          subst (λ p. ProducerInv ok default handler first s₀ s.disruptor p l) free v.producing,
        );
        consuming = v.consuming;
        begun = v.begun;
        taken = v.taken;
      },
    )

    close_producer-Next :
        (h : ProducerHandle)
        → s.producer ≡ some h
        → Next ok default handler first s₀ l
            (record s { disruptor = synchronize_owner_state h s.disruptor; producer = none })
    unfolding synchronize_owner_state
    close_producer-Next h live =
        let w : (h.owned ≡ true) × IsCursor capacity default h.cursor l =
          subst (λ p. ProducerInv ok default handler first s₀ s.disruptor p l) live v.producing in
        (
          l,
          Extends-refl l,
          record {
            shared = rw w.0 v.shared;
            producing = rw w.0 w.1;
            consuming = v.consuming;
            begun = v.begun;
            taken = v.taken;
          },
        )

  -- Every step of a system that stands for a log leaves one that stands for a log as well, whose
  -- stream is the old one with events put after it, and which has the same consumers, with each
  -- position no less.
  pub Step-Next :
      {s t : System A S} {l : Log A}
      → Step capacity default handler s t
      → Inv ok default handler first s₀ s l
      → Next ok default handler first s₀ l t
  Step-Next (publish_directly count writer free) v =
      publish_directly-Next ok default handler first s₀ v count writer free
  Step-Next (publish_by_handle h count writer live) v =
      publish_by_handle-Next ok default handler first s₀ v h count writer live
  Step-Next (open_producer free) v = open_producer-Next v free
  Step-Next (close_producer h live) v = close_producer-Next v h live
  Step-Next (consume_directly i max_count lt free) v =
      consume_directly-Next ok default handler first s₀ v i max_count lt free
  Step-Next (consume_by_handle i h max_count live) v =
      consume_by_handle-Next ok default handler first s₀ v i h max_count live
  Step-Next (open_consumer i lt free) v = open_consumer-Next v i lt
  Step-Next (close_consumer i) v = rehandled v i none tt
