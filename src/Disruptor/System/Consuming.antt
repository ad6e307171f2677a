-- ===== src/Disruptor/System/Consuming.antt =====
-- A consumption keeps the system in step with the log.
use low_latency_showcase.Prelude.{
  ℕ, ◌+◌, ◌-◌, ◌%◌, ◌<◌, min, ◌≡◌, ◌≢◌, refl, sym, ◌∙◌, subst, ==_iff, Option, none, some, length,
  get_or, set, All-get_or, All-set, length-map, length-set, get_or-set_self, get_or-set_ne, update,
  arith, ◌==◌, Bool-cases, inl, inr,
}
use low_latency_showcase.Words.{word, IsCapacity}
use low_latency_showcase.Disruptor.State.{Shared, ProducerHandle, ConsumerHandle}
use low_latency_showcase.Disruptor.Log
use low_latency_showcase.Disruptor.Log.{Log, deliver, empty}
use low_latency_showcase.Disruptor.Log.Order.{drawn-Extends, deliver-add}
use low_latency_showcase.Disruptor.Invariant.{IsShared, IsHandle, IsHandle-apart}
use low_latency_showcase.Disruptor.Consume.{consume_available, handle_consume_available}
use low_latency_showcase.Disruptor.Consume.Refine.{consume_available-Takes, advance-IsCursor}
use low_latency_showcase.Disruptor.Consume.Handle.{
  handle_boundary, handle_consume_available-HandleTakes, consumer_index-handle_consume_available,
}
use low_latency_showcase.Disruptor.System.{System, after_consume, after_handle_consume}
use low_latency_showcase.Disruptor.System.Standing.{Taken, ProducerInv, HandleInv, Inv, Next}

module _ {ℓ κ} {A : Type ℓ} {S : Type κ} {capacity : ℕ} (ok : IsCapacity capacity) (default : A)
    (handler : ℕ → S → A → ℕ → S) (first : ℕ) (s₀ : S) where
  module _ {s : System A S} {l : Log A} (v : Inv ok default handler first s₀ s l) where
    -- A consumer's call moves its own cursor, and leaves the others alone.
    module _ (i boundary max_count : ℕ) (lt : i < length l.cursors) where
      abbrev c : ℕ
      c = get_or l.cursors i 0

      abbrev n : ℕ
      n = min max_count (boundary - c)

      abbrev drawn : Log A
      drawn = record l { cursors = set l.cursors i (c + n) }

      abbrev states' : ℕ → S
      states' = update s.states i (deliver (handler i) l.stream c n (s.states i))

      Taken-consume : Taken ok default handler first s₀ drawn states'
      Taken-consume j lt' = elim (Bool-cases (i == j)) [
        | inl here ↦
            let e : i ≡ j = (==_iff i j).0 here in
            let low = All-get_or _ l.cursors i 0 v.begun lt in
            let there : first + (c - first) ≡ c = omega arith in
            let total : c - first + n ≡ c + n - first = omega arith in
            rw (here, ← e, get_or-set_self l.cursors i (c + n) 0 lt, v.taken i lt, ← total)
              (rw there at (deliver-add {S = S} (handler i) l.stream first (c - first) n s₀))
        | inr other ↦
            let e : i ≢ j = λ q. ground arith in
            rw (other, get_or-set_ne l.cursors i j (c + n) 0 e)
              (v.taken j (rw (length-set l.cursors i (c + n)) at lt'))
      ]

      HandleInv-consume :
          (j : ℕ) (o : Option ConsumerHandle)
          → i ≢ j
          → HandleInv ok default handler first s₀ j l o
          → HandleInv ok default handler first s₀ j drawn o
      HandleInv-consume j none other h = tt
      HandleInv-consume j (some k) other (e, (b, w)) =
          (e, (b, IsHandle-apart w i (c + n) (λ q. other (q ∙ e))))

      ProducerInv-consume :
          (m : Shared A) (p : Option ProducerHandle)
          → ProducerInv ok default handler first s₀ s.disruptor p l
          → ProducerInv ok default handler first s₀ (record s.disruptor { shared = m }) p drawn
      ProducerInv-consume m none w = advance-IsCursor capacity default i (c + n) w lt (omega arith)
      ProducerInv-consume m (some h) (o, w) =
          (o, advance-IsCursor capacity default i (c + n) w lt (omega arith))

      consumed :
          (m : Shared A) (o : Option ConsumerHandle) (handles : ℕ → Option ConsumerHandle)
          (states : ℕ → S)
          → IsShared capacity default m drawn
          → HandleInv ok default handler first s₀ i drawn o
          → ((j : ℕ) → handles j ≡ update s.handles i o j)
          → ((j : ℕ) → states j ≡ states' j)
          → Next ok default handler first s₀ l (record s {
            disruptor = record s.disruptor { shared = m };
            handles = handles;
            states = states;
          })
      consumed m o handles states shared mine kept same = (
        drawn,
        drawn-Extends i n l lt,
        record {
          shared = shared;
          producing = ProducerInv-consume m s.producer v.producing;
          consuming = λ j.
              subst (HandleInv ok default handler first s₀ j drawn) (sym (kept j))
                (elim (Bool-cases (i == j)) [
                  | inl here ↦
                      let e : i ≡ j = (==_iff i j).0 here in
                      rw here (subst (λ k. HandleInv ok default handler first s₀ k drawn o) e mine)
                  | inr other ↦
                      rw other
                        (HandleInv-consume j (s.handles j) (λ q. ground arith) (v.consuming j))
                ]);
          begun =
              All-set _ l.cursors i (c + n) v.begun
                (omega (arith, All-get_or _ l.cursors i 0 v.begun lt));
          taken = λ j p. same j ∙ Taken-consume j p;
        },
      )

  module _ {s : System A S} {l : Log A} (v : Inv ok default handler first s₀ s l) where
    pub length-consumers : length s.disruptor.shared.consumers ≡ length l.cursors
    length-consumers = rw v.shared.cursor_words (length-map (λ c. c % word) l.cursors)

    pub consume_directly-Next :
        (i max_count : ℕ)
        → i < length s.disruptor.shared.consumers
        → s.handles i ≡ none
        → Next ok default handler first s₀ l (
            after_consume capacity default handler s i (
              consume_available capacity default
                (handler i)
                i
                max_count
                s.disruptor.shared
                (s.states i)))
    unfolding Log.consume
    consume_directly-Next i max_count lt free =
        let lt' : i < length l.cursors = rw length-consumers at lt in
        let near = All-get_or _ l.cursors i 0 v.shared.within lt' in
        let (count, shared, state) =
          consume_available-Takes ok default (handler i) v.shared i max_count (s.states i) lt' in
        consumed v i l.tail max_count lt' _ none s.handles _ shared tt
          (λ j. elim (Bool-cases (i == j)) [
            | inl here ↦ let e : i ≡ j = (==_iff i j).0 here in rw here (rw (← e) free)
            | inr other ↦ rw other
          ])
          (λ j. elim (Bool-cases (i == j)) [ inl here ↦ rw here state | inr other ↦ rw other ])

    consume_at_handle-Next :
        (h : ConsumerHandle) (b max_count : ℕ)
        → IsHandle capacity default h b l
        → Next ok default handler first s₀ l (
            after_handle_consume capacity default handler s h.consumer_index (
              handle_consume_available capacity default
                (handler h.consumer_index)
                max_count
                s.disruptor.shared
                h
                (s.states h.consumer_index)))
    unfolding Log.consume
    consume_at_handle-Next h b max_count w =
        let i = h.consumer_index in
        let bound = handle_boundary max_count b (get_or l.cursors i 0) l.tail in
        let ((count, shared, state), mine) =
          handle_consume_available-HandleTakes ok default (handler i) v.shared w max_count
            (s.states i) in
        let kept =
          consumer_index-handle_consume_available ok default (handler i) max_count
            s.disruptor.shared h (s.states i) in
        consumed v i bound max_count w.index_in _ (some _) _ _ shared (kept, (bound, mine))
          (λ j. refl)
          (λ j. elim (Bool-cases (i == j)) [ inl here ↦ rw here state | inr other ↦ rw other ])

    pub consume_by_handle-Next :
        (i : ℕ) (h : ConsumerHandle) (max_count : ℕ)
        → s.handles i ≡ some h
        → Next ok default handler first s₀ l (
            after_handle_consume capacity default handler s i (
              handle_consume_available capacity default
                (handler i)
                max_count
                s.disruptor.shared
                h
                (s.states i)))
    consume_by_handle-Next i h max_count live =
        let (e, (b, w)) = subst (HandleInv ok default handler first s₀ i l) live (v.consuming i) in
        subst
          (λ k. Next ok default handler first s₀ l (
            after_handle_consume capacity default handler s k (
              handle_consume_available capacity default (handler k) max_count s.disruptor.shared h
                (s.states k))))
          e (consume_at_handle-Next h b max_count w)
