-- ===== src/Disruptor/System/Safety.antt =====
-- What holds in every state that calls in any order can reach.
use low_latency_showcase.Prelude.{
  ℕ, ◌+◌, ◌-◌, ◌%◌, ◌≤◌, ◌<◌, ◌≡◌, refl, sym, ap, ◌∙◌, true, length, get_or, All, All-get_or,
  All-replicate, length-map, get_or-map, replicate, arith, ◌⊎◌, inl, inr,
}
use native.Mathlib.Decide.{dec_le}
use low_latency_showcase.Words.{
  word, sub64, IsCapacity, is_valid_config, is_valid_config-IsCapacity,
}
use low_latency_showcase.Disruptor.Log.{Log, deliver, empty}
use low_latency_showcase.Disruptor.Log.Order.{deliver-add}
use low_latency_showcase.Disruptor.Invariant.{init-IsShared, sub64-positions}
use low_latency_showcase.Disruptor.System.{System, Reach, here, later, start}
use low_latency_showcase.Disruptor.System.Standing.{Inv}
use low_latency_showcase.Disruptor.System.Inv.{Step-Next}

module _ {ℓ κ} {A : Type ℓ} {S : Type κ} (capacity consumer_count initial : ℕ) (default : A)
    (handler : ℕ → S → A → ℕ → S) (s₀ : S) (valid : is_valid_config capacity consumer_count ≡ true)
    (small : initial < word) where
  abbrev ok : IsCapacity capacity
  ok = (is_valid_config-IsCapacity capacity consumer_count valid).0

  -- The log position of the first event.
  abbrev first : ℕ
  first = word + initial

  deliver_none :
      (i : ℕ)
      → i < length (empty default consumer_count initial).cursors
      → s₀
        ≡ deliver
            (handler i)
            (λ _. default)
            first
            (get_or (empty default consumer_count initial).cursors i 0 - first)
            s₀
  unfolding empty deliver
  deliver_none i lt =
      let same : get_or (replicate consumer_count first) i 0 ≡ first =
        All-get_or (λ c. c ≡ first) _ i 0 (All-replicate _ consumer_count first refl) lt in
      let none : first - first ≡ 0 = omega arith in rw (same, none)

  pub start-Inv :
      Inv ok default handler first s₀
        (start capacity default handler consumer_count initial s₀)
        (empty default consumer_count initial)
  unfolding empty
  start-Inv =
      let (shared, cursor) =
        init-IsShared ok default consumer_count initial small
          (is_valid_config-IsCapacity capacity consumer_count valid).1 in
      record {
        shared = shared;
        producing = cursor;
        consuming = λ i. tt;
        begun = All-replicate _ consumer_count first (omega arith);
        taken = deliver_none;
      }

  Reach-Inv :
      {s : System A S}
      → Reach capacity default handler consumer_count initial s₀ s
      → (l : Log A) × Inv ok default handler first s₀ s l
  Reach-Inv here = (empty default consumer_count initial, start-Inv)
  Reach-Inv (later r step) =
      let (l, v) = Reach-Inv r in
      let (l', more, v') = Step-Next ok default handler first s₀ step v in (l', v')

  -- The system stands for a stream of events: consumer `i` has handled exactly the events from the
  -- first one up to its position, once each and in order, and is at most `capacity` behind.
  pub record Delivers (s : System A S) (l : Log A) : Type κ where
    pub tail_word : s.disruptor.shared.published ≡ l.tail % word
    pub counted : length s.disruptor.shared.consumers ≡ length l.cursors
    pub position :
        (i : ℕ)
        → i < length l.cursors
        → get_or s.disruptor.shared.consumers i 0 ≡ get_or l.cursors i 0 % word
    pub begun : All (λ c. first ≤ c) l.cursors
    pub within : All (λ c. (c ≤ l.tail) × (l.tail ≤ c + capacity)) l.cursors
    pub handled :
        (i : ℕ)
        → i < length l.cursors
        → s.states i ≡ deliver (handler i) l.stream first (get_or l.cursors i 0 - first) s₀

  -- For every state that calls reach there is one stream such that each consumer has handled
  -- exactly its events from the first one up to the consumer's position, once each and in order,
  -- no consumer is past the publication or more than `capacity` events behind it, and the shared
  -- positions are those of the stream modulo 2^64.
  pub Reach-Delivers :
      {s : System A S}
      → Reach capacity default handler consumer_count initial s₀ s
      → (l : Log A) × Delivers s l
  Reach-Delivers {s} r =
      let (l, v) = Reach-Inv r in
      (
        l,
        record {
          tail_word = v.shared.tail_word;
          counted = ap length v.shared.cursor_words ∙ length-map (λ c. c % word) l.cursors;
          position = λ i lt.
              ap (λ ps. get_or ps i 0) v.shared.cursor_words
              ∙ get_or-map (λ c. c % word) l.cursors i 0 0 lt;
          begun = v.begun;
          within = v.shared.within;
          handled = v.taken;
        },
      )

  -- In every reachable state the distance from a consumer's position to the published one, taken
  -- modulo 2^64, is at most `capacity`: no event is overwritten before every consumer has it.
  pub Reach-no_overrun :
      {s : System A S}
      → Reach capacity default handler consumer_count initial s₀ s
      → (i : ℕ) → i < length s.disruptor.shared.consumers
      → sub64 s.disruptor.shared.published (get_or s.disruptor.shared.consumers i 0) ≤ capacity
  Reach-no_overrun r i lt =
      let (l, d) = Reach-Delivers r in
      let lt' : i < length l.cursors = rw d.counted at lt in
      let near = All-get_or _ l.cursors i 0 d.within lt' in
      rw (d.tail_word, d.position i lt')
        (omega (
          arith,
          ok.small,
          sub64-positions l.tail (get_or l.cursors i 0) capacity near.0 near.1
              (omega (arith, ok.small)),
        ))

  -- The state `t` is `s` after at most `capacity` further events from the stream, handled in order.
  abbrev pub Ahead : (S → A → ℕ → S) → Log A → S → S → Type κ
  Ahead h l s t =
      (c : ℕ) × (k : ℕ) × (k ≤ capacity) × (c + k ≤ l.tail) × (t ≡ deliver h l.stream c k s)

  ahead :
      {s : System A S} {l : Log A}
      → Delivers s l
      → (i j : ℕ) → i < length l.cursors
      → j < length l.cursors
      → handler i ≡ handler j
      → get_or l.cursors i 0 ≤ get_or l.cursors j 0
      → Ahead (handler j) l (s.states i) (s.states j)
  ahead {s} {l} v i j lti ltj same le =
      let c = get_or l.cursors i 0 in
      let d = get_or l.cursors j 0 in
      let near = All-get_or _ l.cursors i 0 v.within lti in
      let top = All-get_or _ l.cursors j 0 v.within ltj in
      let low = All-get_or _ l.cursors i 0 v.begun lti in
      let there : first + (c - first) ≡ c = omega arith in
      let total : c - first + (d - c) ≡ d - first = omega arith in
      let glued = deliver-add {S = S} (handler j) l.stream first (c - first) (d - c) s₀ in
      (
        c,
        d - c,
        omega arith,
        omega arith,
        rw (v.handled i lti, same) (v.handled j ltj ∙ sym (rw there at (rw total at glued))),
      )

  -- Of two consumers with the same handler, in every reachable state, one has the state of the
  -- other after at most `capacity` further events of one stream: they see the same events in one
  -- order.
  pub Reach-multicast :
      {s : System A S}
      → Reach capacity default handler consumer_count initial s₀ s
      → (i j : ℕ) → i < length s.disruptor.shared.consumers
      → j < length s.disruptor.shared.consumers
      → handler i ≡ handler j
      → (l : Log A) × (Ahead (handler j) l (s.states i) (s.states j)
          ⊎ Ahead (handler i) l (s.states j) (s.states i))
  Reach-multicast {s} r i j lti ltj same =
      let (l, d) = Reach-Delivers r in
      let lti' : i < length l.cursors = rw d.counted at lti in
      let ltj' : j < length l.cursors = rw d.counted at ltj in
      (
        l,
        elim (dec_le (get_or l.cursors i 0) (get_or l.cursors j 0)) [
          | yes le ↦ inl (ahead d i j lti' ltj' same le)
          | no lt ↦ inr (ahead d j i ltj' lti' (sym same) (omega arith))
        ],
      )
