-- ===== src/Disruptor/Weak/Safety.antt =====
-- What holds between any two moves of the threads, whichever stores their loads read.
use low_latency_showcase.Prelude.{
  ℕ, zero, suc, ◌+◌, ◌-◌, ◌%◌, ◌≤◌, ◌<◌, ◌≡◌, refl, true, inl, length, get_or, replicate,
  length-replicate, get_or-map, arith,
}
use low_latency_showcase.Words.{word, IsCapacity, is_valid_config, is_valid_config-IsCapacity}
use low_latency_showcase.Disruptor.Log.{Log, deliver, empty}
use low_latency_showcase.Disruptor.Threads.Invariant.{done}
use low_latency_showcase.Disruptor.Threads.System.{start}
use low_latency_showcase.Disruptor.Threads.Safety.{start-View, get_or-copies}
use low_latency_showcase.Disruptor.Weak.Orders.{no_accesses}
use low_latency_showcase.Disruptor.Weak.System.{Weak, WeakReach, here, later, weak_start}
use low_latency_showcase.Disruptor.Weak.Clocks.{IsOrders}
use low_latency_showcase.Disruptor.Weak.Invariant.{
  WeakView, current, next_access, known-near, known-le, read-le,
}
use low_latency_showcase.Disruptor.Weak.Inv.{WeakStep-Onward}

module _ {ℓ κ} {A : Type ℓ} {S : Type κ} (capacity consumer_count initial : ℕ) (default : A)
    (handler : ℕ → S → A → ℕ → S) (s₀ : S) (valid : is_valid_config capacity consumer_count ≡ true)
    (small : initial < word) where
  abbrev ok : IsCapacity capacity
  ok = (is_valid_config-IsCapacity capacity consumer_count valid).0

  abbrev first : ℕ
  first = word + initial

  current-start :
      (u : ℕ) → u < suc consumer_count → current (empty default consumer_count initial) u ≡ first
  unfolding empty
  current-start zero lt = refl
  current-start (suc i) lt = get_or-copies consumer_count first i (omega arith)

  progress-start :
      (t : ℕ)
      → next_access
          (start capacity consumer_count default handler initial s₀)
          (empty default consumer_count initial)
          t
        ≡ current (empty default consumer_count initial) t
  unfolding empty
  progress-start zero = omega arith
  progress-start (suc i) = omega arith

  start-IsOrders :
      IsOrders
        (suc consumer_count)
        capacity
        first
        (no_accesses initial)
        (λ u k. first)
        (λ t u. first)
        (current (empty default consumer_count initial))
        (next_access
          (start capacity consumer_count default handler initial s₀)
          (empty default consumer_count initial))
  unfolding no_accesses empty
  start-IsOrders = record {
    history = λ u lu. record {
      words = λ k le. omega arith;
      rising = λ j k below le. omega arith;
      latest = omega (arith, current-start u lu);
      before = λ k le. omega arith;
    };
    acquired =
        λ t u lt lu. record { in_range = omega arith; covers = omega arith; before = omega arith };
    counted = λ t lt. omega (arith, progress-start t, current-start t lt);
    lasts = λ t lt x. inl refl;
  }

  start-WeakView :
      WeakView ok consumer_count default handler first s₀
        (weak_start capacity consumer_count default handler initial s₀)
        (empty default consumer_count initial)
  unfolding no_accesses empty
  start-WeakView =
      let v = start-View capacity consumer_count initial default handler s₀ valid small in
      record {
        at = λ u k. first;
        base = λ t u. first;
        orders = start-IsOrders;
        counted = length-replicate consumer_count first;
        cursor_words = v.memory.cursor_words;
        known = replicate consumer_count first;
        known_counted = length-replicate consumer_count first;
        knows = λ i lt. rw (get_or-copies consumer_count first i lt) (omega arith);
        producer = (
          record {
            size = v.memory.size;
            tail_word = v.memory.tail_word;
            cursor_words = refl;
            started = v.memory.started;
            ordered = v.memory.ordered;
            within = v.memory.within;
            slots = v.memory.slots;
          },
          v.producer,
        );
        consumers = λ i lt. v.consumers i (rw length-replicate lt);
      }

  pub WeakReach-WeakView :
      {s : Weak A S}
      → WeakReach capacity consumer_count default handler initial s₀ s
      → (l : Log A) × WeakView ok consumer_count default handler first s₀ s l
  WeakReach-WeakView here = (empty default consumer_count initial, start-WeakView)
  WeakReach-WeakView (later r step) =
      let (l, v) = WeakReach-WeakView r in
      let (l', _, w) = WeakStep-Onward ok consumer_count default handler first s₀ step v in (l', w)

  -- For a configuration that the static assertions accept and an initial position below 2^64: in
  -- every state that the threads reach when each load may read any store that is not before the one
  -- that its thread read last, also within calls, there is one stream of events and a position in it
  -- for the publication and for each consumer, equal to the shared ones modulo 2^64, such that a
  -- consumer is at or behind the publication, by at most `capacity`, and has given its handler
  -- exactly the events from the first one up to its position, and those of its running call, once
  -- each and in order.
  pub WeakReach-delivered_in_order :
      {s : Weak A S}
      → WeakReach capacity consumer_count default handler initial s₀ s
      → (l : Log A) × (s.system.memory.published ≡ l.tail % word)
        × ((i : ℕ)
            → i < consumer_count
            → let position = get_or l.cursors i 0 in
              let read = done (s.system.consumers i).pc in
              (get_or s.system.memory.consumers i 0 ≡ position % word)
              × (first ≤ position)
              × (position + read ≤ l.tail)
              × (l.tail ≤ position + capacity)
              × ((s.system.consumers i).state
                  ≡ deliver (handler i) l.stream first (position + read - first) s₀))
  WeakReach-delivered_in_order {s} r =
      let (l, v) = WeakReach-WeakView r in
      (
        l,
        v.producer.0.tail_word,
        λ i lt.
            let inside : i < length l.cursors = rw v.counted lt in
            let c = v.consumers i lt in
            let near = known-near ok consumer_count default handler first s₀ v i lt in
            let ordered = v.producer.0.ordered in
            (
              rw v.cursor_words (get_or-map (λ x. x % word) l.cursors i 0 0 inside),
              c.begun,
              read-le ok consumer_count default handler first s₀ v i lt,
              omega (arith, known-le ok consumer_count default handler first s₀ v i lt),
              c.handled,
            ),
      )
