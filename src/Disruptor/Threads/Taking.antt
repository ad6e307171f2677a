-- ===== src/Disruptor/Threads/Taking.antt =====
-- A consumer's own moves: what it has been given is what the log delivers.
use native.Mathlib.Nat.{add-zero}
use low_latency_showcase.Prelude.{
  ℕ, ◌+◌, ◌-◌, ◌%◌, ◌≤◌, ◌<◌, ◌≡◌, sym, ap, ◌∙◌, inl, inr, length, get_or, set, All-get_or, All-set,
  map-set, length-set, get_or-set_self, arith, Bool-cases, ltb, ◌==◌, if◌then◌else◌,
}
use low_latency_showcase.Words.{word, add64, sub64, IsCapacity}
use low_latency_showcase.Disruptor.State.{Shared, ConsumerHandle}
use low_latency_showcase.Disruptor.Log.{Log, deliver}
use low_latency_showcase.Disruptor.Log.Order.{deliver-add}
use low_latency_showcase.Disruptor.Invariant.{sub64-positions}
use low_latency_showcase.Disruptor.Threads.Producing.{span_slot}
use low_latency_showcase.Disruptor.Threads.Consuming.{
  ConsumerPc, reading, Consumer, begin_read, begin_consume, load_published, read_move,
  store_position,
}
use low_latency_showcase.Disruptor.Threads.Memory.{IsMemory, span_slot-eq-mod}
use low_latency_showcase.Disruptor.Threads.Invariant.{done, Within, IsConsumer}

-- The log after a move of consumer `i`: the store of its position moves its cursor.
unfoldable pub after_take {ℓ} : {A : Type ℓ} → ℕ → ConsumerPc → Log A → Log A
after_take i (ConsumerPc.returned count) l = l
after_take i (ConsumerPc.loading max_count) l = l
after_take i (reading count index) l =
    if ltb index count
    then l
    else record l { cursors = set l.cursors i (get_or l.cursors i 0 + count) }

module _ {ℓ} {A : Type ℓ} (capacity : ℕ) (default : A) where
  -- What consumer `i` needs of the memory: it publishes the log `l`, and holds of `pend`, which may
  -- be longer, the events that the consumer has not released.
  pub record IsReadable (m : Shared A) (l pend : Log A) (i : ℕ) : Type ℓ where
    pub tail_word : m.published ≡ l.tail % word
    pub behind : get_or l.cursors i 0 ≤ l.tail
    pub ordered : l.tail ≤ pend.tail
    pub held : pend.tail ≤ get_or l.cursors i 0 + capacity
    pub slots :
        (s : ℕ)
        → s < pend.tail
        → pend.tail ≤ s + capacity
        → get_or m.events (s % capacity) default ≡ pend.stream s
    pub kept : (s : ℕ) → s < l.tail → pend.stream s ≡ l.stream s

  pub IsMemory-IsReadable :
      {m : Shared A} {l pend : Log A} (i : ℕ)
      → i < length l.cursors
      → pend.cursors ≡ l.cursors
      → ((s : ℕ) → s < l.tail → pend.stream s ≡ l.stream s)
      → IsMemory capacity default m l.tail pend
      → IsReadable m l pend i
  IsMemory-IsReadable {l} {pend} i lt same kept v =
      let (behind, held) = rw same at (All-get_or _ pend.cursors i 0 v.within (rw same lt)) in
      record {
        tail_word = v.tail_word;
        behind = behind;
        ordered = v.ordered;
        held = held;
        slots = v.slots;
        kept = kept;
      }

module _ {ℓ κ} {A : Type ℓ} {S : Type κ} {capacity : ℕ} (ok : IsCapacity capacity)
    (consumer_count : ℕ) (default : A) (handler : ℕ → S → A → ℕ → S) (first : ℕ) (s₀ : S) where
  abbrev Is : ℕ → Consumer S → Log A → Type (ℓ ⊔ κ)
  Is = IsConsumer capacity consumer_count default handler first s₀

  module _ (m : Shared A) (l pend : Log A) (i : ℕ) (lt : i < length l.cursors)
      (v : IsReadable capacity default m l pend i) where
    abbrev position : ℕ
    position = get_or l.cursors i 0

    abbrev near : (position ≤ l.tail) × (pend.tail ≤ position + capacity)
    near = (v.behind, v.held)

    -- How much is available below a boundary, as the handle computes it.
    available :
        (next cached boundary : ℕ)
        → next ≡ position % word
        → cached ≡ boundary % word
        → position ≤ boundary
        → boundary ≤ l.tail
        → sub64 cached next ≡ boundary - position
    available next cached boundary e q le below =
        let ordered = v.ordered in
        rw (e, q)
          (sub64-positions boundary position capacity le (omega (arith, near))
            (omega (arith, ok.small)))

    begin_read-Within :
        (avail max_count boundary : ℕ)
        → avail ≡ boundary - position
        → position ≤ boundary
        → Within (begin_read capacity default (handler i) avail max_count) position boundary
    unfolding begin_read
    begin_read-Within avail max_count boundary e le = ground arith

    module _ (h : ConsumerHandle) (pc : ConsumerPc) (state : S)
        (c : Is i (record { handle = h; pc = pc; state = state }) l) where
      abbrev next_word : h.next_position ≡ position % word
      next_word = c.handle.next_word ∙ ap (λ j. get_or l.cursors j 0 % word) c.own

      abbrev behind : position ≤ c.boundary
      behind = rw c.own at c.handle.behind

      -- The consumer at another point of the code, with nothing handled of a call.
      moved :
          (pc' : ConsumerPc)
          → done pc ≡ done pc'
          → Within pc' position c.boundary
          → Is i (record { handle = h; pc = pc'; state = state }) l
      moved pc' e w = record {
        boundary = c.boundary;
        handle = c.handle;
        own = c.own;
        within = w;
        begun = c.begun;
        handled =
            c.handled ∙ ap (λ k. deliver (handler i) l.stream first (position + k - first) s₀) e;
      }

      pub begin_consume-IsConsumer :
          (max_count : ℕ)
          → done pc ≡ 0
          → Is i
              (begin_consume capacity default
                (handler i)
                max_count
                (record { handle = h; pc = pc; state = state }))
              l
      unfolding begin_consume begin_read
      begin_consume-IsConsumer max_count e =
          let avail =
            available h.next_position h.cached_published_position c.boundary next_word
              c.handle.cached_word behind c.handle.published in
          elim (Bool-cases (max_count == 0)) [
            | inl nothing ↦ rw nothing (moved (ConsumerPc.returned 0) e tt)
            | inr some ↦
                rw some
                  (elim (Bool-cases (sub64 h.cached_published_position h.next_position == 0)) [
                    | inl stale ↦ rw stale (moved (ConsumerPc.loading max_count) e tt)
                    | inr more ↦
                        rw more (moved _ e (begin_read-Within _ max_count c.boundary avail behind))
                  ])
          ]

      -- The consumer with the boundary reloaded.
      loaded :
          (pc' : ConsumerPc)
          → done pc ≡ done pc'
          → Within pc' position l.tail
          → Is i
              (record {
                handle = record h { cached_published_position = m.published };
                pc = pc';
                state = state;
              })
              l
      loaded pc' e w = record {
        boundary = l.tail;
        handle = record {
          index_in = c.handle.index_in;
          next_word = c.handle.next_word;
          cached_word = v.tail_word;
          behind = rw c.own near.0;
          published = omega arith;
        };
        own = c.own;
        within = w;
        begun = c.begun;
        handled =
            c.handled ∙ ap (λ k. deliver (handler i) l.stream first (position + k - first) s₀) e;
      }

      pub load_published-IsConsumer :
          (max_count : ℕ)
          → done pc ≡ 0
          → Is i
              (load_published capacity default
                (handler i)
                max_count
                m
                (record { handle = h; pc = pc; state = state }))
              l
      unfolding load_published begin_read
      load_published-IsConsumer max_count e =
          let avail =
            available h.next_position m.published l.tail next_word v.tail_word near.0
              (omega arith) in
          elim (Bool-cases (sub64 m.published h.next_position == 0)) [
            | inl empty ↦ rw empty (loaded (ConsumerPc.returned 0) e tt)
            | inr more ↦ rw more (loaded _ e (begin_read-Within _ max_count l.tail avail near.0))
          ]

    module _ (h : ConsumerHandle) (count index : ℕ) (state : S)
        (c : Is i (record { handle = h; pc = reading count index; state = state }) l) where
      abbrev next : h.next_position ≡ position % word
      next = c.handle.next_word ∙ ap (λ j. get_or l.cursors j 0 % word) c.own

      -- The slot of the next event holds it.
      read-eq-stream :
          index < count
          → get_or m.events (span_slot capacity h.next_position count index) default
            ≡ l.stream (position + index)
      read-eq-stream more =
          let published = c.handle.published in
          let ordered = v.ordered in
          let at : span_slot capacity h.next_position count index ≡ (position + index) % capacity =
            rw next
              (span_slot-eq-mod ok position count index (omega (arith, near, c.within)) more) in
          ap (λ x. get_or m.events x default) at
          ∙ v.slots (position + index) (omega (arith, c.within)) (omega (arith, near))
          ∙ v.kept (position + index) (omega (arith, c.within))

      pub read_move-IsConsumer :
          index < count
          → Is i
              (read_move capacity default
                (handler i)
                count
                index
                m
                (record { handle = h; pc = reading count index; state = state }))
              l
      unfolding read_move deliver
      read_move-IsConsumer more =
          let start = c.begun in
          let reach : first + (position + index - first) ≡ position + index = omega arith in
          let longer : position + index - first + 1 ≡ position + (index + 1) - first =
            omega arith in
          let sequence : add64 h.next_position index ≡ (position + index) % word =
            rw next (omega arith) in
          record {
            boundary = c.boundary;
            handle = c.handle;
            own = c.own;
            within = (omega arith, c.within.1);
            begun = c.begun;
            handled =
                rw (c.handled, read-eq-stream more, sequence, ← longer)
                  (rw reach at
                    (deliver-add (handler i) l.stream first (position + index - first) 1 s₀));
          }

      -- The log with the consumer's cursor behind the events of the call.
      abbrev advanced : Log A
      advanced = record l { cursors = set l.cursors i (position + count) }

      pub store_position-IsMemory :
          count ≤ index
          → pend.cursors ≡ l.cursors
          → IsMemory capacity default m l.tail pend
          → IsMemory capacity default
              (store_position capacity default
                (handler i)
                count
                m
                (record { handle = h; pc = reading count index; state = state })).0
              l.tail
              (record pend { cursors = set l.cursors i (position + count) })
      unfolding store_position
      store_position-IsMemory end same whole =
          let published = c.handle.published in
          let word_at : add64 h.next_position count ≡ (position + count) % word =
            rw next (omega arith) in
          record {
            size = whole.size;
            tail_word = whole.tail_word;
            cursor_words =
                rw (whole.cursor_words, same, word_at, c.own)
                  (sym (map-set (λ x. x % word) l.cursors i (position + count)));
            started = whole.started;
            ordered = whole.ordered;
            within =
                All-set _ l.cursors i (position + count) (rw same at whole.within)
                  (omega (arith, c.within), omega (arith, v.behind, v.held));
            slots = whole.slots;
          }

      pub store_position-IsConsumer :
          count ≤ index
          → Is i
              (store_position capacity default
                (handler i)
                count
                m
                (record { handle = h; pc = reading count index; state = state })).1
              advanced
      unfolding store_position
      store_position-IsConsumer end =
          let whole : index ≡ count = omega (arith, c.within) in
          let here : get_or (set l.cursors i (position + count)) i 0 ≡ position + count =
            get_or-set_self l.cursors i (position + count) 0 lt in
          let word_at : add64 h.next_position count ≡ (position + count) % word =
            rw next (omega arith) in
          record {
            boundary = c.boundary;
            handle = record {
              index_in = rw length-set c.handle.index_in;
              next_word = rw (c.own, here) word_at;
              cached_word = c.handle.cached_word;
              behind = rw (c.own, here) c.within.1;
              published = c.handle.published;
            };
            own = c.own;
            within = tt;
            begun = rw here (omega (arith, c.begun));
            handled =
                rw (here, add-zero)
                  (c.handled
                    ∙ ap (λ k. deliver (handler i) l.stream first (position + k - first) s₀) whole);
          }
