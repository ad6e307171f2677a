-- ===== src/Disruptor/Threads/Memory.antt =====
-- What the threads share, at every moment: the published log, and behind its tail what the producer
-- has written so far of the next batch.
use native.Mathlib.Nat.{mod-lt, add-mod_right, add-zero}
use low_latency_showcase.Prelude.{
  ℕ, suc, ◌+◌, ◌-◌, ◌%◌, ◌≤◌, ◌<◌, ◌≡◌, sym, ap, ◌∙◌, inl, inr, length, get_or, set, All, All-both,
  length-set, get_or-set_self, get_or-set_ne, arith, Bool-cases, ltb, dec_lt,
}
use low_latency_showcase.Words.{word, add64, slot, IsCapacity, slot-eq-mod, mod-ne}
use low_latency_showcase.Disruptor.State.{Shared}
use low_latency_showcase.Disruptor.Log.{Log, append}
use low_latency_showcase.Disruptor.Invariant.{positions, IsShared}
use low_latency_showcase.Disruptor.Publish.{contiguous_count}
use low_latency_showcase.Disruptor.Publish.Loop.{slot-first_span, slot-second_span}
use low_latency_showcase.Disruptor.Threads.Producing.{span_slot}

-- The slot that the loops visit at an index is that of its position.
pub span_slot-eq-mod :
    {capacity : ℕ} (ok : IsCapacity capacity) (p count index : ℕ)
    → count ≤ capacity
    → index < count
    → span_slot capacity (p % word) count index ≡ (p + index) % capacity
unfolding span_slot contiguous_count
span_slot-eq-mod {capacity} ok p count index fits lt =
    let first = p % word in
    let e : (p % word + index) % word ≡ (p + index) % word = omega arith in
    let masked : slot capacity (add64 first index) ≡ (p + index) % capacity =
      ap (slot capacity) e ∙ slot-eq-mod ok (p + index) in
    elim (Bool-cases (ltb index (contiguous_count capacity (slot capacity first) count))) [
      | inl near ↦ rw near (sym (slot-first_span ok first count index (ground arith)) ∙ masked)
      | inr far ↦
          rw far (sym (slot-second_span ok first count index fits (ground arith) lt) ∙ masked)
    ]

module _ {ℓ} {A : Type ℓ} (capacity : ℕ) (default : A) where
  -- The memory publishes the positions below `tail`, and holds `l`, which may be longer.
  pub record IsMemory (m : Shared A) (tail : ℕ) (l : Log A) : Type ℓ where
    pub size : length m.events ≡ capacity
    pub tail_word : m.published ≡ tail % word
    pub cursor_words : m.consumers ≡ positions l.cursors
    pub started : capacity ≤ tail
    pub ordered : tail ≤ l.tail
    pub within : All (λ c. (c ≤ tail) × (l.tail ≤ c + capacity)) l.cursors
    pub slots :
        (s : ℕ)
        → s < l.tail
        → l.tail ≤ s + capacity
        → get_or m.events (s % capacity) default ≡ l.stream s

module _ {ℓ} {A : Type ℓ} {capacity : ℕ} (ok : IsCapacity capacity) (default : A) where
  pub IsShared-IsMemory :
      {m : Shared A} {l : Log A}
      → IsShared capacity default m l
      → IsMemory capacity default m l.tail l
  IsShared-IsMemory v = record {
    size = v.size;
    tail_word = v.tail_word;
    cursor_words = v.cursor_words;
    started = v.started;
    ordered = omega arith;
    within = v.within;
    slots = v.slots;
  }

  -- Nothing is written of an empty batch.
  pub append-IsMemory_start :
      {m : Shared A} (l : Log A) (writer : ℕ → A → A)
      → IsMemory capacity default m l.tail l
      → IsMemory capacity default m l.tail (append capacity 0 writer l)
  unfolding append
  append-IsMemory_start l writer v = record {
    size = v.size;
    tail_word = v.tail_word;
    cursor_words = v.cursor_words;
    started = v.started;
    ordered = omega arith;
    within = rw add-zero v.within;
    slots = λ s lt near. ground (arith, v.slots s (omega arith) (omega arith));
  }

  module _ (m : Shared A) (l : Log A) (writer : ℕ → A → A) (index : ℕ)
      (v : IsMemory capacity default m l.tail (append capacity index writer l))
      (room : All (λ c. l.tail + suc index ≤ c + capacity) l.cursors)
      (near : index < capacity) where
    abbrev top : ℕ
    top = l.tail + index

    abbrev event : A
    event = writer index (get_or m.events (top % capacity) default)

    -- The recycled event is the one `capacity` positions older.
    recycled : get_or m.events (top % capacity) default ≡ l.stream (top - capacity)
    unfolding append
    recycled =
        let old : top - capacity + capacity ≡ top = omega (arith, v.started) in
        let same : (top - capacity) % capacity ≡ top % capacity =
          sym (add-mod_right (top - capacity) capacity) ∙ ap (λ k. k % capacity) old in
        ap (λ x. get_or m.events x default) (sym same)
        ∙ v.slots (top - capacity) (omega (arith, v.started, ok.positive))
            (omega (arith, v.started))
        ∙ ground (arith, v.started)

    -- The write of one more event of the batch.
    pub write-IsMemory :
        IsMemory capacity default
          (record m { events = set m.events (top % capacity) event })
          l.tail
          (append capacity (index + 1) writer l)
    unfolding append
    write-IsMemory = record {
      size = length-set m.events (top % capacity) event ∙ v.size;
      tail_word = v.tail_word;
      cursor_words = v.cursor_words;
      started = v.started;
      ordered = omega arith;
      within = All-both _ _ _ l.cursors (λ c p q. (p.0, omega arith)) v.within room;
      slots = λ s lt below. elim (dec_lt s top) [
        | yes old ↦
            get_or-set_ne m.events (top % capacity) (s % capacity) event default
              (λ e. mod-ne capacity s top old (omega arith) (sym e))
            ∙ v.slots s old (omega arith)
            ∙ ground arith
        | no new ↦
            let here : s ≡ top = omega arith in
            let inside : top % capacity < length m.events = rw v.size (mod-lt top ok.positive) in
            rw here (
              get_or-set_self m.events (top % capacity) event default inside
              ∙ ap (writer index) recycled
              ∙ ground arith)
      ];
    }
