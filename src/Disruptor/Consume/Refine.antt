-- ===== src/Disruptor/Consume/Refine.antt =====
-- The disruptor's own `consume_available` takes from the ring what the log delivers.
use low_latency_showcase.Prelude.{
  ℕ, ◌+◌, ◌-◌, ◌%◌, ◌≤◌, ◌<◌, min, ◌≡◌, refl, sym, false, inl, inr, length, get_or, set, All-get_or,
  All-set, length-map, length-set, get_or-map, map-set, set-get_or_self, arith, Bool-cases, ltb,
  leb, ◌==◌, if◌then◌else◌,
}
use low_latency_showcase.Words.{word, add64, sub64, IsCapacity}
use low_latency_showcase.Disruptor.State.{Shared, ProducerCursor}
use low_latency_showcase.Disruptor.Log
use low_latency_showcase.Disruptor.Log.{Log, deliver}
use low_latency_showcase.Disruptor.Invariant.{IsShared, IsCursor, sub64-positions}
use low_latency_showcase.Disruptor.Consume.{read_events, consume_available}
use low_latency_showcase.Disruptor.Consume.Loop.{read_events-deliver}

module _ {ℓ} {A : Type ℓ} (capacity : ℕ) (default : A) where
  -- A consumer's cursor, moved up within the log.
  abbrev pub advance : ℕ → ℕ → Log A → Log A
  advance i c l = record l { cursors = set l.cursors i c }

  -- Moving a cursor up keeps the memory in step,
  advance-IsShared :
      {m : Shared A} {l : Log A} (i c w : ℕ)
      → IsShared capacity default m l
      → c ≤ l.tail
      → l.tail ≤ c + capacity
      → w ≡ c % word
      → IsShared capacity default (record m { consumers = set m.consumers i w }) (advance i c l)
  advance-IsShared {m} {l} i c w v top bottom e = record {
    size = v.size;
    tail_word = v.tail_word;
    cursor_words = rw (v.cursor_words, e) (sym (map-set (λ x. x % word) l.cursors i c));
    started = v.started;
    within = All-set _ l.cursors i c v.within (top, bottom);
    slots = v.slots;
  }

  -- and gives the producer no less room.
  pub advance-IsCursor :
      {p : ProducerCursor} {l : Log A} (i c : ℕ)
      → IsCursor capacity default p l
      → i < length l.cursors
      → get_or l.cursors i 0 ≤ c
      → IsCursor capacity default p (advance i c l)
  advance-IsCursor {p} {l} i c w lt up =
      let here = All-get_or _ l.cursors i 0 w.room lt in
      record {
        next_word = w.next_word;
        blocker_in = rw (length-set l.cursors i c) w.blocker_in;
        room = All-set _ l.cursors i c w.room (omega arith);
      }

module _ {ℓ κ} {A : Type ℓ} {S : Type κ} {capacity : ℕ} (ok : IsCapacity capacity) (default : A)
    (handler : S → A → ℕ → S) where
  -- The same number of events, the same state of the handler, and memory that stands for the log.
  abbrev pub Takes : ℕ × Shared A × S → ℕ × Log A × S → Type (ℓ ⊔ κ)
  Takes out out' = (out.0 ≡ out'.0) × IsShared capacity default out.1 out'.1 × (out.2 ≡ out'.2)

  module _ {m : Shared A} {l : Log A} (v : IsShared capacity default m l) (i : ℕ) where
    -- A read of `n` events below the tail, and the store of the new position.
    pub take-Takes :
        (boundary max_count : ℕ) (s : S)
        → i < length l.cursors
        → get_or l.cursors i 0 ≤ boundary
        → boundary ≤ l.tail
        → let c = get_or l.cursors i 0 in
          let n = min max_count (boundary - c) in
          Takes
            (
              n,
              record m { consumers = set m.consumers i (add64 (c % word) n) },
              read_events capacity default handler (c % word) n m.events s,
            )
            (Log.consume handler boundary i max_count l s)
    unfolding Log.consume
    take-Takes boundary max_count s lt up down =
        let c = get_or l.cursors i 0 in
        let n = min max_count (boundary - c) in
        let near = All-get_or _ l.cursors i 0 v.within lt in
        (
          refl,
          advance-IsShared capacity default i (c + n) _ v (omega arith) (omega arith) (omega arith),
          read_events-deliver ok default handler c n s v (omega arith) near.1,
        )

    -- Where nothing is taken, nothing changes.
    none-Takes :
        (boundary max_count : ℕ) (s : S)
        → min max_count (boundary - get_or l.cursors i 0) ≡ 0
        → Takes (0, m, s) (Log.consume handler boundary i max_count l s)
    unfolding Log.consume deliver
    none-Takes boundary max_count s e =
        let z : get_or l.cursors i 0 + 0 ≡ get_or l.cursors i 0 = omega arith in
        rw (e, z, set-get_or_self l.cursors i 0) (refl, v, refl)

    position-at : i < length l.cursors → get_or m.consumers i 0 ≡ get_or l.cursors i 0 % word
    position-at lt = rw v.cursor_words (get_or-map (λ c. c % word) l.cursors i 0 0 lt)

    -- For a memory that stands for a log and a consumer that it has, `consume_available` takes the
    -- events that the log has for the consumer, at most `max_count`: it returns their number, the
    -- handler has been given them in order, and the memory stands for the log with the consumer
    -- that much further.
    pub consume_available-Takes :
        (max_count : ℕ) (s : S)
        → i < length l.cursors
        → Takes
            (consume_available capacity default handler i max_count m s)
            (Log.consume handler l.tail i max_count l s)
    unfolding consume_available
    consume_available-Takes max_count s lt =
        let c = get_or l.cursors i 0 in
        let near = All-get_or _ l.cursors i 0 v.within lt in
        let first = position-at lt in
        let available : sub64 m.published (get_or m.consumers i 0) ≡ l.tail - c =
          rw (v.tail_word, first)
            (sub64-positions l.tail c capacity near.0 near.1 (omega (arith, ok.small))) in
        let inside : leb (length m.consumers) i ≡ false =
          rw (v.cursor_words, length-map (λ x. x % word) l.cursors) (ground arith) in
        let count : (if ltb (l.tail - c) max_count then l.tail - c else max_count)
            ≡ min max_count (l.tail - c) =
          ground arith in
        rw (inside, available, first, count)
          (elim (Bool-cases (max_count == 0)) [
            | inl nothing ↦ rw nothing (none-Takes l.tail max_count s (ground arith))
            | inr something ↦ rw something (elim (Bool-cases (l.tail - c == 0)) [
              | inl drained ↦ rw drained (none-Takes l.tail max_count s (ground arith))
              | inr more ↦ rw more (take-Takes l.tail max_count s lt near.0 (omega arith))
            ])
          ])
