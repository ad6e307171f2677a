-- ===== src/Disruptor/Consume/Loop.antt =====
-- The loops that hand events to a handler: two spans hand over what the masked loop does, and that
-- is what the log delivers.
use native.Mathlib.Nat.{zero-add, add-zero, suc-add}
use low_latency_showcase.Prelude.{
  ℕ, zero, suc, ◌+◌, ◌-◌, ◌%◌, ◌≤◌, ◌<◌, ◌≡◌, refl, sym, ap, ◌∙◌, List, get_or, arith,
}
use low_latency_showcase.Words.{word, add64, slot, IsCapacity, slot-eq-mod}
use low_latency_showcase.Disruptor.State.{Shared}
use low_latency_showcase.Disruptor.Log.{Log, deliver}
use low_latency_showcase.Disruptor.Invariant.{IsShared}
use low_latency_showcase.Disruptor.Publish.{contiguous_count}
use low_latency_showcase.Disruptor.Publish.Loop.{
  slot-first_span, slot-second_span, contiguous_count-le,
}
use low_latency_showcase.Disruptor.Consume.{read_span, read_events, read_two_spans}

module _ {ℓ κ} {A : Type ℓ} {S : Type κ} (capacity : ℕ) (default : A)
    (handler : S → A → ℕ → S) where
  read_span-add :
      (at : ℕ → ℕ) (first n k i : ℕ) (events : List A) (s : S)
      → read_span capacity default handler at first (n + k) i events s
        ≡ read_span capacity default handler at first k
            (i + n)
            events
            (read_span capacity default handler at first n i events s)
  unfolding read_span
  read_span-add at first zero k i events s = rw (zero-add, add-zero)
  read_span-add at first (suc n) k i events s =
      let e : i + 1 + n ≡ i + suc n = omega arith in
      rw (suc-add, ← e) (read_span-add at first n k (i + 1) events _)

  read_span-congr :
      (at at' : ℕ → ℕ) (first n i : ℕ) (events : List A) (s : S)
      → ((j : ℕ) → i ≤ j → j < i + n → at j ≡ at' j)
      → read_span capacity default handler at first n i events s
        ≡ read_span capacity default handler at' first n i events s
  unfolding read_span
  read_span-congr at at' first zero i events s same = refl
  read_span-congr at at' first (suc n) i events s same = rw (same i (omega arith) (omega arith)) (
      read_span-congr at at' first n (i + 1) events _
        (λ j lo hi. same j (omega arith) (omega arith)))

  pub read_span-split :
      (at at₁ at₂ : ℕ → ℕ) (first c count : ℕ) (events : List A) (s : S)
      → c ≤ count
      → ((j : ℕ) → j < c → at₁ j ≡ at j)
      → ((j : ℕ) → c ≤ j → j < count → at₂ j ≡ at j)
      → read_span capacity default handler at₂ first
          (count - c)
          c
          events
          (read_span capacity default handler at₁ first c 0 events s)
        ≡ read_span capacity default handler at first count 0 events s
  read_span-split at at₁ at₂ first c count events s le low high =
      let e : c + (count - c) ≡ count = omega arith in
      let z : 0 + c ≡ c = omega arith in
      read_span-congr at₂ at first (count - c) c events _ (λ j p q. high j p (omega arith))
      ∙ ap (λ t. read_span capacity default handler at first (count - c) c events t)
          (read_span-congr at₁ at first c 0 events s (λ j p q. low j (omega arith)))
      ∙ sym (rw z at (rw e at (read_span-add at first c (count - c) 0 events s)))

  -- Events and sequences that agree with the log's are delivered as the log's.
  read_span-deliver :
      (at : ℕ → ℕ) (stream : ℕ → A) (c n i : ℕ) (events : List A) (s : S)
      → ((j : ℕ) → i ≤ j → j < i + n → get_or events (at j) default ≡ stream (c + j))
      → read_span capacity default handler at (c % word) n i events s
        ≡ deliver handler stream (c + i) n s
  unfolding read_span deliver
  read_span-deliver at stream c zero i events s same = refl
  read_span-deliver at stream c (suc n) i events s same =
      let e : c + i + 1 ≡ c + (i + 1) = omega arith in
      let q : add64 (c % word) i ≡ (c + i) % word = omega arith in
      rw (same i (omega arith) (omega arith), q, e)
        (read_span-deliver at stream c n (i + 1) events _
          (λ j lo hi. same j (omega arith) (omega arith)))

module _ {ℓ κ} {A : Type ℓ} {S : Type κ} {capacity : ℕ} (ok : IsCapacity capacity) (default : A)
    (handler : S → A → ℕ → S) where
  -- For at most `capacity` events, the handle's two spans give the handler the events that the loop
  -- of masked positions gives it, in the same order, so that it ends in the same state.
  pub read_two_spans-eq-read_events :
      (first count : ℕ) (events : List A) (s : S)
      → count ≤ capacity
      → read_two_spans capacity default handler first count events s
        ≡ read_events capacity default handler first count events s
  unfolding read_two_spans read_events
  read_two_spans-eq-read_events first count events s fits =
      let c = contiguous_count capacity (slot capacity first) count in
      read_span-split capacity default handler (λ index. slot capacity (add64 first index)) _ _
        first c count events s (contiguous_count-le ok first count)
        (λ j h. sym (slot-first_span ok first count j h))
        (λ j p q. sym (slot-second_span ok first count j fits p q))

  -- From a position in the window the loop hands over the log's next events.
  pub read_events-deliver :
      {m : Shared A} {l : Log A} (c n : ℕ) (s : S)
      → IsShared capacity default m l
      → c + n ≤ l.tail
      → l.tail ≤ c + capacity
      → read_events capacity default handler (c % word) n m.events s
        ≡ deliver handler l.stream c n s
  unfolding read_events
  read_events-deliver {m} {l} c n s v top bottom =
      let z : c + 0 ≡ c = omega arith in
      rw z at (
        read_span-deliver capacity default handler _ l.stream c n 0 m.events s (λ j p q.
          let e : (c % word + j) % word ≡ (c + j) % word = omega arith in
          ap (λ x. get_or m.events x default) (ap (slot capacity) e ∙ slot-eq-mod ok (c + j))
          ∙ v.slots (c + j) (omega arith) (omega arith)))
