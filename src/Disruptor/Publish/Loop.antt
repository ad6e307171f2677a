-- ===== src/Disruptor/Publish/Loop.antt =====
-- The loops that write a batch: which slot gets what, and that two spans write what the masked
-- loop writes.
use native.Mathlib.Nat.{mod-eq_of_lt, mod-eq-sub-mod, zero-add, add-zero, suc-add}
use low_latency_showcase.Prelude.{
  ℕ, zero, suc, ◌+◌, ◌-◌, ◌≤◌, ◌<◌, ◌≡◌, ◌≢◌, refl, sym, ap, ◌∙◌, List, length, get_or, length-set,
  get_or-set_self, get_or-set_ne, arith, dec_lt,
}
use low_latency_showcase.Words.{add64, sub64, slot, IsCapacity, slot-add64, slot-lt}
use low_latency_showcase.Disruptor.Publish.{
  write_span, write_events, write_two_spans, contiguous_count,
}

module _ {ℓ} {A : Type ℓ} (capacity : ℕ) (default : A) (writer : ℕ → A → A) where
  pub length-write_span :
      (at : ℕ → ℕ) (n i : ℕ) (events : List A)
      → length (write_span capacity default writer at n i events) ≡ length events
  unfolding write_span
  length-write_span at zero i events = refl
  length-write_span at (suc n) i events =
      length-write_span at n (i + 1) _ ∙ length-set events (at i) _

  pub write_span_miss :
      (at : ℕ → ℕ) (n i x : ℕ) (events : List A)
      → ((j : ℕ) → i ≤ j → j < i + n → at j ≢ x)
      → get_or (write_span capacity default writer at n i events) x default
        ≡ get_or events x default
  unfolding write_span
  write_span_miss at zero i x events miss = refl
  write_span_miss at (suc n) i x events miss =
      write_span_miss at n (i + 1) x _ (λ j lo hi. miss j (omega arith) (omega arith))
      ∙ get_or-set_ne events (at i) x _ default (miss i (omega arith) (omega arith))

  pub write_span_hit :
      (at : ℕ → ℕ) (n i j : ℕ) (events : List A)
      → ((a b : ℕ) → i ≤ a → a < b → b < i + n → at a ≢ at b)
      → ((a : ℕ) → at a < length events)
      → i ≤ j
      → j < i + n
      → get_or (write_span capacity default writer at n i events) (at j) default
        ≡ writer j (get_or events (at j) default)
  unfolding write_span
  write_span_hit at zero i j events apart fits lo hi = absurd (omega arith)
  write_span_hit at (suc n) i j events apart fits lo hi = elim (dec_lt i j) [
    | yes later ↦
        write_span_hit at n (i + 1) j _ (λ a b p q r. apart a b (omega arith) q (omega arith))
          (λ a. rw (length-set events (at i) (writer i (get_or events (at i) default))) (fits a))
          (omega arith) (omega arith)
        ∙ ap (writer j)
            (get_or-set_ne events (at i) (at j) _ default (apart i j (omega arith) later hi))
    | no here ↦
        let e : i ≡ j = omega arith in
        rw (← e) (
          write_span_miss at n (i + 1) (at i) _
            (λ k p q r. apart i k (omega arith) (omega arith) (omega arith) (sym r))
          ∙ get_or-set_self events (at i) _ default (fits i))
  ]

  write_span-add :
      (at : ℕ → ℕ) (n m i : ℕ) (events : List A)
      → write_span capacity default writer at (n + m) i events
        ≡ write_span capacity default writer at m
            (i + n)
            (write_span capacity default writer at n i events)
  unfolding write_span
  write_span-add at zero m i events = rw (zero-add, add-zero)
  write_span-add at (suc n) m i events =
      let e : i + 1 + n ≡ i + suc n = omega arith in
      rw (suc-add, ← e) (write_span-add at n m (i + 1) _)

  write_span-congr :
      (at at' : ℕ → ℕ) (n i : ℕ) (events : List A)
      → ((j : ℕ) → i ≤ j → j < i + n → at j ≡ at' j)
      → write_span capacity default writer at n i events
        ≡ write_span capacity default writer at' n i events
  unfolding write_span
  write_span-congr at at' zero i events same = refl
  write_span-congr at at' (suc n) i events same =
      rw (same i (omega arith) (omega arith))
        (write_span-congr at at' n (i + 1) _ (λ j lo hi. same j (omega arith) (omega arith)))

  -- One loop over `[0, count)` is a loop over `[0, c)` and one over `[c, count)`.
  pub write_span-split :
      (at at₁ at₂ : ℕ → ℕ) (c count : ℕ) (events : List A)
      → c ≤ count
      → ((j : ℕ) → j < c → at₁ j ≡ at j)
      → ((j : ℕ) → c ≤ j → j < count → at₂ j ≡ at j)
      → write_span capacity default writer at₂
          (count - c)
          c
          (write_span capacity default writer at₁ c 0 events)
        ≡ write_span capacity default writer at count 0 events
  write_span-split at at₁ at₂ c count events le low high =
      let e : c + (count - c) ≡ count = omega arith in
      let z : 0 + c ≡ c = omega arith in
      write_span-congr at₂ at (count - c) c _ (λ j p q. high j p (omega arith))
      ∙ ap (λ es. write_span capacity default writer at (count - c) c es)
          (write_span-congr at₁ at c 0 events (λ j p q. low j (omega arith)))
      ∙ sym (rw z at (rw e at (write_span-add at c (count - c) 0 events)))

module _ {capacity : ℕ} (ok : IsCapacity capacity) where
  -- The spans: up to the end of the ring the slots follow the first one, behind it they start at 0.
  pub slot-first_span :
      (first count j : ℕ)
      → j < contiguous_count capacity (slot capacity first) count
      → slot capacity (add64 first j) ≡ add64 (slot capacity first) j
  unfolding contiguous_count
  slot-first_span first count j h =
      let x = slot capacity first in
      let inside : x < capacity = slot-lt ok first in
      let near : x + j < capacity = ground (arith, ok.small) in
      slot-add64 ok first j ∙ mod-eq_of_lt near ∙ omega (arith, ok.small)

  pub slot-second_span :
      (first count j : ℕ)
      → count ≤ capacity
      → contiguous_count capacity (slot capacity first) count ≤ j
      → j < count
      → slot capacity (add64 first j)
        ≡ sub64 j (contiguous_count capacity (slot capacity first) count)
  unfolding contiguous_count
  slot-second_span first count j fits lo hi =
      let x = slot capacity first in
      let inside : x < capacity = slot-lt ok first in
      let far : (capacity ≤ x + j) × (contiguous_count capacity x count ≡ capacity - x) =
        ground (arith, ok.small) in
      slot-add64 ok first j
      ∙ mod-eq-sub-mod far.0
      ∙ mod-eq_of_lt {n = x + j - capacity} {m = capacity} (omega arith)
      ∙ omega (arith, ok.small)

  pub contiguous_count-le :
      (first count : ℕ) → contiguous_count capacity (slot capacity first) count ≤ count
  unfolding contiguous_count
  contiguous_count-le first count = ground arith

  module _ {ℓ} {A : Type ℓ} (default : A) (writer : ℕ → A → A) where
    -- For at most `capacity` events, the handle's two spans leave in the ring what the loop of
    -- masked positions leaves there.
    pub write_two_spans-eq-write_events :
        (first count : ℕ) (events : List A)
        → count ≤ capacity
        → write_two_spans capacity default writer first count events
          ≡ write_events capacity default writer first count events
    unfolding write_two_spans write_events
    write_two_spans-eq-write_events first count events fits =
        let c = contiguous_count capacity (slot capacity first) count in
        let le : c ≤ count = contiguous_count-le first count in
        write_span-split capacity default writer (λ index. slot capacity (add64 first index)) _ _ c
          count events le (λ j h. sym (slot-first_span first count j h))
          (λ j p q. sym (slot-second_span first count j fits p q))
