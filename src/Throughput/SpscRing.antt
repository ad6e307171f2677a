-- ===== src/Throughput/SpscRing.antt =====
-- spsc_ring: two positions that wrap at 2^64. One thread pushes and one pops, a whole call at a time.
use low_latency_showcase.Prelude.{
  ℕ, ◌+◌, ◌%◌, ◌≡◌, refl, ap, ◌∙◌, inl, inr, Bool, true, false, Option, none, some, List, [], ◌∷◌,
  ◌++◌, length, get_or, set, replicate, length-append, arith, Bool-cases, ltb, ◌==◌, if◌then◌else◌,
}
use low_latency_showcase.Words.{word, add64, sub64, slot, slot-eq-mod, IsCapacity}
use low_latency_showcase.Throughput.Window.{
  IsWindow, replicate-IsWindow, set-IsWindow, advance-IsWindow,
}
use low_latency_showcase.Throughput.Queue.{Queue, push, pop}

pub record SpscRing : Type 0 where
  pub values : List ℕ
  pub read : ℕ
  pub write : ℕ

module _ (capacity : ℕ) where
  unfoldable pub new_spsc_ring : SpscRing
  new_spsc_ring = record { values = replicate capacity 0; read = 0; write = 0 }

  unfoldable pub spsc_ring_try_push : ℕ → SpscRing → Bool × SpscRing
  spsc_ring_try_push value q =
      let next = add64 q.write 1 in
      if ltb capacity (sub64 next q.read)
      then (false, q)
      else (true, record q { values = set q.values (slot capacity q.write) value; write = next })

  -- `none` is false; the value is what the caller's variable is set to.
  unfoldable pub spsc_ring_try_pop : SpscRing → Option ℕ × SpscRing
  spsc_ring_try_pop q =
      if q.read == q.write
      then (none, q)
      else (some (get_or q.values (slot capacity q.read) 0), record q { read = add64 q.read 1 })

  -- The ring holds the list from its read position on, which stands for the unbounded `from`.
  pub record IsSpscRing (q : SpscRing) (xs : List ℕ) : Type 0 where
    pub from : ℕ
    pub read_at : q.read ≡ from % word
    pub write_at : q.write ≡ (from + length xs) % word
    pub window : IsWindow capacity q.values from xs

  module _ (ok : IsCapacity capacity) where
    pub new-IsSpscRing : IsSpscRing new_spsc_ring []
    unfolding new_spsc_ring
    new-IsSpscRing = record {
      from = 0;
      read_at = omega arith;
      write_at = omega arith;
      window = replicate-IsWindow;
    }

    pub try_push-IsSpscRing :
        (value : ℕ) (q : SpscRing) (xs : List ℕ)
        → IsSpscRing q xs
        → ((spsc_ring_try_push value q).0 ≡ (push capacity value xs).0)
          × IsSpscRing (spsc_ring_try_push value q).1 (push capacity value xs).1
    unfolding spsc_ring_try_push push
    try_push-IsSpscRing value q xs v =
        let fits = v.window.fits in
        let distance : sub64 (add64 q.write 1) q.read ≡ length xs + 1 =
          rw (v.write_at, v.read_at) (omega (arith, ok.small)) in
        let at_slot : slot capacity q.write ≡ (v.from + length xs) % capacity =
          rw v.write_at (slot-eq-mod ok (v.from + length xs)) in
        rw (distance, at_slot)
          (elim (Bool-cases (ltb (length xs) capacity)) [
            | inl room ↦
                let not_full : ltb capacity (length xs + 1) ≡ false = ground arith in
                let longer : length (xs ++ value ∷ []) ≡ length xs + 1 =
                  length-append xs (value ∷ []) in
                rw (room, not_full)
                  (
                    refl,
                    record {
                      from = v.from;
                      read_at = v.read_at;
                      write_at = rw (longer, v.write_at) (omega arith);
                      window = set-IsWindow value v.window (ground arith);
                    },
                  )
            | inr full ↦
                let is_full : ltb capacity (length xs + 1) ≡ true = ground arith in
                rw (full, is_full) (refl, v)
          ])

    pub try_pop-IsSpscRing :
        (q : SpscRing) (xs : List ℕ)
        → IsSpscRing q xs
        → ((spsc_ring_try_pop q).0 ≡ (pop xs).0) × IsSpscRing (spsc_ring_try_pop q).1 (pop xs).1
    unfolding spsc_ring_try_pop pop
    try_pop-IsSpscRing q [] v =
        let nothing : (q.read == q.write) ≡ true = ground (arith, v.read_at, v.write_at) in
        rw nothing (refl, v)
    try_pop-IsSpscRing q (x ∷ xs) v =
        let fits = v.window.fits in
        let some_left : (q.read == q.write) ≡ false =
          ground (arith, v.read_at, v.write_at, ok.small) in
        let at_slot : slot capacity q.read ≡ (v.from + 0) % capacity =
          rw v.read_at (slot-eq-mod ok v.from ∙ ap (λ k. k % capacity) (omega arith)) in
        rw (some_left, at_slot)
          (
            ap some (v.window.held 0 (omega arith)),
            record {
              from = v.from + 1;
              read_at = rw v.read_at (omega arith);
              write_at = rw v.write_at (ap (λ k. k % word) (omega arith));
              window = advance-IsWindow v.window;
            },
          )

    unfoldable pub spsc_queue : Queue SpscRing
    spsc_queue = record {
      capacity = capacity;
      try_push = spsc_ring_try_push;
      try_pop = spsc_ring_try_pop;
      new = new_spsc_ring;
      Holds = IsSpscRing;
      new-Holds = new-IsSpscRing;
      pushes = try_push-IsSpscRing;
      pops = try_pop-IsSpscRing;
    }

    -- For a valid capacity and a ring that holds a list, from any position of its 64-bit counters on:
    -- a push and a pop answer as those of a queue of that capacity do, and leave the ring holding the
    -- list that these leave.
    pub spsc_ring-eq-queue :
        (value : ℕ) (q : SpscRing) (xs : List ℕ)
        → IsSpscRing q xs
        → (((spsc_ring_try_push value q).0 ≡ (push capacity value xs).0)
            × IsSpscRing (spsc_ring_try_push value q).1 (push capacity value xs).1)
          × ((spsc_ring_try_pop q).0 ≡ (pop xs).0)
          × IsSpscRing (spsc_ring_try_pop q).1 (pop xs).1
    spsc_ring-eq-queue value q xs v = (
      try_push-IsSpscRing value q xs v,
      (try_pop-IsSpscRing q xs v).0,
      (try_pop-IsSpscRing q xs v).1,
    )
