-- ===== src/Throughput/MutexRing.antt =====
-- mutex_ring: the calls are under one mutex, so each is one step.
use native.Mathlib.Nat.{mod-lt, mod-add-mod, mod-eq_of_lt}
use low_latency_showcase.Prelude.{
  ℕ, ◌+◌, ◌-◌, ◌%◌, ◌<◌, ◌≡◌, refl, sym, ap, ◌∙◌, inl, inr, Bool, true, false, Option, none, some,
  List, [], ◌∷◌, ◌++◌, length, get_or, set, replicate, length-append, arith, Bool-cases, ltb, ◌==◌,
  if◌then◌else◌,
}
use low_latency_showcase.Throughput.Window.{
  IsWindow, replicate-IsWindow, set-IsWindow, advance-IsWindow, mod-IsWindow,
}
use low_latency_showcase.Throughput.Queue.{Queue, push, pop}

pub record MutexRing : Type 0 where
  pub values : List ℕ
  pub read_index : ℕ
  pub write_index : ℕ
  pub size : ℕ

module _ (capacity : ℕ) where
  unfoldable pub new_mutex_ring : MutexRing
  new_mutex_ring = record {
    values = replicate capacity 0;
    read_index = 0;
    write_index = 0;
    size = 0;
  }

  unfoldable pub mutex_ring_try_push : ℕ → MutexRing → Bool × MutexRing
  mutex_ring_try_push value q = if q.size == capacity then (false, q) else (
    true,
    record q {
      values = set q.values q.write_index value;
      write_index = (q.write_index + 1) % capacity;
      size = q.size + 1;
    },
  )

  -- `none` is false; the value is what the caller's variable is set to.
  unfoldable pub mutex_ring_try_pop : MutexRing → Option ℕ × MutexRing
  mutex_ring_try_pop q = if q.size == 0 then (none, q) else (
    some (get_or q.values q.read_index 0),
    record q { read_index = (q.read_index + 1) % capacity; size = q.size - 1 },
  )

  -- The ring holds the list from its read index on.
  pub record IsMutexRing (q : MutexRing) (xs : List ℕ) : Type 0 where
    pub counted : q.size ≡ length xs
    pub read_in : q.read_index < capacity
    pub write_at : q.write_index ≡ (q.read_index + length xs) % capacity
    pub window : IsWindow capacity q.values q.read_index xs

  module _ (positive : 0 < capacity) where
    pub new-IsMutexRing : IsMutexRing new_mutex_ring []
    unfolding new_mutex_ring
    new-IsMutexRing = record {
      counted = refl;
      read_in = positive;
      write_at = sym (mod-eq_of_lt positive);
      window = replicate-IsWindow;
    }

    pub try_push-IsMutexRing :
        (value : ℕ) (q : MutexRing) (xs : List ℕ)
        → IsMutexRing q xs
        → ((mutex_ring_try_push value q).0 ≡ (push capacity value xs).0)
          × IsMutexRing (mutex_ring_try_push value q).1 (push capacity value xs).1
    unfolding mutex_ring_try_push push
    try_push-IsMutexRing value q xs v =
        let counted = v.counted in
        let fits = v.window.fits in
        elim (Bool-cases (ltb (length xs) capacity)) [
          | inl room ↦
              let not_full : (q.size == capacity) ≡ false = ground arith in
              let longer : length (xs ++ value ∷ []) ≡ length xs + 1 =
                length-append xs (value ∷ []) in
              rw (room, not_full)
                (
                  refl,
                  record {
                    counted = rw longer (omega arith);
                    read_in = v.read_in;
                    write_at =
                        rw (v.write_at, longer)
                          (mod-add-mod (q.read_index + length xs) capacity 1
                            ∙ ap (λ k. k % capacity) (omega arith));
                    window = rw v.write_at (set-IsWindow value v.window (ground arith));
                  },
                )
          | inr full ↦
              let is_full : (q.size == capacity) ≡ true = ground arith in
              rw (full, is_full) (refl, v)
        ]

    pub try_pop-IsMutexRing :
        (q : MutexRing) (xs : List ℕ)
        → IsMutexRing q xs
        → ((mutex_ring_try_pop q).0 ≡ (pop xs).0) × IsMutexRing (mutex_ring_try_pop q).1 (pop xs).1
    unfolding mutex_ring_try_pop pop
    try_pop-IsMutexRing q [] v =
        let nothing : (q.size == 0) ≡ true = ground (arith, v.counted) in rw nothing (refl, v)
    try_pop-IsMutexRing q (x ∷ xs) v =
        let some_left : (q.size == 0) ≡ false = ground (arith, v.counted) in
        let first_slot : (q.read_index + 0) % capacity ≡ q.read_index =
          ap (λ k. k % capacity) (omega arith) ∙ mod-eq_of_lt v.read_in in
        rw some_left (
          ap some (ap (λ k. get_or q.values k 0) (sym first_slot) ∙ v.window.held 0 (omega arith)),
          record {
            counted = omega (arith, v.counted);
            read_in = mod-lt (q.read_index + 1) positive;
            write_at =
                v.write_at
                ∙ ap (λ k. k % capacity) (omega arith)
                ∙ sym (mod-add-mod (q.read_index + 1) capacity (length xs));
            window = mod-IsWindow (advance-IsWindow v.window);
          },
        )

    unfoldable pub mutex_queue : Queue MutexRing
    mutex_queue = record {
      capacity = capacity;
      try_push = mutex_ring_try_push;
      try_pop = mutex_ring_try_pop;
      new = new_mutex_ring;
      Holds = IsMutexRing;
      new-Holds = new-IsMutexRing;
      pushes = try_push-IsMutexRing;
      pops = try_pop-IsMutexRing;
    }

    -- For a capacity of at least one and a ring that holds a list, from any read index on: a push and
    -- a pop answer as those of a queue of that capacity do, and leave the ring holding the list that
    -- these leave.
    pub mutex_ring-eq-queue :
        (value : ℕ) (q : MutexRing) (xs : List ℕ)
        → IsMutexRing q xs
        → (((mutex_ring_try_push value q).0 ≡ (push capacity value xs).0)
            × IsMutexRing (mutex_ring_try_push value q).1 (push capacity value xs).1)
          × ((mutex_ring_try_pop q).0 ≡ (pop xs).0)
          × IsMutexRing (mutex_ring_try_pop q).1 (pop xs).1
    mutex_ring-eq-queue value q xs v = (
      try_push-IsMutexRing value q xs v,
      (try_pop-IsMutexRing q xs v).0,
      (try_pop-IsMutexRing q xs v).1,
    )
