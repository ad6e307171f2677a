-- ===== src/Disruptor/Log.antt =====
-- What a single-producer disruptor promises: one unbounded stream of events, and for each consumer
-- the position up to which it has taken them.
pub mod Order
use low_latency_showcase.Prelude.{
  ℕ, zero, suc, ◌+◌, ◌-◌, Bool, true, false, ◌&&◌, List, [], ◌∷◌, get_or, set, replicate, min, ltb,
  leb, ◌==◌, if◌then◌else◌, ◌%◌,
}
use low_latency_showcase.Words.{word}

-- Positions are not bounded here; the ring's are these modulo 2^64. They count from one revolution
-- of the sequence range on, so that the slot of every position has been used before.
pub record Log {ℓ} (A : Type ℓ) : Type ℓ where
  pub stream : ℕ → A
  pub tail : ℕ
  pub cursors : List ℕ

unfoldable pub empty {ℓ} : {A : Type ℓ} → A → ℕ → ℕ → Log A
empty default consumer_count initial_position = record {
  stream = λ _. default;
  tail = word + initial_position;
  cursors = replicate consumer_count (word + initial_position);
}

-- Whether `count` more events leave every consumer within `capacity` of the tail.
unfoldable pub has_room : ℕ → ℕ → List ℕ → Bool
has_room capacity end [] = true
has_room capacity end (c ∷ cs) = leb end (c + capacity) && has_room capacity end cs

module _ {ℓ} {A : Type ℓ} where
  -- The event at a position of the batch is what the writer makes of the one that it recycles,
  -- which is `capacity` positions older.
  unfoldable pub append : ℕ → ℕ → (ℕ → A → A) → Log A → Log A
  append capacity count writer l = record l {
    stream = λ s.
        if leb l.tail s && ltb s (l.tail + count)
        then writer (s - l.tail) (l.stream (s - capacity))
        else l.stream s;
    tail = l.tail + count;
  }

  -- All or nothing.
  unfoldable pub publish : ℕ → ℕ → (ℕ → A → A) → Log A → Bool × Log A
  unfolding append
  publish capacity count writer l =
      if count == 0
      then (true, l)
      else if leb count capacity && has_room capacity (l.tail + count) l.cursors
      then (true, append capacity count writer l)
      else (false, l)

module _ {ℓ κ} {A : Type ℓ} {S : Type κ} (handler : S → A → ℕ → S) where
  -- The handler on the `n` events from position `s` on, oldest first, each with its position
  -- modulo 2^64.
  unfoldable pub deliver : (ℕ → A) → ℕ → ℕ → S → S
  deliver stream s zero acc = acc
  deliver stream s (suc n) acc = deliver stream (s + 1) n (handler acc (stream s) (s % word))

  -- Consumer `i` takes at most `max_count` events below position `boundary`.
  unfoldable pub consume : ℕ → ℕ → ℕ → Log A → S → ℕ × Log A × S
  unfolding deliver
  consume boundary i max_count l acc =
      let c = get_or l.cursors i 0 in
      let n = min max_count (boundary - c) in
      (n, record l { cursors = set l.cursors i (c + n) }, deliver l.stream c n acc)
