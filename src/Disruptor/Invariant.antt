-- ===== src/Disruptor/Invariant.antt =====
-- How the disruptor's bounded state stands for the unbounded log.
use low_latency_showcase.Prelude.{
  ℕ, ◌+◌, ◌-◌, ◌%◌, ◌≤◌, ◌<◌, ◌≡◌, ◌≢◌, refl, true, List, [], ◌∷◌, map, length, get_or, All,
  All-replicate, length-replicate, get_or-replicate, map-replicate, replicate, ap, sym, ◌∙◌, arith,
  set, length-set, get_or-set_ne,
}
use low_latency_showcase.Words.{word, sub64, IsCapacity}
use low_latency_showcase.Disruptor.State.{Shared, ProducerCursor, ConsumerHandle, init}
use low_latency_showcase.Disruptor.Log.{Log, empty, has_room}

abbrev pub positions : List ℕ → List ℕ
positions = map (λ c. c % word)

module _ {ℓ} {A : Type ℓ} (capacity : ℕ) (default : A) where
  -- The shared memory holds the last `capacity` events of the log, and its positions modulo 2^64;
  -- no consumer is further behind than that.
  pub record IsShared (m : Shared A) (l : Log A) : Type ℓ where
    pub size : length m.events ≡ capacity
    pub tail_word : m.published ≡ l.tail % word
    pub cursor_words : m.consumers ≡ positions l.cursors
    pub started : capacity ≤ l.tail
    pub within : All (λ c. (c ≤ l.tail) × (l.tail ≤ c + capacity)) l.cursors
    pub slots :
        (s : ℕ)
        → s < l.tail
        → l.tail ≤ s + capacity
        → get_or m.events (s % capacity) default ≡ l.stream s

  -- The producer's cursor is at the tail, and its cached room is no more than there is.
  pub record IsCursor (c : ProducerCursor) (l : Log A) : Type 0 where
    pub next_word : c.next_to_publish ≡ l.tail % word
    pub blocker_in : c.blocking_consumer < length l.cursors
    pub room : All (λ x. l.tail + c.available_before_rescan ≤ x + capacity) l.cursors

  -- A consumer's handle is at its cursor, and its cached boundary is the log position `boundary`.
  pub record IsHandle (h : ConsumerHandle) (boundary : ℕ) (l : Log A) : Type 0 where
    pub index_in : h.consumer_index < length l.cursors
    pub next_word : h.next_position ≡ get_or l.cursors h.consumer_index 0 % word
    pub cached_word : h.cached_published_position ≡ boundary % word
    pub behind : get_or l.cursors h.consumer_index 0 ≤ boundary
    pub published : boundary ≤ l.tail

module _ {ℓ} {A : Type ℓ} {capacity : ℕ} {default : A} {h : ConsumerHandle} {boundary : ℕ}
    {l : Log A} (w : IsHandle capacity default h boundary l) where
  -- A handle stays in step with a log that grows,
  pub IsHandle-grown :
      {l' : Log A}
      → l'.cursors ≡ l.cursors
      → l.tail ≤ l'.tail
      → IsHandle capacity default h boundary l'
  IsHandle-grown e more = record {
    index_in = rw e w.index_in;
    next_word = rw e w.next_word;
    cached_word = w.cached_word;
    behind = rw e w.behind;
    published = omega (arith, w.published);
  }

  -- and with one in which another consumer has moved.
  pub IsHandle-apart :
      (i c : ℕ)
      → i ≢ h.consumer_index
      → IsHandle capacity default h boundary (record l { cursors = set l.cursors i c })
  IsHandle-apart i c apart =
      let still = get_or-set_ne l.cursors i h.consumer_index c 0 apart in
      record {
        index_in = rw (length-set l.cursors i c) w.index_in;
        next_word = rw still w.next_word;
        cached_word = w.cached_word;
        behind = rw still w.behind;
        published = w.published;
      }

-- The distance of two positions survives the wrap of both.
pub sub64-positions :
    (tail x bound : ℕ)
    → x ≤ tail
    → tail ≤ x + bound
    → bound < word
    → sub64 (tail % word) (x % word) ≡ tail - x
sub64-positions tail x bound le near small = omega arith

pub has_room→All :
    (capacity end : ℕ) (cs : List ℕ)
    → has_room capacity end cs ≡ true
    → All (λ x. end ≤ x + capacity) cs
unfolding has_room
has_room→All capacity end [] h = tt
has_room→All capacity end (c ∷ cs) h = (ground arith, has_room→All capacity end cs (ground arith))

pub All→has_room :
    (capacity end : ℕ) (cs : List ℕ)
    → All (λ x. end ≤ x + capacity) cs
    → has_room capacity end cs ≡ true
unfolding has_room
All→has_room capacity end [] h = refl
All→has_room capacity end (c ∷ cs) h = ground (arith, All→has_room capacity end cs h.1)

module _ {ℓ} {A : Type ℓ} {capacity : ℕ} (ok : IsCapacity capacity) (default : A) where
  -- The constructor's state stands for the empty log.
  pub init-IsShared :
      (n initial : ℕ)
      → initial < word
      → 0 < n
      → IsShared capacity default (init default capacity n initial).shared (empty default n initial)
        × IsCursor capacity default
            (init default capacity n initial).cursor
            (empty default n initial)
  unfolding init empty
  init-IsShared n initial h some = (
    record {
      size = length-replicate capacity default;
      tail_word = omega arith;
      cursor_words =
          let e : initial ≡ (word + initial) % word = omega arith in
          ap (replicate n) e ∙ sym (map-replicate (λ c. c % word) n (word + initial));
      started = omega (arith, ok.small);
      within = All-replicate _ n _ (omega arith, omega arith);
      slots = λ s lt near. get_or-replicate capacity default (s % capacity);
    },
    record {
      next_word = omega arith;
      blocker_in = rw (length-replicate n (word + initial)) some;
      room = All-replicate _ n _ (omega arith);
    },
  )
