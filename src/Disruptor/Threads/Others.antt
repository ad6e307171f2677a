-- ===== src/Disruptor/Threads/Others.antt =====
-- What a thread's move leaves of the other threads.
use low_latency_showcase.Prelude.{
  ℕ, ◌+◌, ◌-◌, ◌≤◌, ◌<◌, ◌≡◌, ◌≢◌, refl, ◌∙◌, List, length, get_or, set, All-get_or, All-set,
  set_outside, length-set, get_or-set_self, get_or-set_ne, arith, dec_lt, ℕ_discrete,
}
use low_latency_showcase.Disruptor.State.{ProducerCursor}
use low_latency_showcase.Disruptor.Log.{Log, append}
use low_latency_showcase.Disruptor.Log.Order.{deliver-congr}
use low_latency_showcase.Disruptor.Threads.Producing.{ProducerPc, scanning, writing, Producer}
use low_latency_showcase.Disruptor.Threads.Consuming.{ConsumerPc, reading, Consumer}
use low_latency_showcase.Disruptor.Threads.Invariant.{
  pending, Fits, IsProducer, done, Within, IsConsumer,
}

pub done-Within :
    (pc : ConsumerPc) (position boundary : ℕ)
    → Within pc position boundary
    → position ≤ boundary
    → position + done pc ≤ boundary
done-Within (ConsumerPc.returned count) position boundary w le = omega arith
done-Within (ConsumerPc.loading max_count) position boundary w le = omega arith
done-Within (reading count index) position boundary w le = omega arith

module _ {ℓ} {A : Type ℓ} (capacity : ℕ) (default : A) where
  pub cursors-pending :
      (pc : ProducerPc A) (l : Log A) → (pending capacity default pc l).cursors ≡ l.cursors
  unfolding append
  cursors-pending (writing count writer index) l = refl
  cursors-pending _ l = refl

  pub pending-kept :
      (pc : ProducerPc A) (l : Log A) (s : ℕ)
      → s < l.tail
      → (pending capacity default pc l).stream s ≡ l.stream s
  unfolding append
  pending-kept (writing count writer index) l s lt = ground arith
  pending-kept _ l s lt = refl

  pub pending-advance :
      (pc : ProducerPc A) (l : Log A) (cs : List ℕ)
      → pending capacity default pc (record l { cursors = cs })
        ≡ record (pending capacity default pc l) { cursors = cs }
  unfolding append
  pending-advance (writing count writer index) l cs = refl
  pending-advance _ l cs = refl

  module _ (l : Log A) (i to : ℕ) (up : get_or l.cursors i 0 ≤ to) where
    abbrev advanced : Log A
    advanced = record l { cursors = set l.cursors i to }

    cursors_up : (j : ℕ) → get_or l.cursors j 0 ≤ get_or (set l.cursors i to) j 0
    cursors_up j = elim (ℕ_discrete i j) [
      | yes same ↦ elim (dec_lt i (length l.cursors)) [
        | yes inside ↦ rw (← same, get_or-set_self l.cursors i to 0 inside) up
        | no outside ↦ rw (set_outside l.cursors i to (omega arith)) (omega arith)
      ]
      | no differ ↦ rw (get_or-set_ne l.cursors i j to 0 differ) (omega arith)
    ]

    Fits-advance :
        (pc : ProducerPc A) (c : ProducerCursor)
        → Fits capacity default pc c l
        → Fits capacity default pc c advanced
    Fits-advance (ProducerPc.returned answer) c fits = fits
    Fits-advance (ProducerPc.loading count writer) c fits = fits
    Fits-advance (scanning count writer index g gi) c (fits, low, inside, seen) = (
      fits,
      low,
      rw length-set inside,
      λ j lt known. omega (arith, cursors_up j, seen j (rw length-set at lt) known),
    )
    Fits-advance (writing count writer index) c fits = fits

    -- A consumer that has moved on leaves the producer its room.
    pub IsProducer-advance :
        (p : Producer A)
        → i < length l.cursors
        → IsProducer capacity default p l
        → IsProducer capacity default p advanced
    IsProducer-advance p lt w = record {
      cursor = record {
        next_word = w.cursor.next_word;
        blocker_in = rw length-set w.cursor.blocker_in;
        room =
            All-set _ l.cursors i to w.cursor.room
              (omega (arith, All-get_or _ l.cursors i 0 w.cursor.room lt));
      };
      fits = Fits-advance p.pc p.cursor w.fits;
    }

module _ {ℓ κ} {A : Type ℓ} {S : Type κ} (capacity consumer_count : ℕ) (default : A)
    (handler : ℕ → S → A → ℕ → S) (first : ℕ) (s₀ : S) where
  abbrev Is : ℕ → Consumer S → Log A → Type (ℓ ⊔ κ)
  Is = IsConsumer capacity consumer_count default handler first s₀

  -- A log that has grown leaves a consumer what it has;
  pub IsConsumer-grow :
      (i tail : ℕ) (stream : ℕ → A) (c : Consumer S) (l : Log A)
      → l.tail ≤ tail
      → ((j : ℕ) → j < l.tail → l.stream j ≡ stream j)
      → Is i c l
      → Is i c (record l { stream = stream; tail = tail })
  IsConsumer-grow i tail stream c l more same w =
      let published = w.handle.published in
      let behind = rw w.own at w.handle.behind in
      let up_to = done-Within c.pc (get_or l.cursors i 0) w.boundary w.within behind in
      let start = w.begun in
      record {
        boundary = w.boundary;
        handle = record {
          index_in = w.handle.index_in;
          next_word = w.handle.next_word;
          cached_word = w.handle.cached_word;
          behind = w.handle.behind;
          published = omega arith;
        };
        own = w.own;
        within = w.within;
        begun = w.begun;
        handled =
            w.handled
            ∙ deliver-congr (handler i) l.stream stream first
                (get_or l.cursors i 0 + done c.pc - first) s₀ (λ j lt. same j (omega arith));
      }

  -- so does a publication.
  pub IsConsumer-append :
      (i count : ℕ) (writer : ℕ → A → A) (c : Consumer S) (l : Log A)
      → Is i c l
      → Is i c (append capacity count writer l)
  unfolding append
  IsConsumer-append i count writer c l w =
      IsConsumer-grow i (l.tail + count) _ c l (omega arith) (λ j lt. ground arith) w

  -- So does another consumer's store.
  pub IsConsumer-advance :
      (i j to : ℕ) (c : Consumer S) (l : Log A)
      → i ≢ j
      → Is j c l
      → Is j c (record l { cursors = set l.cursors i to })
  IsConsumer-advance i j to c l differ w =
      let here : get_or (set l.cursors i to) j 0 ≡ get_or l.cursors j 0 =
        get_or-set_ne l.cursors i j to 0 differ in
      let there : get_or (set l.cursors i to) c.handle.consumer_index 0
          ≡ get_or l.cursors c.handle.consumer_index 0 =
        rw w.own here in
      record {
        boundary = w.boundary;
        handle = record {
          index_in = rw length-set w.handle.index_in;
          next_word = rw there w.handle.next_word;
          cached_word = w.handle.cached_word;
          behind = rw there w.handle.behind;
          published = w.handle.published;
        };
        own = w.own;
        within = rw here w.within;
        begun = rw here w.begun;
        handled = rw here w.handled;
      }
