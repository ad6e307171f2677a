-- ===== src/Disruptor/Threads/WaitFree.antt =====
-- Wait-freedom: a call returns after a bounded number of the thread's own moves, whatever the other
-- threads do to the memory in between.
use low_latency_showcase.Prelude.{
  ℕ, suc, ◌+◌, ◌-◌, ◌≤◌, ◌≡◌, refl, Bool, List, [], ◌∷◌, length, arith,
}
use low_latency_showcase.Disruptor.State.{Shared, ProducerCursor}
use low_latency_showcase.Disruptor.Threads.Producing.{
  ProducerPc, scanning, writing, Producer, begin_publish, scan_move, load_blocker, store_published,
  pc_move, producer_move,
}
use low_latency_showcase.Disruptor.Threads.Consuming.{
  ConsumerPc, reading, Consumer, begin_read, begin_consume, load_published, read_move,
  store_position, consumer_pc_move, consumer_move,
}

module _ {ℓ} {A : Type ℓ} (capacity consumer_count : ℕ) (default : A) where
  -- The producer's moves, each on the memory as it is by then.
  unfoldable pub producer_moves : List (Shared A) → Producer A → Producer A
  producer_moves [] p = p
  producer_moves (m ∷ ms) p =
      producer_moves ms (producer_move capacity consumer_count default m p).1

  -- The moves that a call still needs at most.
  abbrev left : ProducerPc A → ℕ
  left (ProducerPc.returned answer) = 0
  left (ProducerPc.loading count writer) = consumer_count + count + 3
  left (scanning count writer index greatest greatest_index) = (consumer_count - index) + count + 2
  left (writing count writer index) = (count - index) + 1

  abbrev pub HasReturned : Producer A → Type ℓ
  HasReturned p = (answer : Bool) × (p.pc ≡ ProducerPc.returned answer)

  pc_move-left :
      (pc : ProducerPc A) (m : Shared A) (c : ProducerCursor) (k : ℕ)
      → left pc ≤ suc k
      → left (pc_move capacity consumer_count default pc m c).1.pc ≤ k
  unfolding pc_move scan_move load_blocker store_published
  pc_move-left (ProducerPc.returned answer) m c k le = omega arith
  pc_move-left (ProducerPc.loading count writer) m c k le = ground arith
  pc_move-left (scanning count writer index g gi) m c k le = ground arith
  pc_move-left (writing count writer index) m c k le = ground arith

  left_none :
      (pc : ProducerPc A) → left pc ≤ 0 → (answer : Bool) × (pc ≡ ProducerPc.returned answer)
  left_none (ProducerPc.returned answer) le = (answer, refl)
  left_none (ProducerPc.loading count writer) le = absurd (omega arith)
  left_none (scanning count writer index g gi) le = absurd (omega arith)
  left_none (writing count writer index) le = absurd (omega arith)

  moves_return :
      (ms : List (Shared A)) (p : Producer A)
      → left p.pc ≤ length ms
      → HasReturned (producer_moves ms p)
  unfolding producer_moves producer_move
  moves_return [] p le = left_none p.pc le
  moves_return (m ∷ ms) p le = moves_return ms _ (pc_move-left p.pc m p.cursor (length ms) le)

  -- From any state of the thread, a call of `try_publish_batch` has returned after `consumer_count
  -- + count + 3` moves of the producer, whatever memory it finds at each of them.
  pub publish_wait_free :
      (count : ℕ) (writer : ℕ → A → A) (p : Producer A) (ms : List (Shared A))
      → consumer_count + count + 3 ≤ length ms
      → HasReturned
          (producer_moves ms (begin_publish capacity consumer_count default count writer p))
  unfolding begin_publish
  publish_wait_free count writer p ms enough = moves_return ms _ (ground arith)

module _ {ℓ κ} {A : Type ℓ} {S : Type κ} (capacity : ℕ) (default : A)
    (handler : S → A → ℕ → S) where
  unfoldable pub consumer_moves : List (Shared A) → Consumer S → Consumer S
  consumer_moves [] c = c
  consumer_moves (m ∷ ms) c = consumer_moves ms (consumer_move capacity default handler m c).1

  abbrev moves_left : ConsumerPc → ℕ
  moves_left (ConsumerPc.returned count) = 0
  moves_left (ConsumerPc.loading max_count) = max_count + 2
  moves_left (reading count index) = (count - index) + 1

  abbrev pub HasTaken : Consumer S → Type 0
  HasTaken c = (count : ℕ) × (c.pc ≡ ConsumerPc.returned count)

  consumer_pc_move-moves_left :
      (pc : ConsumerPc) (m : Shared A) (c : Consumer S) (k : ℕ)
      → c.pc ≡ pc
      → moves_left pc ≤ suc k
      → moves_left (consumer_pc_move capacity default handler pc m c).1.pc ≤ k
  unfolding consumer_pc_move load_published read_move store_position begin_read
  consumer_pc_move-moves_left (ConsumerPc.returned count) m c k e le = rw e (omega arith)
  consumer_pc_move-moves_left (ConsumerPc.loading max_count) m c k e le = ground arith
  consumer_pc_move-moves_left (reading count index) m c k e le = ground arith

  moves_left_none :
      (pc : ConsumerPc) → moves_left pc ≤ 0 → (count : ℕ) × (pc ≡ ConsumerPc.returned count)
  moves_left_none (ConsumerPc.returned count) le = (count, refl)
  moves_left_none (ConsumerPc.loading max_count) le = absurd (omega arith)
  moves_left_none (reading count index) le = absurd (omega arith)

  takes_return :
      (ms : List (Shared A)) (c : Consumer S)
      → moves_left c.pc ≤ length ms
      → HasTaken (consumer_moves ms c)
  unfolding consumer_moves consumer_move
  takes_return [] c le = moves_left_none c.pc le
  takes_return (m ∷ ms) c le =
      takes_return ms _ (consumer_pc_move-moves_left c.pc m c (length ms) refl le)

  -- A call of `consume_available` has returned after `max_count + 2` moves of the consumer,
  -- whatever memory it finds at each of them.
  pub consume_wait_free :
      (max_count : ℕ) (c : Consumer S) (ms : List (Shared A))
      → max_count + 2 ≤ length ms
      → HasTaken (consumer_moves ms (begin_consume capacity default handler max_count c))
  unfolding begin_consume begin_read
  consume_wait_free max_count c ms enough = takes_return ms _ (ground arith)
