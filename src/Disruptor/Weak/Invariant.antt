-- ===== src/Disruptor/Weak/Invariant.antt =====
-- What holds between any two moves on this memory: the producer is in step with a log whose cursors
-- are those that it has acquired, and each consumer with one whose tail is.
use low_latency_showcase.Prelude.{
  ℕ, zero, suc, ◌+◌, ◌%◌, ◌≤◌, ◌<◌, ◌≡◌, refl, List, length, get_or, set, All-get_or, All-set,
  update, arith,
}
use low_latency_showcase.Words.{word, IsCapacity}
use low_latency_showcase.Disruptor.Log.{Log}
use low_latency_showcase.Disruptor.Invariant.{positions}
use low_latency_showcase.Disruptor.Threads.Producing.{Producer, ProducerPc, writing}
use low_latency_showcase.Disruptor.Threads.Consuming.{Consumer}
use low_latency_showcase.Disruptor.Threads.System.{Threads}
use low_latency_showcase.Disruptor.Threads.Invariant.{pending, done, IsConsumer}
use low_latency_showcase.Disruptor.Threads.Checking.{InStep}
use low_latency_showcase.Disruptor.Threads.Taking.{IsReadable}
use low_latency_showcase.Disruptor.Threads.Inv.{LogStep}
use low_latency_showcase.Disruptor.Threads.Others.{
  done-Within, cursors-pending, pending-advance, pending-kept, IsProducer-advance,
}
use low_latency_showcase.Disruptor.Weak.System.{Weak}
use low_latency_showcase.Disruptor.Weak.Clocks.{IsOrders, acquired-le}

-- The events of the running call that are written.
abbrev pub written {ℓ} : {A : Type ℓ} → ProducerPc A → ℕ
written (writing count writer index) = index
written _ = 0

-- The position that a location announces last.
abbrev pub current {ℓ} : {A : Type ℓ} → Log A → ℕ → ℕ
current l zero = l.tail
current l (suc i) = get_or l.cursors i 0

-- The position of a thread's next access of a slot.
abbrev pub next_access {ℓ κ} : {A : Type ℓ} {S : Type κ} → Threads A S → Log A → ℕ → ℕ
next_access s l zero = l.tail + written s.producer.pc
next_access s l (suc i) = get_or l.cursors i 0 + done (s.consumers i).pc

module _ {ℓ κ} {A : Type ℓ} {S : Type κ} where
  abbrev pub with_producer : Weak A S → Producer A → Weak A S
  with_producer s p = record s { system = record s.system { producer = p } }

  abbrev pub with_consumer : Weak A S → ℕ → Consumer S → Weak A S
  with_consumer s i c = record s {
    system = record s.system { consumers = update s.system.consumers i c };
  }

module _ {ℓ κ} {A : Type ℓ} {S : Type κ} {capacity : ℕ} (ok : IsCapacity capacity)
    (consumer_count : ℕ) (default : A) (handler : ℕ → S → A → ℕ → S) (first : ℕ) (s₀ : S) where
  pub record WeakView (s : Weak A S) (l : Log A) : Type (ℓ ⊔ κ) where
    pub at : ℕ → ℕ → ℕ
    pub base : ℕ → ℕ → ℕ
    pub orders :
        IsOrders
          (suc consumer_count)
          capacity
          first
          s.orders
          at
          base
          (current l)
          (next_access s.system l)
    pub counted : length l.cursors ≡ consumer_count
    pub cursor_words : s.system.memory.consumers ≡ positions l.cursors
    pub known : List ℕ
    pub known_counted : length known ≡ consumer_count
    pub knows : (i : ℕ) → i < consumer_count → get_or known i 0 ≤ base 0 (suc i)
    pub producer :
        InStep ok consumer_count default
          (record s.system.memory { consumers = positions known }, s.system.producer)
          (record l { cursors = known })
    pub consumers :
        (i : ℕ)
        → i < consumer_count
        → IsConsumer capacity consumer_count default handler first s₀ i
            (s.system.consumers i)
            (record l { tail = base (suc i) 0 })

  -- Where a step leads: a log one step on, with which the threads are in step.
  abbrev pub WeakOnward : Log A → Weak A S → Type (ℓ ⊔ κ)
  WeakOnward l t = (l' : Log A) × LogStep capacity l l' × WeakView t l'

  module _ {s : Weak A S} {l : Log A} (v : WeakView s l) where
    -- What the producer knows of a consumer is not past it, and what a consumer knows of the
    -- publication is published.
    pub known-le : (i : ℕ) → i < consumer_count → get_or v.known i 0 ≤ get_or l.cursors i 0
    known-le i lt = omega (
      arith,
      v.knows i lt,
      acquired-le (suc consumer_count) capacity first 0 (suc i) (omega arith) (omega arith)
          v.orders,
    )

    pub base-le : (i : ℕ) → i < consumer_count → v.base (suc i) 0 ≤ l.tail
    base-le i lt =
        acquired-le (suc consumer_count) capacity first (suc i) 0 (omega arith) (omega arith)
          v.orders

    pub behind-base : (i : ℕ) → i < consumer_count → get_or l.cursors i 0 ≤ v.base (suc i) 0
    behind-base i lt =
        let c = v.consumers i lt in omega (arith, rw c.own at c.handle.behind, c.handle.published)

    -- What a consumer has read is published.
    pub read-le :
        (i : ℕ)
        → i < consumer_count
        → get_or l.cursors i 0 + done (s.system.consumers i).pc ≤ l.tail
    read-le i lt =
        let c = v.consumers i lt in
        let published = c.handle.published in
        omega (
          arith,
          done-Within (s.system.consumers i).pc (get_or l.cursors i 0) c.boundary c.within
              (rw c.own at c.handle.behind),
          base-le i lt,
        )

    abbrev pending_stale : Log A
    pending_stale = pending capacity default s.system.producer.pc (record l { cursors = v.known })

    same_known : pending_stale.cursors ≡ v.known
    same_known =
        cursors-pending capacity default s.system.producer.pc (record l { cursors = v.known })

    pub known-near :
        (i : ℕ)
        → i < consumer_count
        → (get_or v.known i 0 ≤ l.tail) × (pending_stale.tail ≤ get_or v.known i 0 + capacity)
    known-near i lt =
        let inside : i < length pending_stale.cursors = rw (same_known, v.known_counted) lt in
        rw same_known at (All-get_or _ pending_stale.cursors i 0 v.producer.0.within inside)

    -- The producer with a later position of a consumer.
    pub later-InStep :
        (i to : ℕ)
        → i < consumer_count
        → get_or v.known i 0 ≤ to
        → to ≤ l.tail
        → InStep ok consumer_count default
            (record s.system.memory { consumers = positions (set v.known i to) }, s.system.producer)
            (record l { cursors = set v.known i to })
    later-InStep i to lt up below =
        let (memory, producer) = v.producer in
        let inside : i < length v.known = rw v.known_counted lt in
        let stale : Log A = record l { cursors = v.known } in
        let pend = pending capacity default s.system.producer.pc stale in
        (
          rw (pending-advance capacity default s.system.producer.pc stale (set v.known i to))
              (record {
                size = memory.size;
                tail_word = memory.tail_word;
                cursor_words = refl;
                started = memory.started;
                ordered = memory.ordered;
                within =
                    All-set _ v.known i to (rw same_known at memory.within)
                      (below, omega (arith, known-near i lt));
                slots = memory.slots;
              }),
          IsProducer-advance capacity default stale i to up s.system.producer inside producer,
        )

    -- What a consumer finds behind a boundary that it may know of.
    pub stale-IsReadable :
        (i b : ℕ)
        → i < consumer_count
        → v.base (suc i) 0 ≤ b
        → b ≤ l.tail
        → IsReadable capacity default
            (record s.system.memory { published = b % word })
            (record l { tail = b })
            (pending capacity default s.system.producer.pc (record l { cursors = v.known }))
            i
    stale-IsReadable i b lt up below =
        let (memory, producer) = v.producer in
        let stale : Log A = record l { cursors = v.known } in
        let le = behind-base i lt in
        let near = (known-near i lt).1 in
        let ordered = memory.ordered in
        record {
          tail_word = refl;
          behind = omega arith;
          ordered = omega arith;
          held = omega (arith, known-le i lt, near);
          slots = memory.slots;
          kept = λ x lt'. pending-kept capacity default s.system.producer.pc stale x (omega arith);
        }
