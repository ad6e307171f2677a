-- ===== src/Disruptor/Weak/Orders.antt =====
-- What the memory orders of the accesses promise: which stores a load may read, and which accesses
-- happen before which. In the calls of the handles every atomic store is a release and every load an
-- acquire.
use low_latency_showcase.Prelude.{ℕ, ◌+◌, ◌≤◌, update, max}

-- Thread 0 is the producer and thread `suc i` the one of consumer `i`; location 0 is `published_`
-- and location `suc i` is `consumers_[i]`. Each location is stored to by the thread of its number
-- alone, so its modification order is the order of that thread's stores.

-- A store, with the accesses of slots that happen before it: for each thread, how many of its first
-- ones.
pub record Store : Type 0 where
  pub value : ℕ
  pub clock : ℕ → ℕ

-- The stores to a location in modification order; `last` is the index of the latest.
pub record Location : Type 0 where
  pub stored : ℕ → Store
  pub last : ℕ

-- What a thread knows: for each location the index of the store that it read last, how many
-- accesses of slots by each other thread happen before it, and how many it has made itself.
pub record Knowledge : Type 0 where
  pub seen : ℕ → ℕ
  pub clock : ℕ → ℕ
  pub accesses : ℕ

-- `last_access t x` numbers the latest access of slot `x` by thread `t`, from 1; 0 is for none.
pub record Orders : Type 0 where
  pub locations : ℕ → Location
  pub threads : ℕ → Knowledge
  pub last_access : ℕ → ℕ → ℕ

-- The next access of the shared memory that a thread makes.
pub data Access : Type 0 where
  quiet : Access
  load : ℕ → Access
  touch : ℕ → Access
  announce : Access

-- A load may read any store that is not before the one that the thread read last of the location.
abbrev pub MayRead : Orders → ℕ → Access → ℕ → Type 0
MayRead o t (load u) k = ((o.threads t).seen u ≤ k) × (k ≤ (o.locations u).last)
MayRead o t Access.quiet k = Unit
MayRead o t (touch x) k = Unit
MayRead o t Access.announce k = Unit

-- An acquire load of store `k`: what happens before the store happens before what follows.
unfoldable pub acquire_load : ℕ → ℕ → ℕ → Orders → Orders
acquire_load t u k o =
    let w = o.threads t in
    record o {
      threads = update o.threads t (record w {
        seen = update w.seen u k;
        clock = λ v. max (w.clock v) (((o.locations u).stored k).clock v);
      });
    }

-- A release store of the thread to its own location.
unfoldable pub release_store : ℕ → ℕ → Orders → Orders
release_store t value o =
    let w = o.threads t in
    let h = o.locations t in
    record o {
      locations = update o.locations t (record {
        stored =
            update h.stored (h.last + 1)
              (record { value = value; clock = update w.clock t w.accesses });
        last = h.last + 1;
      });
    }

-- A plain access of a slot.
unfoldable pub access_slot : ℕ → ℕ → Orders → Orders
access_slot t x o =
    let w = o.threads t in
    record o {
      threads = update o.threads t (record w { accesses = w.accesses + 1 });
      last_access = update o.last_access t (update (o.last_access t) x (w.accesses + 1));
    }

-- An access of thread `t`; `k` is the store that a load reads, and `value` is what a store stores.
unfoldable pub perform : ℕ → Access → ℕ → ℕ → Orders → Orders
unfolding acquire_load release_store access_slot
perform t Access.quiet k value o = o
perform t (load u) k value o = acquire_load t u k o
perform t (touch x) k value o = access_slot t x o
perform t Access.announce k value o = release_store t value o

-- The last access of slot `x` by thread `u` happens before what thread `t` does next.
abbrev pub Ordered : Orders → ℕ → ℕ → ℕ → Type 0
Ordered o u t x = o.last_access u x ≤ (o.threads t).clock u

-- Before any access: each location holds the value that the constructor stored.
unfoldable pub no_accesses : ℕ → Orders
no_accesses value = record {
  locations = λ _. record { stored = λ _. record { value = value; clock = λ _. 0 }; last = 0 };
  threads = λ _. record { seen = λ _. 0; clock = λ _. 0; accesses = 0 };
  last_access = λ _ _. 0;
}
