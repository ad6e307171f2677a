-- ===== src/Disruptor/Consume/Handle.antt =====
-- The handle's `consume_available`, with its cached boundary, takes what the log delivers.
use low_latency_showcase.Prelude.{
  ℕ, ◌+◌, ◌-◌, ◌%◌, ◌≤◌, min, ◌≡◌, refl, inl, inr, get_or, set, All-get_or, length-set,
  get_or-set_self, set-get_or_self, arith, Bool-cases, ltb, ◌==◌, if◌then◌else◌,
}
use low_latency_showcase.Words.{word, sub64, IsCapacity}
use low_latency_showcase.Disruptor.State.{Shared, ConsumerHandle}
use low_latency_showcase.Disruptor.Log
use low_latency_showcase.Disruptor.Log.{Log, deliver}
use low_latency_showcase.Disruptor.Invariant.{IsShared, IsHandle, sub64-positions}
use low_latency_showcase.Disruptor.Consume.{
  read_events, read_two_spans, consume_cached, handle_consume_available,
}
use low_latency_showcase.Disruptor.Consume.Refine.{Takes, take-Takes}
use low_latency_showcase.Disruptor.Consume.Loop.{read_two_spans-eq-read_events}

-- The boundary that a handle goes by: its cached one while that leaves an event, else the tail. A
-- call for no events does not look.
abbrev pub handle_boundary : ℕ → ℕ → ℕ → ℕ → ℕ
handle_boundary max_count boundary c tail =
    if max_count == 0 then boundary else if boundary - c == 0 then tail else boundary

module _ {ℓ κ} {A : Type ℓ} {S : Type κ} {capacity : ℕ} (ok : IsCapacity capacity) (default : A)
    (handler : S → A → ℕ → S) where
  -- As `Takes`, and the handle stays in step with its cursor.
  abbrev pub HandleTakes : ℕ → ℕ × Shared A × ConsumerHandle × S → ℕ × Log A × S → Type (ℓ ⊔ κ)
  HandleTakes boundary out out' =
      Takes ok default handler (out.0, out.1, out.3) out'
      × IsHandle capacity default out.2 boundary out'.1

  module _ {m : Shared A} {l : Log A} (v : IsShared capacity default m l) {h : ConsumerHandle}
      {boundary : ℕ} (w : IsHandle capacity default h boundary l) where
    abbrev i : ℕ
    i = h.consumer_index

    abbrev c : ℕ
    c = get_or l.cursors i 0

    abbrev near : (c ≤ l.tail) × (l.tail ≤ c + capacity)
    near = All-get_or _ l.cursors i 0 v.within w.index_in

    consume_cached-HandleTakes :
        (max_count available : ℕ) (s : S)
        → available ≡ boundary - c
        → HandleTakes boundary
            (consume_cached capacity default handler available max_count m h s)
            (Log.consume handler boundary i max_count l s)
    unfolding consume_cached Log.consume
    consume_cached-HandleTakes max_count available s e =
        let n = min max_count (boundary - c) in
        let count : (if ltb available max_count then available else max_count) ≡ n = ground arith in
        let spans : read_two_spans capacity default handler (c % word) n m.events s
            ≡ read_events capacity default handler (c % word) n m.events s =
          read_two_spans-eq-read_events ok default handler (c % word) n m.events s
            (omega (arith, near, w.published)) in
        let moved : get_or (set l.cursors i (c + n)) i 0 ≡ c + n =
          get_or-set_self l.cursors i (c + n) 0 w.index_in in
        rw (count, w.next_word, spans)
          (
            take-Takes ok default handler v i boundary max_count s w.index_in w.behind w.published,
            record {
              index_in = rw (length-set l.cursors i (c + n)) w.index_in;
              next_word = rw moved (omega arith);
              cached_word = w.cached_word;
              behind = rw moved (omega (arith, w.behind));
              published = w.published;
            },
          )

    none-HandleTakes :
        (b max_count : ℕ) {h' : ConsumerHandle} (s : S)
        → min max_count (b - c) ≡ 0
        → IsHandle capacity default h' b l
        → HandleTakes b (0, m, h', s) (Log.consume handler b i max_count l s)
    unfolding Log.consume deliver
    none-HandleTakes b max_count s e w' =
        let z : c + 0 ≡ c = omega arith in
        rw (e, z, set-get_or_self l.cursors i 0) ((refl, v, refl), w')

    -- The reload of the boundary.
    reloaded :
        IsHandle capacity default (record h { cached_published_position = m.published }) l.tail l
    reloaded = record {
      index_in = w.index_in;
      next_word = w.next_word;
      cached_word = v.tail_word;
      behind = near.0;
      published = omega arith;
    }

    distance : (p q : ℕ) → p ≡ q % word → c ≤ q → q ≤ l.tail → sub64 p h.next_position ≡ q - c
    distance p q e up down =
        rw (e, w.next_word)
          (sub64-positions q c capacity up (omega (arith, near)) (omega (arith, ok.small)))

  module _ {m : Shared A} {l : Log A} (v : IsShared capacity default m l) {h : ConsumerHandle}
      {boundary : ℕ} (w : IsHandle capacity default h boundary l) where
    -- For a memory and a consumer handle that stand for a log, the handle's `consume_available`
    -- takes the events below the boundary that it goes by, at most `max_count`, as the log's
    -- `consume` does: the boundary is the one that it has cached, and the log's tail once that is
    -- exhausted.
    pub handle_consume_available-HandleTakes :
        (max_count : ℕ) (s : S)
        → let b = handle_boundary max_count boundary (get_or l.cursors h.consumer_index 0) l.tail in
          HandleTakes b
            (handle_consume_available capacity default handler max_count m h s)
            (Log.consume handler b h.consumer_index max_count l s)
    unfolding handle_consume_available
    handle_consume_available-HandleTakes max_count s =
        let c = get_or l.cursors h.consumer_index 0 in
        let top = (near v w).0 in
        let cached =
          distance v w h.cached_published_position boundary w.cached_word w.behind w.published in
        let fresh = distance v w m.published l.tail v.tail_word top (omega arith) in
        rw (cached, fresh)
          (elim (Bool-cases (max_count == 0)) [
            | inl nothing ↦ rw nothing (none-HandleTakes v w boundary max_count s (ground arith) w)
            | inr something ↦ rw something (elim (Bool-cases (boundary - c == 0)) [
              | inr left ↦ rw left (consume_cached-HandleTakes v w max_count (boundary - c) s refl)
              | inl used ↦ rw used (elim (Bool-cases (l.tail - c == 0)) [
                | inl drained ↦
                    rw drained
                      (none-HandleTakes v w l.tail max_count s (ground arith) (reloaded v w))
                | inr more ↦
                    rw more
                      (consume_cached-HandleTakes v (reloaded v w) max_count (l.tail - c) s refl)
              ])
            ])
          ])

  -- A handle keeps its consumer index.
  pub consumer_index-handle_consume_available :
      (max_count : ℕ) (m : Shared A) (h : ConsumerHandle) (s : S)
      → (handle_consume_available capacity default handler max_count m h s).2.consumer_index
        ≡ h.consumer_index
  unfolding handle_consume_available consume_cached
  consumer_index-handle_consume_available max_count m h s = ground arith
