-- ===== src/Disruptor/Threads/TakingAlone.antt =====
-- A consumer's call whose moves no other thread's come between is the call as one step.
use low_latency_showcase.Prelude.{
  ℕ, zero, suc, ◌+◌, ◌≡◌, refl, sym, inl, inr, true, false, arith, Bool-cases, ltb, ◌==◌,
  if◌then◌else◌,
}
use low_latency_showcase.Words.{sub64, slot}
use low_latency_showcase.Disruptor.State.{Shared, ConsumerHandle}
use low_latency_showcase.Disruptor.Publish.{contiguous_count}
use low_latency_showcase.Disruptor.Consume.{
  read_span, read_two_spans, consume_cached, handle_consume_available,
}
use low_latency_showcase.Disruptor.Consume.Loop.{read_span-split}
use low_latency_showcase.Disruptor.Threads.Producing.{span_slot}
use low_latency_showcase.Disruptor.Threads.Consuming.{
  ConsumerPc, reading, Consumer, begin_read, begin_consume, load_published, read_move,
  store_position, consumer_pc_move, consumer_move,
}

module _ {ℓ κ} {A : Type ℓ} {S : Type κ} (capacity : ℕ) (default : A)
    (handler : S → A → ℕ → S) where
  unfoldable pub consumer_run : ℕ → Shared A × Consumer S → Shared A × Consumer S
  consumer_run zero x = x
  consumer_run (suc k) x = consumer_run k (consumer_move capacity default handler x.0 x.1)

  pub record Runs (x y : Shared A × Consumer S) : Type (ℓ ⊔ κ) where
    pub moves : ℕ
    pub leads : consumer_run moves x ≡ y

  Runs-refl : (x : Shared A × Consumer S) → Runs x x
  unfolding consumer_run
  Runs-refl x = record { moves = 0; leads = refl }

  Runs-cons :
      (x y : Shared A × Consumer S)
      → Runs (consumer_move capacity default handler x.0 x.1) y
      → Runs x y
  unfolding consumer_run
  Runs-cons x y r = record { moves = suc r.moves; leads = r.leads }

  module _ (count : ℕ) (m : Shared A) (h : ConsumerHandle) where
    abbrev given : ℕ → ℕ → S → S
    given n index s =
        read_span capacity default handler (span_slot capacity h.next_position count)
          h.next_position n index m.events s

    reading-Runs :
        (n index : ℕ) (s : S)
        → index + n ≡ count
        → Runs
            (m, record { handle = h; pc = reading count index; state = s })
            (store_position capacity default handler count m
              (record { handle = h; pc = reading count index; state = given n index s }))
    unfolding consumer_move consumer_pc_move read_span read_move store_position
    reading-Runs zero index s e =
        let stop : ltb index count ≡ false = ground arith in Runs-cons _ _ (rw stop (Runs-refl _))
    reading-Runs (suc n) index s e =
        let more : ltb index count ≡ true = ground arith in
        Runs-cons _ _ (rw more (reading-Runs n (index + 1) _ (omega arith)))

    given-eq-read_two_spans :
        (s : S)
        → given count 0 s ≡ read_two_spans capacity default handler h.next_position count m.events s
    unfolding read_two_spans span_slot contiguous_count
    given-eq-read_two_spans s =
        let first_index = slot capacity h.next_position in
        let contiguous = contiguous_count capacity first_index count in
        sym (
          read_span-split capacity default handler (span_slot capacity h.next_position count) _ _
            h.next_position contiguous count m.events s (ground arith) (λ j lt. ground arith)
            (λ j lo hi. ground arith))

  cached-Runs :
      (available max_count : ℕ) (m : Shared A) (h : ConsumerHandle) (s : S)
      → let (n, m', h', s') = consume_cached capacity default handler available max_count m h s in
        Runs
          (
            m,
            record {
              handle = h;
              pc = begin_read capacity default handler available max_count;
              state = s;
            },
          )
          (m', record { handle = h'; pc = ConsumerPc.returned n; state = s' })
  unfolding consume_cached begin_read
  cached-Runs available max_count m h s =
      let count = if ltb available max_count then available else max_count in
      rw (← given-eq-read_two_spans count m h s)
        (unfold store_position in reading-Runs count m h count 0 s (omega arith))

  -- On every memory and handle, a call of the handle's `consume_available`
  -- whose moves come with no other in between leaves the
  -- memory, the handle, the handler's state and the count of `handle_consume_available`.
  pub consume_alone :
      (max_count : ℕ) (m : Shared A) (h : ConsumerHandle) (pc : ConsumerPc) (s : S)
      → let (n, m', h', s') = handle_consume_available capacity default handler max_count m h s in
        Runs
          (
            m,
            begin_consume capacity default handler max_count
                (record { handle = h; pc = pc; state = s }),
          )
          (m', record { handle = h'; pc = ConsumerPc.returned n; state = s' })
  unfolding handle_consume_available begin_consume
  consume_alone max_count m h pc s = elim (Bool-cases (max_count == 0)) [
    | inl nothing ↦ rw nothing (Runs-refl _)
    | inr some ↦
        rw some (elim (Bool-cases (sub64 h.cached_published_position h.next_position == 0)) [
          | inl stale ↦ rw stale (
              Runs-cons _ _ (
                unfold consumer_move consumer_pc_move load_published in
                elim (Bool-cases (sub64 m.published h.next_position == 0)) [
                  | inl empty ↦ rw empty (Runs-refl _)
                  | inr more ↦ rw more (cached-Runs _ max_count m _ s)
                ]))
          | inr cached ↦ rw cached (cached-Runs _ max_count m h s)
        ])
  ]
