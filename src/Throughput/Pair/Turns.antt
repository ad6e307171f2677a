-- ===== src/Throughput/Pair/Turns.antt =====
-- What a turn keeps and what it gets done.
use low_latency_showcase.Prelude.{
  ℕ, ◌+◌, ◌*◌, ◌%◌, ◌≤◌, ◌<◌, ◌≡◌, refl, ap, ◌⊎◌, inl, inr, Bool, true, false, arith, Bool-cases,
  ltb, dec_lt,
}
use native.Mathlib.Nat.{mul-zero}
use low_latency_showcase.Words.{word}
use low_latency_showcase.Throughput.Channel.{Channel, sum_below}
use low_latency_showcase.Throughput.Pair.{
  Pair, Turn, producer_turn, consumer_turn, producer_step, consumer_step, step, begin,
}

module _ {Q : Type 0} (events : ℕ) (channel : Channel events Q) where
  pub record Inv (p : Pair Q) : Type 0 where
    pub holds : channel.Holds p.queue p.consumed p.published
    pub behind : p.consumed ≤ p.published
    pub bounded : p.published ≤ events
    pub summed : p.checksum ≡ channel.weight * sum_below p.consumed % word

  abbrev pub bit : Bool → ℕ
  bit true = 1
  bit false = 0

  -- What has been done.
  abbrev pub work_done : Pair Q → ℕ
  work_done p = bit p.ready + bit p.start + p.published + p.consumed

  -- Whether a turn has something to do.
  abbrev Enabled : Turn → Bool → Bool → ℕ → ℕ → Type 0
  Enabled producer_turn ready start published consumed =
      ((start ≡ false) × (ready ≡ true))
      ⊎ ((start ≡ true) × (published < events) × (consumed ≡ published))
  Enabled consumer_turn ready start published consumed =
      (ready ≡ false) ⊎ ((ready ≡ true) × (start ≡ true) × (consumed < published))

  abbrev pub IsEnabled : Turn → Pair Q → Type 0
  IsEnabled t p = Enabled t p.ready p.start p.published p.consumed

  -- A turn keeps the invariant, takes nothing back, and does something if it is enabled.
  pub record Turned (t : Turn) (p q : Pair Q) : Type 0 where
    pub inv : Inv q
    pub flags : bit p.ready ≤ bit q.ready × bit p.start ≤ bit q.start
    pub more_published : p.published ≤ q.published
    pub more_consumed : p.consumed ≤ q.consumed
    pub moves : IsEnabled t p → work_done p < work_done q

  pub begin-Inv : Inv (begin events channel)
  unfolding begin sum_below
  begin-Inv = record {
    holds = channel.new-Holds;
    behind = omega arith;
    bounded = omega arith;
    summed = rw mul-zero refl;
  }

  module _ (p : Pair Q) (v : Inv p) where
    -- A turn with nothing to do.
    idle : (t : Turn) → (IsEnabled t p → ⊥) → Turned t p p
    idle t never = record {
      inv = v;
      flags = (omega arith, omega arith);
      more_published = omega arith;
      more_consumed = omega arith;
      moves = λ e. absurd (never e);
    }

    pub producer-Turned : Turned producer_turn p (producer_step events channel p)
    unfolding producer_step
    producer-Turned = elim (Bool-cases p.start) [
      | inl started ↦ simp started (elim (Bool-cases (ltb p.published events)) [
        | inl more ↦
            let (n, q) = channel.produce p.published p.queue in
            let (holds, bounded, some) =
              channel.produces p.queue p.consumed p.published v.holds (ground arith) in
            simp more (record {
              inv = record {
                holds = holds;
                behind = omega (arith, v.behind);
                bounded = bounded;
                summed = v.summed;
              };
              flags = (omega arith, omega (arith, ap bit started));
              more_published = omega arith;
              more_consumed = omega arith;
              moves = λ e. elim e [
                | inl not_started ↦ cc
                | inr (s, lt, empty) ↦ omega (arith, some empty, ap bit started)
              ];
            })
        | inr done ↦ simp done (
            idle producer_turn
              (λ e. elim e [ inl early ↦ cc | inr (on, lt, empty) ↦ ground (arith, done) ]))
      ])
      | inr waiting ↦ simp waiting (elim (Bool-cases p.ready) [
        | inl ready ↦ simp ready (record {
          inv = record {
            holds = v.holds;
            behind = v.behind;
            bounded = v.bounded;
            summed = v.summed;
          };
          flags = (omega (arith, ap bit ready), rw waiting (omega arith));
          more_published = omega arith;
          more_consumed = omega arith;
          moves = λ e. rw waiting (omega (arith, ap bit ready));
        })
        | inr early ↦
            simp early
              (idle producer_turn (λ e. elim e [ inl (off, on) ↦ cc | inr (on, lt, empty) ↦ cc ]))
      ])
    ]

    pub consumer-Turned : Turned consumer_turn p (consumer_step events channel p)
    unfolding consumer_step
    consumer-Turned = elim (Bool-cases p.ready) [
      | inr early ↦ simp early (record {
        inv = record { holds = v.holds; behind = v.behind; bounded = v.bounded; summed = v.summed };
        flags = (rw early (omega arith), omega arith);
        more_published = omega arith;
        more_consumed = omega arith;
        moves = λ e. rw early (omega arith);
      })
      | inl ready ↦ simp ready (elim (Bool-cases p.start) [
        | inr waiting ↦
            simp waiting
              (idle consumer_turn (λ e. elim e [ inl off ↦ cc | inr (on, started, lt) ↦ cc ]))
        | inl started ↦ simp started (elim (Bool-cases (ltb p.consumed events)) [
          | inl more ↦
              let (n, q, checksum) = channel.consume p.queue p.checksum in
              let (holds, bounded, summed, some) =
                channel.consumes p.queue p.consumed p.published p.checksum v.holds v.summed in
              simp more (record {
                inv = record {
                  holds = holds;
                  behind = bounded;
                  bounded = v.bounded;
                  summed = summed;
                };
                flags = (omega (arith, ap bit ready), omega (arith, ap bit started));
                more_published = omega arith;
                more_consumed = omega arith;
                moves = λ e. elim e [
                  | inl not_ready ↦ cc
                  | inr (r, s, lt) ↦ omega (arith, some lt, ap bit ready, ap bit started)
                ];
              })
          | inr done ↦ simp done (
              idle consumer_turn
                (λ e. elim e [ inl off ↦ cc | inr (on, s, lt) ↦ ground (arith, done, v.bounded) ]))
        ])
      ])
    ]

    pub step-Turned : (t : Turn) → Turned t p (step events channel t p)
    unfolding step
    step-Turned producer_turn = producer-Turned
    step-Turned consumer_turn = consumer-Turned

    -- Unless everything is consumed, some turn is enabled.
    pub some-IsEnabled : p.consumed < events → (t : Turn) × IsEnabled t p
    some-IsEnabled left = elim (Bool-cases p.ready) [
      | inr early ↦ (consumer_turn, inl early)
      | inl ready ↦ elim (Bool-cases p.start) [
        | inr waiting ↦ (producer_turn, inl (waiting, ready))
        | inl started ↦ elim (dec_lt p.consumed p.published) [
          | yes more ↦ (consumer_turn, inr (ready, started, more))
          | no level ↦
              let same : p.consumed ≡ p.published = omega (arith, v.behind) in
              (producer_turn, inr (started, omega arith, same))
        ]
      ]
    ]

  bit-same : (b c : Bool) → bit b ≡ bit c → b ≡ c
  bit-same true true e = refl
  bit-same false false e = refl
  bit-same true false e = absurd (omega arith)
  bit-same false true e = absurd (omega arith)

  -- A turn stays enabled until something is done.
  pub IsEnabled-kept :
      (t u : Turn) (p q : Pair Q)
      → Turned u p q
      → work_done q ≤ work_done p
      → IsEnabled t p
      → IsEnabled t q
  IsEnabled-kept t u p q turned idle_turn enabled =
      let (ready, start) = turned.flags in
      let same_ready =
        bit-same p.ready q.ready (omega (arith, turned.more_published, turned.more_consumed)) in
      let same_start =
        bit-same p.start q.start (omega (arith, turned.more_published, turned.more_consumed)) in
      let same_published : p.published ≡ q.published = omega (arith, turned.more_consumed) in
      let same_consumed : p.consumed ≡ q.consumed = omega (arith, turned.more_published) in
      rw (← same_ready, ← same_start, ← same_published, ← same_consumed) enabled
