-- ===== src/Sockets/Stream/Deadline.antt =====
-- `receive_exact_busy_spin_until`: the clock alone makes it return.
use low_latency_showcase.Prelude.{
  ℕ, ◌+◌, ◌-◌, ◌≤◌, ◌<◌, ◌≡◌, refl, List, length, arith, leb, subst, ap, sym, ◌∙◌, Bool,
}
use low_latency_showcase.Words.{word}
use low_latency_showcase.Sockets.Kernel.{Calls, ReceivesStream, StopsAtLast, Ticks}
use low_latency_showcase.Sockets.Loop.{Returns}
use low_latency_showcase.Sockets.Stream.{stop_at_deadline, receive_exact_busy_spin_until}
use low_latency_showcase.Sockets.Stream.Receive.{Spun, receive_exact_busy_spin-Returns}

module _ {K : Type 0} (calls : Calls K) (now : K → ℕ × K) (deadline descriptor : ℕ)
    (delivered : K → List ℕ) (time : K → ℕ) (clock : Ticks now delivered time) where
  -- The deadline has passed.
  abbrev pub Late : K → Type 0
  Late k = deadline ≤ time k

  -- The time that is left.
  abbrev pub time_left : K → ℕ
  time_left k = deadline - time k

  -- A test against the deadline takes the time and leaves it later.
  deadline_test :
      (k : K) {b : Bool} {k' : K}
      → (stop_at_deadline calls now deadline).stop_requested k ≡ (b, k')
      → (b ≡ leb deadline (time k)) × (time k < time k') × (delivered k' ≡ delivered k)
  unfolding stop_at_deadline
  deadline_test k e =
      let q : (now k).1 ≡ _ = ap (λ x. x.1) e in
      (
        sym (ap (λ x. x.0) e) ∙ ap (leb deadline) (clock.shows k refl),
        subst (λ k''. time k < time k'') q (clock.ticks k refl),
        subst (λ k''. delivered k'' ≡ delivered k) q (clock.unread k refl),
      )

  pub stop_at_deadline-StopsAtLast :
      StopsAtLast (stop_at_deadline calls now deadline) delivered time_left Late
  stop_at_deadline-StopsAtLast = record {
    asks = λ k e. let (late, later, _) = deadline_test k e in ground arith;
    unread = λ k e. (deadline_test k e).2;
    stops = λ k e. let (early, later, _) = deadline_test k e in ground arith;
  }

  module _ (stream : ReceivesStream calls descriptor delivered time_left) (buffer : List ℕ)
      (sized : length buffer < word) (k₀ : K) where
    pub deadline_stream :
        ReceivesStream (stop_at_deadline calls now deadline) descriptor delivered time_left
    unfolding stop_at_deadline
    deadline_stream = record {
      at_most = stream.at_most;
      stores = stream.stores;
      keeps = stream.keeps;
      calm = stream.calm;
    }

    -- `receive_exact_busy_spin_until` returns even if the peer never sends, for a buffer of less
    -- than 2^64 bytes, the laws of the stream, a clock that each reading leaves later and that
    -- `recv` does not turn back, and more fuel than the bytes of the buffer and the time left to
    -- the deadline. The bytes that the stream has delivered meanwhile are at the front of the
    -- buffer, in order, `bytes_received` counts them, and the rest of the buffer is as it was; the
    -- state is `complete` only if they fill the buffer, and any other only if they do not, with an
    -- error code for `error` alone, and `stopped` only if the deadline has passed.
    pub receive_exact_busy_spin_until-Returns :
        (fuel : ℕ)
        → length buffer + (deadline - time k₀) < fuel
        → Returns
            (Spun
              (stop_at_deadline calls now deadline)
              descriptor
              delivered
              time_left
              deadline_stream
              buffer
              sized
              k₀
              Late
              stop_at_deadline-StopsAtLast)
            (receive_exact_busy_spin_until calls now deadline descriptor fuel buffer k₀)
    unfolding receive_exact_busy_spin_until
    receive_exact_busy_spin_until-Returns fuel enough =
        receive_exact_busy_spin-Returns (stop_at_deadline calls now deadline) descriptor delivered
          time_left deadline_stream buffer sized k₀ Late stop_at_deadline-StopsAtLast fuel enough
