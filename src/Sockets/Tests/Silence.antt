-- ===== src/Sockets/Tests/Silence.antt =====
-- The deadline of an exact receive, on a peer that never sends.
use low_latency_showcase.Prelude.{ℕ, suc, ◌≡◌, refl, List, [], ◌∷◌, false, ap, arith}
use low_latency_showcase.Sockets.Types.{eagain, einval}
use low_latency_showcase.Sockets.Kernel.{Calls, ReceivesStream, Ticks, Chunk}
use low_latency_showcase.Sockets.Kernel
use low_latency_showcase.Sockets.Loop.{Returns}
use low_latency_showcase.Sockets.Stream.{stop_at_deadline, receive_exact_busy_spin_until}
use low_latency_showcase.Sockets.Stream.Receive.{Spun}
use low_latency_showcase.Sockets.Stream.Deadline.{
  Late, time_left, deadline_stream, stop_at_deadline-StopsAtLast,
  receive_exact_busy_spin_until-Returns,
}

-- The state is the time.
abbrev silence : Calls ℕ
silence = record {
  send = λ descriptor bytes k. (Kernel.Transfer.failed einval, k);
  sendto = λ descriptor bytes endpoint k. (Kernel.Transfer.failed einval, k);
  recv = λ descriptor size dont_wait k. (Kernel.Chunk.failed eagain, k);
  recvmsg = λ descriptor size dont_wait k. (Kernel.Message.failed eagain, k);
  stop_requested = λ k. (false, k);
}

abbrev now : ℕ → ℕ × ℕ
now k = (k, suc k)

abbrev nothing : ℕ → List ℕ
nothing k = []

abbrev the_time : ℕ → ℕ
the_time k = k

now-Ticks : Ticks now nothing the_time
now-Ticks = record {
  shows = λ k {k'} {t} e. let q : k ≡ t = ap (λ x. x.0) e in omega arith;
  ticks = λ k {k'} {t} e. let q : suc k ≡ k' = ap (λ x. x.1) e in omega arith;
  unread = λ k e. refl;
}

silence-ReceivesStream :
    ReceivesStream silence 3 nothing (time_left silence now 9 3 nothing the_time now-Ticks)
silence-ReceivesStream = record {
  at_most = λ n w k e. cc;
  stores = λ n w k e. cc;
  keeps = λ n w k e. refl;
  calm = λ n w k {k'} {x} e. let q : k ≡ k' = ap (λ y. y.1) e in omega arith;
}

abbrev blank : List ℕ
blank = 0 ∷ 0 ∷ []

receive_exact_busy_spin_until-Returns_example :
    Returns
      (Spun
        (stop_at_deadline silence now 9)
        3
        nothing
        (time_left silence now 9 3 nothing the_time now-Ticks)
        (deadline_stream silence now 9 3 nothing the_time now-Ticks silence-ReceivesStream blank
          (omega arith)
          5)
        blank
        (omega arith)
        5
        (Late silence now 9 3 nothing the_time now-Ticks)
        (stop_at_deadline-StopsAtLast silence now 9 3 nothing the_time now-Ticks))
      (receive_exact_busy_spin_until silence now 9 3 7 blank 5)
receive_exact_busy_spin_until-Returns_example =
    receive_exact_busy_spin_until-Returns silence now 9 3 nothing the_time now-Ticks
      silence-ReceivesStream blank (omega arith) 5 7 (omega arith)
