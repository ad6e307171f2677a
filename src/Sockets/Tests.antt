-- ===== src/Sockets/Tests.antt =====
-- The socket theorems at work, on a pipe that moves two bytes at a time and is interrupted first.
mod Messages
mod Silence
mod Settings
use low_latency_showcase.Prelude.{
  ℕ, zero, suc, ◌-◌, ◌≤◌, ◌<◌, ◌≡◌, refl, min, Bool, true, false, List, [], ◌∷◌, ◌++◌, length, take,
  drop, length-take, arith, subst,
}
use low_latency_showcase.Sockets.Types.{Errno, eintr, eagain, einval, would_block, Endpoint}
use low_latency_showcase.Sockets.Kernel.{
  Calls, Transfer, moved, Chunk, chunk, SendsPrefix, ReceivesStream, TiresBlocking, StopsAtLast,
}
use low_latency_showcase.Sockets.Kernel
use low_latency_showcase.Sockets.Loop.{Returns}
use low_latency_showcase.Sockets.Stream.{send_all, receive_exact_blocking, receive_exact_busy_spin}
use low_latency_showcase.Sockets.Stream.Send.{Reports, send_all-Returns}
use low_latency_showcase.Sockets.Stream.Receive.{
  Received, Spun, receive_exact_blocking-Returns, receive_exact_busy_spin-Returns,
}

-- The interruptions to come, what was sent or received, and what is still to be received.
abbrev Pipe : Type 0
Pipe = ℕ × List ℕ × List ℕ

abbrev interruptions : Pipe → ℕ
interruptions (patience, through, pending) = patience

abbrev carried : Pipe → List ℕ
carried (patience, through, pending) = through

abbrev pipe_send : List ℕ → Pipe → Transfer × Pipe
pipe_send bytes (suc patience, through, pending) =
    (Kernel.Transfer.failed eintr, (patience, through, pending))
pipe_send bytes (zero, through, pending) =
    (moved (min 2 (length bytes)), (zero, through ++ take (min 2 (length bytes)) bytes, pending))

abbrev pipe_recv : ℕ → Bool → Pipe → Chunk × Pipe
pipe_recv size false (suc patience, through, pending) =
    (Kernel.Chunk.failed eintr, (patience, through, pending))
pipe_recv size true (suc patience, through, pending) =
    (Kernel.Chunk.failed eagain, (suc patience, through, pending))
pipe_recv size dont_wait (zero, through, pending) = (
  chunk (take (min 2 size) pending),
  (zero, through ++ take (min 2 size) pending, drop (min 2 size) pending),
)

abbrev pipe_stop : Pipe → Bool × Pipe
pipe_stop (suc patience, through, pending) = (false, (patience, through, pending))
pipe_stop (zero, through, pending) = (true, (zero, through, pending))

abbrev pipe : Calls Pipe
pipe = record {
  send = λ descriptor bytes k. pipe_send bytes k;
  sendto = λ descriptor bytes endpoint k. pipe_send bytes k;
  recv = λ descriptor size dont_wait k. pipe_recv size dont_wait k;
  recvmsg = λ descriptor size dont_wait k. (Kernel.Message.failed einval, k);
  stop_requested = pipe_stop;
}

-- Every call leaves a state that its result determines: the laws below read it off by cases.
abbrev Sends : List ℕ → Pipe → Transfer × Pipe → Type 0
Sends bytes k (moved n, k') =
    (n ≤ length bytes)
    × (carried k' ≡ carried k ++ take n bytes)
    × (interruptions k' ≤ interruptions k)
Sends bytes k (Kernel.Transfer.failed e, k') =
    (carried k' ≡ carried k) × (interruptions k' < interruptions k)

pipe_send-Sends : (bytes : List ℕ) (k : Pipe) → Sends bytes k (pipe_send bytes k)
pipe_send-Sends bytes (suc patience, through, pending) = (refl, omega arith)
pipe_send-Sends bytes (zero, through, pending) = (omega arith, refl, omega arith)

pipe-SendsPrefix : SendsPrefix pipe 3 carried interruptions
pipe-SendsPrefix = record {
  at_most = λ bytes k e. (subst (Sends bytes k) e (pipe_send-Sends bytes k)).0;
  takes = λ bytes k e. (subst (Sends bytes k) e (pipe_send-Sends bytes k)).1;
  keeps = λ bytes k e. (subst (Sends bytes k) e (pipe_send-Sends bytes k)).0;
  calm = λ bytes k e. (subst (Sends bytes k) e (pipe_send-Sends bytes k)).2;
  tires = λ bytes k e. (subst (Sends bytes k) e (pipe_send-Sends bytes k)).1;
}

abbrev TiresOn : Bool → ℕ → ℕ → Type 0
TiresOn false m n = m < n
TiresOn true m n = m ≤ n

abbrev Receives : ℕ → Bool → Pipe → Chunk × Pipe → Type 0
Receives size dont_wait k (chunk bytes, k') =
    (length bytes ≤ size) × (carried k' ≡ carried k ++ bytes) × (interruptions k' ≤ interruptions k)
Receives size dont_wait k (Kernel.Chunk.failed e, k') =
    (carried k' ≡ carried k)
    × (interruptions k' ≤ interruptions k)
    × TiresOn dont_wait (interruptions k') (interruptions k)

pipe_recv-Receives :
    (size : ℕ) (dont_wait : Bool) (k : Pipe)
    → Receives size dont_wait k (pipe_recv size dont_wait k)
pipe_recv-Receives size false (suc patience, through, pending) = (refl, omega arith, omega arith)
pipe_recv-Receives size true (suc patience, through, pending) = (refl, omega arith, omega arith)
pipe_recv-Receives size false (zero, through, pending) =
    (omega (arith, length-take (min 2 size) pending), refl, omega arith)
pipe_recv-Receives size true (zero, through, pending) =
    (omega (arith, length-take (min 2 size) pending), refl, omega arith)

abbrev Calms : Chunk × Pipe → Pipe → Type 0
Calms x k = interruptions x.1 ≤ interruptions k

pipe_recv-Calms : (size : ℕ) (dont_wait : Bool) (k : Pipe) → Calms (pipe_recv size dont_wait k) k
pipe_recv-Calms size false (suc patience, through, pending) = omega arith
pipe_recv-Calms size true (suc patience, through, pending) = omega arith
pipe_recv-Calms size false (zero, through, pending) = omega arith
pipe_recv-Calms size true (zero, through, pending) = omega arith

-- The pipe's predicate stops once there are no more interruptions.
abbrev OutOfPatience : Pipe → Type 0
OutOfPatience k = interruptions k ≡ 0

abbrev Asks : Pipe → Bool × Pipe → Type 0
Asks k (stop, k') =
    (carried k' ≡ carried k)
    × ((stop ≡ false) → interruptions k' < interruptions k)
    × ((stop ≡ true) → OutOfPatience k')

pipe_stop-Asks : (k : Pipe) → Asks k (pipe_stop k)
pipe_stop-Asks (suc patience, through, pending) = (refl, (λ e. omega arith), (λ e. cc))
pipe_stop-Asks (zero, through, pending) = (refl, (λ e. cc), (λ e. refl))

pipe-ReceivesStream : ReceivesStream pipe 3 carried interruptions
pipe-ReceivesStream = record {
  at_most = λ n w k e. (subst (Receives n w k) e (pipe_recv-Receives n w k)).0;
  stores = λ n w k e. (subst (Receives n w k) e (pipe_recv-Receives n w k)).1;
  keeps = λ n w k e. (subst (Receives n w k) e (pipe_recv-Receives n w k)).0;
  calm = λ n w k e. subst (λ x. Calms x k) e (pipe_recv-Calms n w k);
}

pipe-TiresBlocking : TiresBlocking pipe 3 interruptions
pipe-TiresBlocking = record {
  tires = λ n k e. (subst (Receives n false k) e (pipe_recv-Receives n false k)).2;
}

pipe-StopsAtLast : StopsAtLast pipe carried interruptions OutOfPatience
pipe-StopsAtLast = record {
  asks = λ k e. (subst (Asks k) e (pipe_stop-Asks k)).2 refl;
  unread = λ k e. (subst (Asks k) e (pipe_stop-Asks k)).0;
  stops = λ k e. (subst (Asks k) e (pipe_stop-Asks k)).1 refl;
}

abbrev payload : List ℕ
payload = 1 ∷ 2 ∷ 3 ∷ 4 ∷ 5 ∷ []

abbrev writing : Pipe
writing = (2, [], [])

abbrev reading : Pipe
reading = (2, [], payload)

abbrev blank : List ℕ
blank = 0 ∷ 0 ∷ 0 ∷ []

send_all-Returns_example :
    Returns
      (λ r k. Reports payload r × (carried k ≡ [] ++ take r.bytes_sent payload))
      (send_all pipe 3 payload 10 writing)
send_all-Returns_example =
    send_all-Returns pipe 3 payload (omega arith) carried interruptions pipe-SendsPrefix writing 10
      (omega arith)

receive_exact_blocking-Returns_example :
    Returns
      (Received pipe 3 carried interruptions pipe-ReceivesStream blank (omega arith) reading)
      (receive_exact_blocking pipe 3 10 blank reading)
receive_exact_blocking-Returns_example =
    receive_exact_blocking-Returns pipe 3 carried interruptions pipe-ReceivesStream blank
      (omega arith) reading pipe-TiresBlocking 10 (omega arith)

receive_exact_busy_spin-Returns_example :
    Returns
      (Spun pipe 3 carried interruptions pipe-ReceivesStream blank
        (omega arith)
        reading
        OutOfPatience
        pipe-StopsAtLast)
      (receive_exact_busy_spin pipe 3 10 blank reading)
receive_exact_busy_spin-Returns_example =
    receive_exact_busy_spin-Returns pipe 3 carried interruptions pipe-ReceivesStream blank
      (omega arith) reading OutOfPatience pipe-StopsAtLast 10 (omega arith)
