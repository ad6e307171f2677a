-- ===== src/Sockets/Stream.antt =====
-- Stream transfers: `send_all`, and the three ways to receive an exact number of bytes.
pub mod Send
pub mod Receive
pub mod Deadline
use low_latency_showcase.Prelude.{
  ℕ, zero, suc, ◌+◌, ◌-◌, Bool, true, false, List, [], ◌∷◌, ◌++◌, Option, none, some, length, take,
  drop, ltb, leb, if◌then◌else◌,
}
use low_latency_showcase.Words.{add64, sub64}
use low_latency_showcase.Sockets.Types.{
  Errno, eintr, epipe, would_block, StreamReceiveState, complete, stopped, peer_closed, error,
  StreamReceiveResult, SendResult,
}
use low_latency_showcase.Sockets.Kernel.{Calls, Transfer, moved, Chunk, chunk}
use low_latency_showcase.Sockets.Kernel
use low_latency_showcase.Sockets.Loop.{Next, again, done, run_loop}

-- The branches behind the call of `send`.
unfoldable pub after_send : SendResult → Transfer → Next SendResult
after_send r (moved (suc n)) = again (record r { bytes_sent = add64 r.bytes_sent (suc n) })
after_send r (moved zero) = done (record r { error_code = some epipe })
after_send r (Kernel.Transfer.failed eintr) = again r
after_send r (Kernel.Transfer.failed e) = done (record r { error_code = some e })

-- A span of bytes that is being filled, with the result so far.
pub record Filling : Type 0 where
  pub result : StreamReceiveResult
  pub buffer : List ℕ

-- A write of `bytes` into the buffer from `offset` on.
unfoldable pub store : List ℕ → ℕ → List ℕ → List ℕ
store buffer offset bytes = take offset buffer ++ bytes ++ drop (offset + length bytes) buffer

unfoldable pub finish : Filling → StreamReceiveState → Option Errno → Next Filling
finish f state e = done (record f { result = record f.result { state = state; error_code = e } })

unfoldable pub progress : Filling → List ℕ → Filling
unfolding store
progress f bytes = record {
  result = record f.result { bytes_received = add64 f.result.bytes_received (length bytes) };
  buffer = store f.buffer f.result.bytes_received bytes;
}

-- The branches behind the call of `recv` in `receive_exact_blocking`.
unfoldable pub after_recv_blocking : Filling → Chunk → Next Filling
unfolding finish progress
after_recv_blocking f (chunk []) = finish f peer_closed f.result.error_code
after_recv_blocking f (chunk (b ∷ bytes)) = again (progress f (b ∷ bytes))
after_recv_blocking f (Kernel.Chunk.failed eintr) = again f
after_recv_blocking f (Kernel.Chunk.failed e) = finish f error (some e)

module _ {K : Type 0} (calls : Calls K) (descriptor : ℕ) where
  module _ (bytes : List ℕ) where
    unfoldable pub send_step : SendResult → K → Next SendResult × K
    unfolding after_send
    send_step r k =
        if ltb r.bytes_sent (length bytes)
        then (let (outcome, k') = calls.send descriptor (drop r.bytes_sent bytes) k in
            (after_send r outcome, k'))
        else (done r, k)

    unfoldable pub send_all : ℕ → K → Option (SendResult × K)
    unfolding send_step
    send_all fuel k = run_loop send_step fuel (record { bytes_sent = 0; error_code = none }) k

  unfoldable pub remaining : Filling → ℕ
  remaining f = sub64 (length f.buffer) f.result.bytes_received

  unfoldable pub blocking_step : Filling → K → Next Filling × K
  unfolding after_recv_blocking finish remaining
  blocking_step f k =
      if ltb f.result.bytes_received (length f.buffer)
      then (let (outcome, k') = calls.recv descriptor (remaining f) false k in
          (after_recv_blocking f outcome, k'))
      else (finish f complete f.result.error_code, k)

  -- `stream_receive_result result{}`: a value-initialised state is the first one.
  unfoldable pub unfilled : List ℕ → Filling
  unfilled buffer = record {
    result = record { state = complete; bytes_received = 0; error_code = none };
    buffer = buffer;
  }

  unfoldable pub receive_exact_blocking : ℕ → List ℕ → K → Option (Filling × K)
  unfolding blocking_step unfilled
  receive_exact_blocking fuel buffer k = run_loop blocking_step fuel (unfilled buffer) k

  -- The caller's predicate decides between going round again and stopping.
  unfoldable pub unless_stopped : Filling → K → Next Filling × K
  unfolding finish
  unless_stopped f k =
      let (stop, k') = calls.stop_requested k in
      (if stop then finish f stopped f.result.error_code else again f, k')

  -- The branches behind the call of `recv` in `receive_exact_busy_spin`. `spin_wait.wait()` is a
  -- PAUSE instruction, which changes nothing.
  unfoldable pub after_recv_spinning : Filling → Chunk → K → Next Filling × K
  unfolding finish progress unless_stopped
  after_recv_spinning f (chunk []) k = (finish f peer_closed f.result.error_code, k)
  after_recv_spinning f (chunk (b ∷ bytes)) k = (again (progress f (b ∷ bytes)), k)
  after_recv_spinning f (Kernel.Chunk.failed eintr) k = unless_stopped f k
  after_recv_spinning f (Kernel.Chunk.failed e) k =
      if would_block e then unless_stopped f k else (finish f error (some e), k)

  unfoldable pub spinning_step : Filling → K → Next Filling × K
  unfolding after_recv_spinning finish remaining
  spinning_step f k =
      if ltb f.result.bytes_received (length f.buffer)
      then (let (outcome, k') = calls.recv descriptor (remaining f) true k in
          after_recv_spinning f outcome k')
      else (finish f complete f.result.error_code, k)

  unfoldable pub receive_exact_busy_spin : ℕ → List ℕ → K → Option (Filling × K)
  unfolding spinning_step unfilled
  receive_exact_busy_spin fuel buffer k = run_loop spinning_step fuel (unfilled buffer) k

module _ {K : Type 0} (calls : Calls K) (now : K → ℕ × K) (deadline : ℕ) where
  -- `[deadline] { return Clock::now() >= deadline; }` as the stop predicate.
  unfoldable pub stop_at_deadline : Calls K
  stop_at_deadline = record calls {
    stop_requested = λ k. let (time, k') = now k in (leb deadline time, k');
  }

  unfoldable pub receive_exact_busy_spin_until : ℕ → ℕ → List ℕ → K → Option (Filling × K)
  unfolding receive_exact_busy_spin stop_at_deadline
  receive_exact_busy_spin_until descriptor fuel buffer k =
      receive_exact_busy_spin stop_at_deadline descriptor fuel buffer k
