-- ===== src/Sockets/Datagram.antt =====
-- Whole datagrams: the two sends, one receive attempt, and the busy-spinning receive.
pub mod Send
pub mod Receive
use low_latency_showcase.Prelude.{
  ℕ, zero, suc, Bool, true, false, ◌&&◌, List, Option, none, some, length, ◌==◌, if◌then◌else◌,
}
use low_latency_showcase.Sockets.Types.{
  Errno, eintr, emsgsize, would_block, SendResult, Endpoint, DatagramReceiveState, received,
  not_ready, DatagramReceiveResult,
}
use low_latency_showcase.Sockets.Types
use low_latency_showcase.Sockets.Kernel.{Calls, Transfer, moved, Datagram, Message, message}
use low_latency_showcase.Sockets.Kernel
use low_latency_showcase.Sockets.Loop.{Next, again, done, proceed, run_loop}
use low_latency_showcase.Sockets.Stream.{store, stop_at_deadline}

unfoldable pub is_eintr : Errno → Bool
is_eintr eintr = true
is_eintr _ = false

-- The do-while loop of both sends, and the branches behind it, for a payload of `size` bytes.
unfoldable pub after_datagram : ℕ → SendResult → Transfer → Next SendResult
after_datagram size r (moved n) =
    done (record { bytes_sent = n; error_code = if n == size then r.error_code else some emsgsize })
after_datagram size r (Kernel.Transfer.failed eintr) = again r
after_datagram size r (Kernel.Transfer.failed e) = done (record r { error_code = some e })

unfoldable pub datagram_send_step :
    {K : Type 0} → (K → Transfer × K) → ℕ → SendResult → K → Next SendResult × K
unfolding after_datagram
datagram_send_step call size r k = let (outcome, k') = call k in (after_datagram size r outcome, k')

unfoldable pub send_datagram :
    {K : Type 0} → (K → Transfer × K) → ℕ → ℕ → K → Option (SendResult × K)
unfolding datagram_send_step
send_datagram call size fuel k =
    run_loop (datagram_send_step call size) fuel (record { bytes_sent = 0; error_code = none }) k

-- A receive attempt: its result so far, and the caller's buffer.
pub record Arrival : Type 0 where
  pub result : DatagramReceiveResult
  pub buffer : List ℕ

-- `datagram_receive_result result{}`: a value-initialised state is the first one.
unfoldable pub no_arrival : List ℕ → Arrival
no_arrival buffer = record {
  result = record {
    state = received;
    wire_bytes = 0;
    peer = record { family = 0; port = 0; address = 0 };
    peer_length = 0;
    truncated_flag = false;
    other_flags = 0;
    error_code = none;
  };
  buffer = buffer;
}

unfoldable pub arrive : Arrival → Datagram → Arrival
unfolding store
arrive a d = record {
  result = record a.result {
    state = received;
    wire_bytes = d.wire_bytes;
    peer = d.peer;
    peer_length = d.peer_length;
    truncated_flag = d.truncated_flag;
    other_flags = d.other_flags;
  };
  buffer = store a.buffer 0 d.payload;
}

unfoldable pub leave : Arrival → DatagramReceiveState → Option Errno → Arrival
leave a state e = record a { result = record a.result { state = state; error_code = e } }

-- The branches behind the call of `recvmsg`.
unfoldable pub after_recvmsg : Bool → Bool → Arrival → Message → Next Arrival
unfolding arrive leave is_eintr
after_recvmsg dont_wait retry_interrupted a (message d) = done (arrive a d)
after_recvmsg dont_wait retry_interrupted a (Kernel.Message.failed e) =
    if is_eintr e && retry_interrupted
    then again a
    else if dont_wait && would_block e
    then done (leave a not_ready a.result.error_code)
    else done (leave a Types.DatagramReceiveState.error (some e))

-- `result.state != not_ready`, and the interrupted error that goes round again.
unfoldable pub is_not_ready : DatagramReceiveState → Bool
is_not_ready not_ready = true
is_not_ready _ = false

unfoldable pub is_interrupted : DatagramReceiveState → Option Errno → Bool
is_interrupted Types.DatagramReceiveState.error (some eintr) = true
is_interrupted _ _ = false

module _ {K : Type 0} (calls : Calls K) (descriptor : ℕ) where
  unfoldable pub send_connected_datagram : ℕ → List ℕ → K → Option (SendResult × K)
  unfolding send_datagram
  send_connected_datagram fuel bytes k =
      send_datagram (calls.send descriptor bytes) (length bytes) fuel k

  unfoldable pub send_datagram_to : ℕ → List ℕ → Endpoint → K → Option (SendResult × K)
  unfolding send_datagram
  send_datagram_to fuel bytes destination k =
      send_datagram (calls.sendto descriptor bytes destination) (length bytes) fuel k

  module _ (dont_wait retry_interrupted : Bool) where
    unfoldable pub datagram_step : Arrival → K → Next Arrival × K
    unfolding after_recvmsg
    datagram_step a k =
        let (outcome, k') = calls.recvmsg descriptor (length a.buffer) dont_wait k in
        (after_recvmsg dont_wait retry_interrupted a outcome, k')

    unfoldable pub receive_datagram_once : ℕ → List ℕ → K → Option (Arrival × K)
    unfolding datagram_step no_arrival
    receive_datagram_once fuel buffer k = run_loop datagram_step fuel (no_arrival buffer) k

  unfoldable pub receive_datagram_blocking : ℕ → List ℕ → K → Option (Arrival × K)
  unfolding receive_datagram_once
  receive_datagram_blocking = receive_datagram_once false true

  unfoldable pub try_receive_datagram : ℕ → List ℕ → K → Option (Arrival × K)
  unfolding receive_datagram_once
  try_receive_datagram = receive_datagram_once true true

  -- The caller's predicate decides between going round again and stopping.
  unfoldable pub ask_stop : Arrival → Option Errno → K → Next Arrival × K
  unfolding leave
  ask_stop a e k =
      let (stop, k') = calls.stop_requested k in
      (if stop then done (leave a Types.DatagramReceiveState.stopped e) else again a, k')

  -- The body of the loop behind the attempt; `spin_wait.wait()` changes nothing.
  unfoldable pub after_attempt : Arrival × K → Next Arrival × K
  unfolding ask_stop is_not_ready is_interrupted
  after_attempt (a, k) =
      if is_not_ready a.result.state
      then ask_stop a a.result.error_code k
      else if is_interrupted a.result.state a.result.error_code
      then ask_stop a none k
      else (done a, k)

  unfoldable pub spin_on :
      (List ℕ → K → Option (Arrival × K)) → Option (Arrival × K) → Option (Arrival × K)
  unfolding after_attempt
  spin_on rest none = none
  spin_on rest (some out) = proceed (λ a k. rest a.buffer k) (after_attempt out)

  unfoldable pub receive_datagram_busy_spin : ℕ → List ℕ → K → Option (Arrival × K)
  unfolding spin_on receive_datagram_once
  receive_datagram_busy_spin zero buffer k = none
  receive_datagram_busy_spin (suc fuel) buffer k =
      spin_on (receive_datagram_busy_spin fuel)
        (receive_datagram_once true false (suc fuel) buffer k)

module _ {K : Type 0} (calls : Calls K) (now : K → ℕ × K) (deadline : ℕ) where
  unfoldable pub receive_datagram_busy_spin_until : ℕ → ℕ → List ℕ → K → Option (Arrival × K)
  unfolding receive_datagram_busy_spin stop_at_deadline
  receive_datagram_busy_spin_until descriptor fuel buffer k =
      receive_datagram_busy_spin (stop_at_deadline calls now deadline) descriptor fuel buffer k
