-- ===== src/Sockets/Tests/Messages.antt =====
-- The datagram and option theorems at work, on a socket that is interrupted and not ready first.
use low_latency_showcase.Prelude.{
  ℕ, zero, suc, ◌≤◌, ◌<◌, ◌≡◌, ◌||◌, refl, Bool, true, false, not, List, [], ◌∷◌, ◌++◌, none,
  length, take, ltb, arith, subst,
}
use low_latency_showcase.Sockets.Types.{Errno, eintr, eagain, einval, Endpoint}
use low_latency_showcase.Sockets.Kernel.{
  Calls, Transfer, moved, Datagram, Message, message, Packet, SendsPacket, ReceivesPackets,
}
use low_latency_showcase.Sockets.Kernel
use low_latency_showcase.Sockets.Loop.{Returns}
use low_latency_showcase.Sockets.Datagram.{
  is_eintr, send_connected_datagram, send_datagram_to, receive_datagram_once,
  receive_datagram_busy_spin,
}
use low_latency_showcase.Sockets.Datagram.Send.{
  Dispatched, send_connected_datagram-Returns, send_datagram_to-Returns,
}
use low_latency_showcase.Sockets.Datagram.Receive.{
  Leaving, reported, receive_datagram_once-Returns, receive_datagram_busy_spin-Returns,
}
use low_latency_showcase.Sockets.Options.{
  ℤ, pos, SocketOption, stored, OptionCalls, is_nonzero, is_negative, exceeds_int, tcp_nodelay,
  so_busy_poll, configure_tcp_no_delay, configure_busy_poll_budget,
}
use low_latency_showcase.Sockets.Options.Readback.{
  ReadsOptions, Successful, configure_tcp_no_delay-Successful,
  configure_busy_poll_budget-Successful,
}

-- The interruptions to come, the messages sent, and the messages waiting.
abbrev Wire : Type 0
Wire = ℕ × List Packet × List Packet

abbrev interruptions : Wire → ℕ
interruptions (patience, sent, queue) = patience

abbrev sent_packets : Wire → List Packet
sent_packets (patience, sent, queue) = sent

abbrev waiting : Wire → List Packet
waiting (patience, sent, queue) = queue

abbrev near : Endpoint
near = record { family = 2; port = 9000; address = 1 }

abbrev labelled : Endpoint → List ℕ → Packet
labelled origin bytes = record { origin = origin; bytes = bytes }

abbrev wire_send : List ℕ → Endpoint → Wire → Transfer × Wire
wire_send bytes target (suc patience, sent, queue) =
    (Kernel.Transfer.failed eintr, (patience, sent, queue))
wire_send bytes target (zero, sent, queue) =
    (moved (length bytes), (zero, sent ++ labelled target (take (length bytes) bytes) ∷ [], queue))

abbrev wire_recvmsg : ℕ → Wire → Message × Wire
wire_recvmsg size (suc patience, sent, queue) =
    (Kernel.Message.failed eintr, (patience, sent, queue))
wire_recvmsg size (zero, sent, []) = (Kernel.Message.failed eagain, (zero, sent, []))
wire_recvmsg size (zero, sent, p ∷ queue) = (
  message (record {
    payload = take size p.bytes;
    wire_bytes = length p.bytes;
    peer = p.origin;
    peer_length = 16;
    truncated_flag = ltb size (length p.bytes);
    other_flags = 0;
  }),
  (zero, sent, queue),
)

abbrev wire_stop : Wire → Bool × Wire
wire_stop (suc patience, sent, queue) = (false, (patience, sent, queue))
wire_stop (zero, sent, queue) = (true, (zero, sent, queue))

abbrev wire : Calls Wire
wire = record {
  send = λ descriptor bytes k. wire_send bytes near k;
  sendto = λ descriptor bytes target k. wire_send bytes target k;
  recv = λ descriptor size dont_wait k. (Kernel.Chunk.failed einval, k);
  recvmsg = λ descriptor size dont_wait k. wire_recvmsg size k;
  stop_requested = wire_stop;
}

abbrev Sends : List ℕ → Endpoint → Wire → Transfer × Wire → Type 0
Sends bytes target k (moved n, k') =
    (n ≤ length bytes) × (sent_packets k' ≡ sent_packets k ++ labelled target (take n bytes) ∷ [])
Sends bytes target k (Kernel.Transfer.failed e, k') =
    (sent_packets k' ≡ sent_packets k) × (interruptions k' < interruptions k)

wire_send-Sends :
    (bytes : List ℕ) (target : Endpoint) (k : Wire)
    → Sends bytes target k (wire_send bytes target k)
wire_send-Sends bytes target (suc patience, sent, queue) = (refl, omega arith)
wire_send-Sends bytes target (zero, sent, queue) = (omega arith, refl)

wire-SendsPacket :
    (bytes : List ℕ) (target : Endpoint)
    → SendsPacket (wire_send bytes target) bytes (labelled target) sent_packets interruptions
wire-SendsPacket bytes target = record {
  at_most = λ k e. (subst (Sends bytes target k) e (wire_send-Sends bytes target k)).0;
  adds = λ k e. (subst (Sends bytes target k) e (wire_send-Sends bytes target k)).1;
  keeps = λ k e. (subst (Sends bytes target k) e (wire_send-Sends bytes target k)).0;
  tires = λ k e. (subst (Sends bytes target k) e (wire_send-Sends bytes target k)).1;
}

abbrev Tires : Errno → ℕ → ℕ → Type 0
Tires eintr m n = m < n
Tires _ m n = m ≤ n

abbrev Receives : ℕ → Wire → Message × Wire → Type 0
Receives size k (message d, k') =
    (p : Packet) × (waiting k ≡ p ∷ waiting k')
    × (d.payload ≡ take size p.bytes)
    × (d.wire_bytes ≡ length p.bytes)
    × (d.peer ≡ p.origin)
    × (d.truncated_flag ≡ ltb size (length p.bytes))
Receives size k (Kernel.Message.failed e, k') =
    (waiting k' ≡ waiting k) × Tires e (interruptions k') (interruptions k)

wire_recvmsg-Receives : (size : ℕ) (k : Wire) → Receives size k (wire_recvmsg size k)
wire_recvmsg-Receives size (suc patience, sent, queue) = (refl, omega arith)
wire_recvmsg-Receives size (zero, sent, []) = (refl, omega arith)
wire_recvmsg-Receives size (zero, sent, p ∷ queue) = (p, refl, refl, refl, refl, refl)

abbrev Calms : Wire → Message × Wire → Type 0
Calms k x = interruptions x.1 ≤ interruptions k

wire_recvmsg-Calms : (size : ℕ) (k : Wire) → Calms k (wire_recvmsg size k)
wire_recvmsg-Calms size (suc patience, sent, queue) = omega arith
wire_recvmsg-Calms size (zero, sent, []) = omega arith
wire_recvmsg-Calms size (zero, sent, p ∷ queue) = omega arith

abbrev Asks : Wire → Bool × Wire → Type 0
Asks k (stop, k') = (waiting k' ≡ waiting k) × ((stop ≡ false) → interruptions k' < interruptions k)

wire_stop-Asks : (k : Wire) → Asks k (wire_stop k)
wire_stop-Asks (suc patience, sent, queue) = (refl, λ e. omega arith)
wire_stop-Asks (zero, sent, queue) = (refl, λ e. cc)

wire-ReceivesPackets : ReceivesPackets wire 4 waiting interruptions
wire-ReceivesPackets = record {
  takes = λ n w k e. subst (Receives n k) e (wire_recvmsg-Receives n k);
  keeps = λ n w k e. (subst (Receives n k) e (wire_recvmsg-Receives n k)).0;
  unread = λ k e. (subst (Asks k) e (wire_stop-Asks k)).0;
  calm = λ n w k e. subst (Calms k) e (wire_recvmsg-Calms n k);
  tires = λ n w k e. (subst (Receives n k) e (wire_recvmsg-Receives n k)).1;
  stops = λ k e. (subst (Asks k) e (wire_stop-Asks k)).1 refl;
}

abbrev greeting : List ℕ
greeting = 7 ∷ 8 ∷ 9 ∷ []

abbrev far : Endpoint
far = record { family = 2; port = 9001; address = 2 }

abbrev ready : Wire
ready = (1, [], labelled far greeting ∷ [])

abbrev short_buffer : List ℕ
short_buffer = 0 ∷ 0 ∷ []

connected_send_test :
    Returns
      (λ r k. Dispatched (labelled near) greeting [] (sent_packets k) r)
      (send_connected_datagram wire 4 3 greeting ready)
connected_send_test =
    send_connected_datagram-Returns wire 4 greeting near (labelled near) sent_packets interruptions
      ready 3 (omega arith) (wire-SendsPacket greeting near)

send_datagram_to-Returns_example :
    Returns
      (λ r k. Dispatched (labelled far) greeting [] (sent_packets k) r)
      (send_datagram_to wire 4 3 greeting far ready)
send_datagram_to-Returns_example =
    send_datagram_to-Returns wire 4 greeting far (labelled far) sent_packets interruptions ready 3
      (omega arith) (wire-SendsPacket greeting far)

receive_datagram_once-Returns_example :
    Returns
      (λ a k.
        Leaving (reported true) true false short_buffer (waiting ready) (waiting k) a
        × (interruptions k ≤ 1))
      (receive_datagram_once wire 4 true true 3 short_buffer ready)
receive_datagram_once-Returns_example =
    receive_datagram_once-Returns wire 4 waiting interruptions wire-ReceivesPackets short_buffer
      true true ready 3 (omega arith)

receive_datagram_busy_spin-Returns_example :
    Returns
      (λ a k. Leaving (λ e. not (is_eintr e)) false true short_buffer (waiting ready) (waiting k) a)
      (receive_datagram_busy_spin wire 4 3 short_buffer ready)
receive_datagram_busy_spin-Returns_example =
    receive_datagram_busy_spin-Returns wire 4 waiting interruptions wire-ReceivesPackets
      short_buffer 3 ready (omega arith)

-- A kernel that stores what it is given: the value of TCP_NODELAY, and the busy-poll budget.
abbrev Settings : Type 0
Settings = ℤ × ℤ

abbrev setting : SocketOption → Settings → ℤ
setting so_busy_poll (no_delay, budget) = budget
setting _ (no_delay, budget) = no_delay

abbrev assign : SocketOption → ℤ → Settings → Settings
assign tcp_nodelay value (no_delay, budget) = (value, budget)
assign so_busy_poll value (no_delay, budget) = (no_delay, value)
assign _ value k = k

abbrev settings : OptionCalls Settings
settings = record {
  getsockopt = λ descriptor name k. (stored (setting name k) 4, k);
  setsockopt = λ descriptor name value k. (none, assign name value k);
}

settings-ReadsOptions : ReadsOptions settings 5 setting
settings-ReadsOptions = record { reads = λ name k e. cc }

tcp_no_delay_holds :
    Successful
      (λ b k'. (b ≡ true) × (is_nonzero (setting tcp_nodelay k') ≡ true))
      (configure_tcp_no_delay settings 5 true (pos 0, pos 0))
tcp_no_delay_holds =
    configure_tcp_no_delay-Successful settings 5 setting settings-ReadsOptions true (pos 0, pos 0)

configure_busy_poll_budget-Successful_example :
    Successful
      (λ v k'.
        ((is_negative (pos 50) || exceeds_int (pos 50)) ≡ false)
        × (v ≡ pos 50)
        × (setting so_busy_poll k' ≡ pos 50))
      (configure_busy_poll_budget settings 5 (pos 50) (pos 0, pos 0))
configure_busy_poll_budget-Successful_example =
    configure_busy_poll_budget-Successful settings 5 setting settings-ReadsOptions (pos 50)
      (pos 0, pos 0)
