-- ===== src/Sockets/Types.antt =====
-- low_latency_sockets.hpp: the results that the calls return.
use low_latency_showcase.Prelude.{ℕ, Bool, true, false, ◌&&◌, ◌||◌, Option, none, some, ltb, ◌==◌}

-- The values of `errno`, and of the error codes made from `std::errc`, that the code tells apart.
pub data Errno : Type 0 where
  eintr eagain ewouldblock eproto einval epipe emsgsize : Errno
  other : ℕ → Errno

-- `errno == EAGAIN || errno == EWOULDBLOCK`
unfoldable pub would_block : Errno → Bool
would_block eagain = true
would_block ewouldblock = true
would_block _ = false

pub data StreamReceiveState : Type 0 where
  complete stopped peer_closed error : StreamReceiveState

-- An empty `std::error_code` is `none`.
pub record StreamReceiveResult : Type 0 where
  pub state : StreamReceiveState
  pub bytes_received : ℕ
  pub error_code : Option Errno

pub record SendResult : Type 0 where
  pub bytes_sent : ℕ
  pub error_code : Option Errno

-- `send_result::complete`
unfoldable pub is_complete : SendResult → ℕ → Bool
is_complete r expected_bytes = elim r.error_code [
  | none ↦ r.bytes_sent == expected_bytes
  | some e ↦ false
]

pub data DatagramReceiveState : Type 0 where
  received not_ready stopped error : DatagramReceiveState

-- `sockaddr_in`
pub record Endpoint : Type 0 where
  pub family : ℕ
  pub port : ℕ
  pub address : ℕ

-- `message_flags` is read for one bit only, MSG_TRUNC; the rest of it is `other_flags`.
pub record DatagramReceiveResult : Type 0 where
  pub state : DatagramReceiveState
  pub wire_bytes : ℕ
  pub peer : Endpoint
  pub peer_length : ℕ
  pub truncated_flag : Bool
  pub other_flags : ℕ
  pub error_code : Option Errno

unfoldable pub is_received : DatagramReceiveState → Bool
is_received received = true
is_received _ = false

-- `datagram_receive_result::truncated`
unfoldable pub is_truncated : DatagramReceiveResult → ℕ → Bool
unfolding is_received
is_truncated r buffer_bytes =
    is_received r.state && (r.truncated_flag || ltb buffer_bytes r.wire_bytes)

-- `socket_option_result`: a value, or the error of a failure.
pub data SocketOptionResult {ℓ} (V : Type ℓ) : Type ℓ where
  success : V → SocketOptionResult V
  failure : Errno → SocketOptionResult V

unfoldable pub value_or {ℓ} : {V : Type ℓ} → SocketOptionResult V → V → V
value_or (success v) fallback = v
value_or (failure e) fallback = fallback
