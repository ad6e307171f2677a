-- ===== src/SocketLatency.antt =====
-- benchmarks/scenarios/socket-latency/socket_latency.cpp: the wire message, and the order of the
-- workloads.
pub mod Header
pub mod Williams
mod Tests
use low_latency_showcase.Prelude.{
  ℕ, zero, suc, ◌+◌, ◌*◌, ◌/◌, ◌%◌, ◌^◌, Bool, ◌&&◌, List, [], ◌∷◌, ◌++◌, take, drop, Option, none,
  some, ◌==◌, if◌then◌else◌,
}

pub data Protocol : Type 0 where
  tcp udp : Protocol

-- `static_cast<std::uint8_t>(protocol)`
unfoldable pub protocol_byte : Protocol → ℕ
protocol_byte tcp = 1
protocol_byte udp = 2

abbrev pub message_magic : ℕ
message_magic = 19539

abbrev pub message_version : ℕ
message_version = 1

-- `htons` and `htonl` followed by `memcpy`: the most significant byte comes first. An exception is
-- `none`.
unfoldable pub write_header : List ℕ → Protocol → ℕ → Option (List ℕ)
unfolding protocol_byte
write_header (b₀ ∷ b₁ ∷ b₂ ∷ b₃ ∷ b₄ ∷ b₅ ∷ b₆ ∷ b₇ ∷ body) selected_protocol sequence = some (
    message_magic / 256
    ∷ message_magic % 256
    ∷ message_version
    ∷ protocol_byte selected_protocol
    ∷ sequence / 16777216 % 256
    ∷ sequence / 65536 % 256
    ∷ sequence / 256 % 256
    ∷ sequence % 256
    ∷ body)
write_header _ selected_protocol sequence = none

unfoldable pub read_sequence : List ℕ → Protocol → Option ℕ
unfolding protocol_byte
read_sequence (b₀ ∷ b₁ ∷ b₂ ∷ b₃ ∷ b₄ ∷ b₅ ∷ b₆ ∷ b₇ ∷ body) expected_protocol =
    if (b₀ * 256 + b₁ == message_magic)
      && (b₂ == message_version)
      && (b₃ == protocol_byte expected_protocol)
    then some (((b₄ * 256 + b₅) * 256 + b₆) * 256 + b₇)
    else none
read_sequence _ expected_protocol = none

-- The loop of `initialize_message` from `index` on.
unfoldable pub fill_body : ℕ → List ℕ → List ℕ
fill_body index [] = []
fill_body index (b ∷ bytes) = (index * 17 + 165) % 256 ∷ fill_body (index + 1) bytes

unfoldable pub initialize_message : List ℕ → Protocol → Option (List ℕ)
unfolding write_header fill_body
initialize_message bytes selected_protocol = elim (write_header bytes selected_protocol 0) [
  | none ↦ none
  | some out ↦ some (take 8 out ++ fill_body 8 (drop 8 out))
]
