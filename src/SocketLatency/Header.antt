-- ===== src/SocketLatency/Header.antt =====
-- A header that was written is read back, by the same protocol only.
use low_latency_showcase.Prelude.{
  ℕ, ◌+◌, ◌*◌, ◌/◌, ◌%◌, ◌^◌, ◌≤◌, ◌<◌, ◌≡◌, ◌≢◌, refl, true, false, List, ◌∷◌, none, some, length,
  drop, arith, ◌==◌,
}
use low_latency_showcase.SocketLatency.{
  Protocol, tcp, udp, protocol_byte, write_header, read_sequence,
}

from_bytes :
    (s : ℕ)
    → s < 2 ^ 32
    → ((s / 16777216 % 256 * 256 + s / 65536 % 256) * 256 + s / 256 % 256) * 256 + s % 256 ≡ s
from_bytes s small = omega arith

protocol_byte-differs : (p q : Protocol) → q ≢ p → (protocol_byte p == protocol_byte q) ≡ false
unfolding protocol_byte
protocol_byte-differs tcp tcp h = absurd (h refl)
protocol_byte-differs tcp udp h = refl
protocol_byte-differs udp tcp h = refl
protocol_byte-differs udp udp h = absurd (h refl)

-- `write_header` accepts every buffer of at least eight bytes; the message has the buffer's length
-- and its bytes from the ninth on, and `read_sequence` gets every 32-bit sequence back from it for
-- the protocol that was written, and rejects it for any other.
pub read_sequence-write_header :
    (bytes : List ℕ) (p : Protocol) (sequence : ℕ)
    → 8 ≤ length bytes
    → sequence < 2 ^ 32
    → (out : List ℕ) × (write_header bytes p sequence ≡ some out)
      × (length out ≡ length bytes)
      × (drop 8 out ≡ drop 8 bytes)
      × (read_sequence out p ≡ some sequence)
      × ((q : Protocol) → q ≢ p → read_sequence out q ≡ none)
unfolding write_header read_sequence
read_sequence-write_header (a ∷ b ∷ c ∷ d ∷ e ∷ f ∷ g ∷ h ∷ body) p sequence long small =
    let same : (protocol_byte p == protocol_byte p) ≡ true = ground arith in
    (
      _,
      refl,
      refl,
      refl,
      rw (same, from_bytes sequence small) refl,
      λ q differs. rw (protocol_byte-differs p q differs) refl,
    )
read_sequence-write_header _ p sequence long small = absurd (omega arith)
