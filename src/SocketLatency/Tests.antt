-- ===== src/SocketLatency/Tests.antt =====
-- A header in a buffer of ten bytes, and the order of four workloads.
use low_latency_showcase.Prelude.{
  ℕ, ◌≡◌, ◌≢◌, refl, List, [], ◌∷◌, none, some, length, drop, replicate, arith,
}
use low_latency_showcase.SocketLatency.Williams.{
  williams_entry, williams_entries, williams_first_row, williams_first_row-follow_once,
}
use low_latency_showcase.SocketLatency.{Protocol, udp, write_header, read_sequence}
use low_latency_showcase.SocketLatency.Header.{read_sequence-write_header}

read_sequence-write_header_example :
    (out : List ℕ) × (write_header (replicate 10 7) udp 305419896 ≡ some out)
    × (length out ≡ 10)
    × (drop 8 out ≡ 7 ∷ 7 ∷ [])
    × (read_sequence out udp ≡ some 305419896)
    × ((q : Protocol) → q ≢ udp → read_sequence out q ≡ none)
read_sequence-write_header_example =
    read_sequence-write_header (replicate 10 7) udp 305419896 (omega arith) (omega arith)

williams_row : williams_first_row 4 ≡ some (0 ∷ 1 ∷ 3 ∷ 2 ∷ [])
unfolding williams_first_row williams_entries williams_entry
williams_row = refl

williams_odd : williams_first_row 3 ≡ none
unfolding williams_first_row
williams_odd = refl

williams_first_row-follow_once_example : ◌≡◌ {A = ℕ} 3 3 × ◌≡◌ {A = ℕ} 1 1
williams_first_row-follow_once_example =
    williams_first_row-follow_once 4 refl (omega arith) (0 ∷ 1 ∷ 3 ∷ 2 ∷ []) williams_row 3 3 1 1
      (omega arith) (omega arith) (omega arith) (omega arith) refl refl
