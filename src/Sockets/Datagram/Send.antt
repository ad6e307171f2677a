-- ===== src/Sockets/Datagram/Send.antt =====
-- `send_connected_datagram` and `send_datagram_to`: one message, whole, or an error.
use low_latency_showcase.Prelude.{
  ℕ, ◌<◌, ◌≡◌, refl, ap, ◌∙◌, ◌⊎◌, inl, inr, List, [], ◌∷◌, ◌++◌, none, some, length, take,
  take_all, arith, ◌==◌, Bool-cases,
}
use low_latency_showcase.Sockets.Types.{Errno, eintr, emsgsize, SendResult, Endpoint}
use low_latency_showcase.Sockets.Kernel.{Calls, Transfer, moved, SendsPacket}
use low_latency_showcase.Sockets.Kernel
use low_latency_showcase.Sockets.Loop.{Leaves, Smaller, Returns, run_loop-Returns}
use low_latency_showcase.Sockets.Datagram.{
  after_datagram, datagram_send_step, send_datagram, send_connected_datagram, send_datagram_to,
}

-- The whole message went out; or an error is reported, and nothing or a shorter message did.
abbrev pub Dispatched : {M : Type 0} → (List ℕ → M) → List ℕ → List M → List M → SendResult → Type 0
Dispatched packet bytes before after r =
    ((r.error_code ≡ none) × (r.bytes_sent ≡ length bytes) × (after ≡ before ++ packet bytes ∷ []))
    ⊎ ((e : Errno) × (r.error_code ≡ some e)
        × ((after ≡ before)
            ⊎ ((r.bytes_sent < length bytes)
                × (after ≡ before ++ packet (take r.bytes_sent bytes) ∷ []))))

module _ {K M : Type 0} (call : K → Transfer × K) (bytes : List ℕ) (packet : List ℕ → M)
    (sent : K → List M) (patience : K → ℕ) (sends : SendsPacket call bytes packet sent patience)
    (k₀ : K) where
  abbrev Waiting : SendResult → K → Type 0
  Waiting r k = (r.error_code ≡ none) × (sent k ≡ sent k₀)

  abbrev After : SendResult → K → Type 0
  After r k = Dispatched packet bytes (sent k₀) (sent k) r

  abbrev left : SendResult → K → ℕ
  left r k = patience k

  after_datagram-Leaves :
      (r : SendResult) (k : K)
      → Waiting r k
      → (x : Transfer × K) → call k ≡ x
      → Leaves (Smaller Waiting left (left r k)) After (after_datagram (length bytes) r x.0, x.1)
  unfolding after_datagram
  after_datagram-Leaves r k (clean, same) (moved n, k') e =
      let less = sends.at_most k e in
      let added = sends.adds k e in
      elim (Bool-cases (n == length bytes)) [
        | inl whole ↦ rw whole (
            inl (
              clean,
              ground arith,
              added
                  ∙ ap (λ ys. ys ++ packet (take n bytes) ∷ []) same
                  ∙ ap (λ b. sent k₀ ++ packet b ∷ []) (take_all n bytes (ground arith)),
            ))
        | inr cut ↦ rw cut (
            inr (
              emsgsize,
              refl,
              inr (ground arith, added ∙ ap (λ ys. ys ++ packet (take n bytes) ∷ []) same),
            ))
      ]
  after_datagram-Leaves r k (clean, same) (Kernel.Transfer.failed eintr, k') e =
      ((clean, sends.keeps k e ∙ same), sends.tires k e)
  after_datagram-Leaves r k (clean, same) (Kernel.Transfer.failed q, k') e =
      inr (_, refl, inl (sends.keeps k e ∙ same))

  pub send_datagram-Returns :
      (fuel : ℕ)
      → patience k₀ < fuel
      → Returns
          (λ r k. Dispatched packet bytes (sent k₀) (sent k) r)
          (send_datagram call (length bytes) fuel k₀)
  unfolding send_datagram datagram_send_step
  send_datagram-Returns fuel enough =
      run_loop-Returns Waiting After left (datagram_send_step call (length bytes))
        (λ r k w. after_datagram-Leaves r k w _ refl) fuel _ k₀ (refl, refl) enough

module _ {K M : Type 0} (calls : Calls K) (descriptor : ℕ) (bytes : List ℕ) (destination : Endpoint)
    (packet : List ℕ → M) (sent : K → List M) (patience : K → ℕ) (k₀ : K) (fuel : ℕ)
    (enough : patience k₀ < fuel) where
  -- `send_connected_datagram` returns, with enough fuel for the interruptions of its `send` to
  -- come: the whole payload went out as one message and no error is reported, or an error is
  -- reported and nothing went out, or a message of only the first `bytes_sent` bytes.
  pub send_connected_datagram-Returns :
      SendsPacket (calls.send descriptor bytes) bytes packet sent patience
      → Returns
          (λ r k. Dispatched packet bytes (sent k₀) (sent k) r)
          (send_connected_datagram calls descriptor fuel bytes k₀)
  unfolding send_connected_datagram
  send_connected_datagram-Returns sends =
      send_datagram-Returns (calls.send descriptor bytes) bytes packet sent patience sends k₀ fuel
        enough

  -- `send_datagram_to` returns, with enough fuel for the interruptions of its `sendto` to come: the
  -- whole payload went out as one message and no error is reported, or an error is reported and
  -- nothing went out, or a message of only the first `bytes_sent` bytes.
  pub send_datagram_to-Returns :
      SendsPacket (calls.sendto descriptor bytes destination) bytes packet sent patience
      → Returns
          (λ r k. Dispatched packet bytes (sent k₀) (sent k) r)
          (send_datagram_to calls descriptor fuel bytes destination k₀)
  unfolding send_datagram_to
  send_datagram_to-Returns sends =
      send_datagram-Returns (calls.sendto descriptor bytes destination) bytes packet sent patience
        sends k₀ fuel enough
