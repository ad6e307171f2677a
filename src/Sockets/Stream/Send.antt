-- ===== src/Sockets/Stream/Send.antt =====
-- `send_all`: what the peer gets, what the result says, and that it returns.
use low_latency_showcase.Prelude.{
  ℕ, zero, suc, ◌+◌, ◌-◌, ◌≤◌, ◌<◌, ◌≡◌, refl, sym, ap, ◌∙◌, ◌⊎◌, inl, inr, List, ◌++◌,
  append_assoc, append-nil, none, some, length, take, drop, take-add, length-drop, arith, ltb,
  Bool-cases,
}
use low_latency_showcase.Words.{word, add64}
use low_latency_showcase.Sockets.Types.{Errno, eintr, epipe, SendResult}
use low_latency_showcase.Sockets.Kernel.{Calls, Transfer, moved, SendsPrefix}
use low_latency_showcase.Sockets.Kernel
use low_latency_showcase.Sockets.Loop.{Leaves, Smaller, Returns, run_loop-Returns}
use low_latency_showcase.Sockets.Stream.{after_send, send_step, send_all}

-- What a result says of a payload: all of it was sent, or there is an error and less was.
abbrev pub Reports : List ℕ → SendResult → Type 0
Reports bytes r =
    ((r.error_code ≡ none) × (r.bytes_sent ≡ length bytes))
    ⊎ ((e : Errno) × (r.error_code ≡ some e) × (r.bytes_sent < length bytes))

module _ {K : Type 0} (calls : Calls K) (descriptor : ℕ) (bytes : List ℕ)
    (sized : length bytes < word) where
  module _ (accepted : K → List ℕ) (patience : K → ℕ)
      (prefix : SendsPrefix calls descriptor accepted patience) (k₀ : K) where
    -- The kernel has the first `bytes_sent` bytes, and nothing went wrong yet.
    abbrev Sending : SendResult → K → Type 0
    Sending r k =
        (r.error_code ≡ none)
        × (r.bytes_sent ≤ length bytes)
        × (accepted k ≡ accepted k₀ ++ take r.bytes_sent bytes)

    abbrev Sent : SendResult → K → Type 0
    Sent r k = Reports bytes r × (accepted k ≡ accepted k₀ ++ take r.bytes_sent bytes)

    -- The bytes and the interruptions that are left.
    abbrev left : SendResult → K → ℕ
    left r k = (length bytes - r.bytes_sent) + patience k

    after_send-Leaves :
        (r : SendResult) (k : K)
        → Sending r k
        → r.bytes_sent < length bytes
        → (x : Transfer × K) → calls.send descriptor (drop r.bytes_sent bytes) k ≡ x
        → Leaves (Smaller Sending left (left r k)) Sent (after_send r x.0, x.1)
    unfolding after_send
    after_send-Leaves r k (clean, le, has) lt (moved (suc n), k') e =
        let fits = prefix.at_most (drop r.bytes_sent bytes) k e in
        let took = prefix.takes (drop r.bytes_sent bytes) k e in
        let plain : add64 r.bytes_sent (suc n) ≡ r.bytes_sent + suc n =
          omega (arith, length-drop r.bytes_sent bytes) in
        let calmer = prefix.calm (drop r.bytes_sent bytes) k e in
        (
          (
            clean,
            omega (arith, length-drop r.bytes_sent bytes),
            rw (took, has, plain)
                (append_assoc (accepted k₀) (take r.bytes_sent bytes)
                    (take (suc n) (drop r.bytes_sent bytes))
                  ∙ ap (λ ys. accepted k₀ ++ ys) (sym (take-add r.bytes_sent (suc n) bytes))),
          ),
          omega arith,
        )
    after_send-Leaves r k (clean, le, has) lt (moved zero, k') e =
        let took = prefix.takes (drop r.bytes_sent bytes) k e in
        (inr (epipe, refl, lt), took ∙ append-nil (accepted k) ∙ has)
    after_send-Leaves r k (clean, le, has) lt (Kernel.Transfer.failed eintr, k') e =
        let fewer = prefix.tires (drop r.bytes_sent bytes) k e in
        ((clean, le, prefix.keeps _ k e ∙ has), omega arith)
    after_send-Leaves r k (clean, le, has) lt (Kernel.Transfer.failed q, k') e =
        (inr (_, refl, lt), prefix.keeps _ k e ∙ has)

    send_step-Leaves :
        (r : SendResult) (k : K)
        → Sending r k
        → Leaves (Smaller Sending left (left r k)) Sent (send_step calls descriptor bytes r k)
    unfolding send_step
    send_step-Leaves r k p = elim (Bool-cases (ltb r.bytes_sent (length bytes))) [
      | inl more ↦ rw more (after_send-Leaves r k p (ground arith) _ refl)
      | inr all ↦ rw all (inl (p.0, ground arith), p.2)
    ]

    -- `send_all` returns, for a payload and kernel as above and enough fuel for the bytes and the
    -- interruptions to come. The peer has then been sent exactly the first `bytes_sent` bytes of
    -- the payload, in order, and nothing else; that is all of it if no error is reported, and less
    -- if there is one.
    pub send_all-Returns :
        (fuel : ℕ)
        → length bytes + patience k₀ < fuel
        → Returns
            (λ r k. Reports bytes r × (accepted k ≡ accepted k₀ ++ take r.bytes_sent bytes))
            (send_all calls descriptor bytes fuel k₀)
    unfolding send_all
    send_all-Returns fuel enough =
        run_loop-Returns Sending Sent left (send_step calls descriptor bytes) send_step-Leaves fuel
          _ k₀ (refl, omega arith, sym (append-nil (accepted k₀))) (omega arith)
