-- ===== src/Sockets/Datagram/Receive.antt =====
-- The datagram receives: a message is taken whole, cut only visibly, or the queue is untouched.
use low_latency_showcase.Prelude.{
  ℕ, subst, zero, suc, ◌≤◌, ◌<◌, ◌≡◌, refl, sym, ap, ◌∙◌, inl, inr, Bool, true, false, ◌&&◌, ◌||◌,
  not, List, ◌∷◌, ◌++◌, Option, none, some, length, take, drop, arith, ltb, Bool-cases,
  if◌then◌else◌,
}
use native.Mathlib.Nat.{zero-add}
use low_latency_showcase.Sockets.Types.{
  Errno, eintr, would_block, Endpoint, DatagramReceiveState, received, not_ready,
  DatagramReceiveResult, is_received, is_truncated,
}
use low_latency_showcase.Sockets.Types
use low_latency_showcase.Sockets.Kernel.{Calls, Datagram, Message, message, Packet, ReceivesPackets}
use low_latency_showcase.Sockets.Kernel
use low_latency_showcase.Sockets.Loop.{
  Next, again, done, proceed, Leaves, Smaller, Returns, run_loop-Returns,
}
use low_latency_showcase.Sockets.Stream.{store}
use low_latency_showcase.Sockets.Datagram.{
  is_eintr, Arrival, no_arrival, arrive, leave, after_recvmsg, datagram_step, receive_datagram_once,
  is_not_ready, is_interrupted, ask_stop, after_attempt, spin_on, receive_datagram_busy_spin,
}

-- A message is in the buffer and in the result.
abbrev pub Holds : List ℕ → Packet → Arrival → Type 0
Holds buffer p a =
    let part = take (length buffer) p.bytes in
    (a.buffer ≡ part ++ drop (length part) buffer)
    × (a.result.wire_bytes ≡ length p.bytes)
    × (a.result.peer ≡ p.origin)
    × (is_truncated a.result (length buffer) ≡ ltb (length buffer) (length p.bytes))

-- Which states a receive may end in, and with which error code; `final` rejects the errors that
-- the receive does not report.
abbrev pub Allowed : (Errno → Bool) → Bool → Bool → DatagramReceiveState → Option Errno → Type 0
Allowed final polls stops received e = e ≡ none
Allowed final polls stops not_ready e = (e ≡ none) × (polls ≡ true)
Allowed final polls stops Types.DatagramReceiveState.stopped e = (e ≡ none) × (stops ≡ true)
Allowed final polls stops Types.DatagramReceiveState.error e =
    (cause : Errno) × (e ≡ some cause) × (final cause ≡ true)

-- What a receive leaves: for `received`, the first message of the queue, gone from it; for any
-- other state, the queue and the buffer as they were.
abbrev pub Takes : List ℕ → List Packet → List Packet → Arrival → DatagramReceiveState → Type 0
Takes buffer before after a received = (p : Packet) × (before ≡ p ∷ after) × Holds buffer p a
Takes buffer before after a _ = (after ≡ before) × (a.buffer ≡ buffer)

abbrev pub Leaving :
    (Errno → Bool) → Bool → Bool → List ℕ → List Packet → List Packet → Arrival → Type 0
Leaving final polls stops buffer before after a =
    Allowed final polls stops a.result.state a.result.error_code
    × Takes buffer before after a a.result.state

-- An interrupted call is reported only where it is not retried.
abbrev pub reported : Bool → Errno → Bool
reported retry_interrupted e = not (is_eintr e && retry_interrupted)

or_self : (b : Bool) → (b || b) ≡ b
or_self true = refl
or_self false = refl

and-left : (a b : Bool) → (a && b) ≡ true → a ≡ true
and-left true b h = refl
and-left false b h = h

module _ {K : Type 0} (calls : Calls K) (descriptor : ℕ) (queue : K → List Packet)
    (patience : K → ℕ) (packets : ReceivesPackets calls descriptor queue patience)
    (buffer : List ℕ) where
  module _ (dont_wait retry_interrupted : Bool) (k₀ : K) where
    abbrev Waiting : Arrival → K → Type 0
    Waiting a k =
        (a.buffer ≡ buffer)
        × (a.result.error_code ≡ none)
        × (queue k ≡ queue k₀)
        × (patience k ≤ patience k₀)

    abbrev After : Arrival → K → Type 0
    After a k =
        Leaving (reported retry_interrupted) dont_wait false buffer (queue k₀) (queue k) a
        × (patience k ≤ patience k₀)

    abbrev left : Arrival → K → ℕ
    left a k = patience k

    arrive-Holds :
        (a : Arrival) (d : Datagram) (p : Packet)
        → a.buffer ≡ buffer
        → d.payload ≡ take (length buffer) p.bytes
        → d.wire_bytes ≡ length p.bytes
        → d.peer ≡ p.origin
        → d.truncated_flag ≡ ltb (length buffer) (length p.bytes)
        → Holds buffer p (arrive a d)
    unfolding arrive store is_truncated is_received
    arrive-Holds a d p same stored sized from cut = (
      rw (same, stored, zero-add) refl,
      sized,
      from,
      rw (cut, sized) (or_self (ltb (length buffer) (length p.bytes))),
    )

    tires-is_eintr :
        (a : Arrival) (k : K) {k' : K} (q : Errno)
        → calls.recvmsg descriptor (length a.buffer) dont_wait k ≡ (Kernel.Message.failed q, k')
        → (is_eintr q && retry_interrupted) ≡ true
        → patience k' < patience k
    unfolding is_eintr
    tires-is_eintr a k eintr e h = packets.tires (length a.buffer) dont_wait k e
    tires-is_eintr a k q e h = cc

    after_recvmsg-Leaves :
        (a : Arrival) (k : K)
        → Waiting a k
        → (x : Message × K) → calls.recvmsg descriptor (length a.buffer) dont_wait k ≡ x
        → Leaves
            (Smaller Waiting left (left a k))
            After
            (after_recvmsg dont_wait retry_interrupted a x.0, x.1)
    unfolding after_recvmsg leave arrive
    after_recvmsg-Leaves a k (same, clean, held, less) (message d, k') e =
        let (p, first, stored, sized, from, cut) = packets.takes (length a.buffer) dont_wait k e in
        let calmer = packets.calm (length a.buffer) dont_wait k e in
        (
          (
            clean,
            (
              p,
              sym held ∙ first,
              arrive-Holds a d p same (stored ∙ ap (λ b. take (length b) p.bytes) same) sized from
                  (cut ∙ ap (λ b. ltb (length b) (length p.bytes)) same),
            ),
          ),
          omega arith,
        )
    after_recvmsg-Leaves a k (same, clean, held, less) (Kernel.Message.failed q, k') e =
        let kept = packets.keeps (length a.buffer) dont_wait k e in
        let calmer = packets.calm (length a.buffer) dont_wait k e in
        elim (Bool-cases (is_eintr q && retry_interrupted)) [
          | inl retry ↦
              rw retry ((same, clean, kept ∙ held, omega arith), tires-is_eintr a k q e retry)
          | inr over ↦ rw over (elim (Bool-cases (dont_wait && would_block q)) [
            | inl wait ↦ rw wait (
              ((clean, and-left dont_wait (would_block q) wait), (kept ∙ held, same)),
              omega arith,
            )
            | inr broken ↦ rw broken (((q, refl, ap not over), (kept ∙ held, same)), omega arith)
          ])
        ]

    -- `receive_datagram_once` returns, for a kernel as above and enough fuel for the interruptions
    -- to come. In state `received` the first message of the queue has been taken: as much of it as
    -- fits is at the front of the buffer and the rest of the buffer is as it was, the result has
    -- its wire size and origin, and it counts as truncated exactly if it is longer than the buffer.
    -- Otherwise the queue and the buffer are as they were, and the state is `not_ready`, for a
    -- non-blocking call only, or `error` with a code, an interruption only where it is not retried.
    pub receive_datagram_once-Returns :
        (fuel : ℕ)
        → patience k₀ < fuel
        → Returns
            (λ a k.
              Leaving (reported retry_interrupted) dont_wait false buffer (queue k₀) (queue k) a
              × (patience k ≤ patience k₀))
            (receive_datagram_once calls descriptor dont_wait retry_interrupted fuel buffer k₀)
    unfolding receive_datagram_once datagram_step no_arrival
    receive_datagram_once-Returns fuel enough =
        run_loop-Returns Waiting After left
          (datagram_step calls descriptor dont_wait retry_interrupted)
          (λ a k w. after_recvmsg-Leaves a k w _ refl) fuel _ k₀ (refl, refl, refl, omega arith)
          enough

  -- What the busy-spinning receive may report: no interruption, and never `not_ready`.
  abbrev Spun : List Packet → Arrival → K → Type 0
  Spun before a k = Leaving (λ e. not (is_eintr e)) false true buffer before (queue k) a

  module _ (k₀ : K) where
    -- A round that goes on has taken nothing, and has brought the stop nearer.
    abbrev Nearer : Arrival → K → Type 0
    Nearer a k = (a.buffer ≡ buffer) × (queue k ≡ queue k₀) × (patience k < patience k₀)

    ask_stop-Leaves :
        (a : Arrival) (k : K)
        → a.buffer ≡ buffer
        → queue k ≡ queue k₀
        → patience k ≤ patience k₀
        → (x : Bool × K) → calls.stop_requested k ≡ x
        → Leaves Nearer (Spun (queue k₀)) (ask_stop calls descriptor a none k)
    unfolding ask_stop leave
    ask_stop-Leaves a k same held less (true, k') e =
        rw e ((refl, refl), (packets.unread k e ∙ held, same))
    ask_stop-Leaves a k same held less (false, k') e =
        let fewer = packets.stops k e in rw e (same, packets.unread k e ∙ held, omega arith)

    ends :
        (a : Arrival) (k : K) {state : DatagramReceiveState} {cause : Option Errno}
        → a.result.state ≡ state
        → a.result.error_code ≡ cause
        → Allowed (λ e. not (is_eintr e)) false true state cause
        → Takes buffer (queue k₀) (queue k) a state
        → Spun (queue k₀) a k
    ends a k {state = state} s c allowed took =
        subst
          (λ st.
            Allowed (λ e. not (is_eintr e)) false true st a.result.error_code
            × Takes buffer (queue k₀) (queue k) a st)
          (sym s)
          (subst (λ e. Allowed (λ e. not (is_eintr e)) false true state e) (sym c) allowed, took)

    branch-Leaves :
        (a : Arrival) (k : K) (state : DatagramReceiveState) (cause : Option Errno)
        → a.result.state ≡ state
        → a.result.error_code ≡ cause
        → Allowed (reported false) true false state cause
        → Takes buffer (queue k₀) (queue k) a state
        → patience k ≤ patience k₀
        → Leaves Nearer (Spun (queue k₀)) (
            if is_not_ready state
            then ask_stop calls descriptor a cause k
            else if is_interrupted state cause
            then ask_stop calls descriptor a none k
            else (done a, k))
    unfolding is_not_ready is_interrupted is_eintr
    branch-Leaves a k received cause s c clean took less = ends a k s c clean took
    branch-Leaves a k not_ready cause s c (clean, _) (held, same) less =
        rw clean (ask_stop-Leaves a k same held less _ refl)
    branch-Leaves a k Types.DatagramReceiveState.stopped cause s c (_, never) took less = cc
    branch-Leaves a k Types.DatagramReceiveState.error none s c (e, is, _) took less = cc
    branch-Leaves a k Types.DatagramReceiveState.error (some eintr) s c allowed (held, same) less =
        ask_stop-Leaves a k same held less _ refl
    branch-Leaves a k Types.DatagramReceiveState.error (some q) s c allowed took less =
        ends a k s c (q, refl, refl) took

    after_attempt-Leaves :
        (out : Arrival × K)
        → Leaving (reported false) true false buffer (queue k₀) (queue out.1) out.0
        → patience out.1 ≤ patience k₀
        → Leaves Nearer (Spun (queue k₀)) (after_attempt calls descriptor out)
    unfolding after_attempt
    after_attempt-Leaves (a, k) (allowed, took) less =
        branch-Leaves a k _ _ refl refl allowed took less

    spin_on-Returns :
        (rest : List ℕ → K → Option (Arrival × K))
        → ((a : Arrival) (k : K) → Nearer a k → Returns (Spun (queue k₀)) (rest a.buffer k))
        → (x : Next Arrival × K) → Leaves Nearer (Spun (queue k₀)) x
        → Returns (Spun (queue k₀)) (proceed (λ a k. rest a.buffer k) x)
    spin_on-Returns rest onward (again a, k) p = onward a k p
    spin_on-Returns rest onward (done a, k) q = ((a, k), refl, q)

  -- `receive_datagram_busy_spin` returns, for a kernel and stop predicate as above and enough fuel
  -- for the predicate's refusals to stop and the interruptions to come. In state `received` the
  -- first message of the queue has been taken: as much of it as fits is at the front of the buffer
  -- and the rest of the buffer is as it was, the result has its wire size and origin, and it counts
  -- as truncated exactly if it is longer than the buffer. Otherwise the queue and the buffer are as
  -- they were, and the state is `stopped` without an error code, or `error` with one that is not
  -- an interruption.
  pub receive_datagram_busy_spin-Returns :
      (fuel : ℕ) (k₀ : K)
      → patience k₀ < fuel
      → Returns
          (λ a k. Leaving (λ e. not (is_eintr e)) false true buffer (queue k₀) (queue k) a)
          (receive_datagram_busy_spin calls descriptor fuel buffer k₀)
  unfolding receive_datagram_busy_spin spin_on
  receive_datagram_busy_spin-Returns zero k₀ enough = absurd (omega arith)
  receive_datagram_busy_spin-Returns (suc fuel) k₀ enough =
      let (out, is, (leaving, less)) =
        receive_datagram_once-Returns true false k₀ (suc fuel) enough in
      rw is (
        spin_on-Returns k₀ (receive_datagram_busy_spin calls descriptor fuel)
          (λ a k (same, held, fewer). rw same (
            subst
              (λ q. Returns (Spun q) (receive_datagram_busy_spin calls descriptor fuel buffer k))
              held (receive_datagram_busy_spin-Returns fuel k (omega arith))))
          _ (after_attempt-Leaves k₀ out leaving less))
