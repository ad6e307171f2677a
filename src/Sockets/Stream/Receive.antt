-- ===== src/Sockets/Stream/Receive.antt =====
-- The exact receives: where the bytes go, what the result says, and that they return.
use low_latency_showcase.Prelude.{
  ℕ, ◌+◌, ◌-◌, ◌≤◌, ◌<◌, ◌≡◌, refl, sym, ap, ◌∙◌, inl, inr, Bool, true, false, List, [], ◌∷◌, ◌++◌,
  append_assoc, append-nil, Option, none, some, length, drop, take-append, drop-append, drop-drop,
  length-append, length-drop, arith, ltb, Bool-cases,
}
use low_latency_showcase.Words.{word}
use low_latency_showcase.Sockets.Types.{
  Errno, eintr, eagain, ewouldblock, would_block, StreamReceiveState, complete, stopped,
  peer_closed, error,
}
use low_latency_showcase.Sockets.Kernel.{
  Calls, Chunk, chunk, ReceivesStream, TiresBlocking, StopsAtLast,
}
use low_latency_showcase.Sockets.Kernel
use low_latency_showcase.Sockets.Loop.{Leaves, Smaller, Returns, run_loop-Returns}
use low_latency_showcase.Sockets.Stream.{
  Filling, store, finish, progress, remaining, unfilled, after_recv_blocking, blocking_step,
  receive_exact_blocking, unless_stopped, after_recv_spinning, spinning_step,
  receive_exact_busy_spin,
}

-- What a result says when `n` bytes of `size` were received.
abbrev pub Reports : StreamReceiveState → Option Errno → ℕ → ℕ → Type 0
Reports complete e n size = (e ≡ none) × (n ≡ size)
Reports stopped e n size = (e ≡ none) × (n < size)
Reports peer_closed e n size = (e ≡ none) × (n < size)
Reports error e n size = (cause : Errno) × (e ≡ some cause) × (n < size)

-- A loop that reports `stopped` was asked to stop.
abbrev pub StoppedBy : {K : Type 0} → (K → Type 0) → StreamReceiveState → K → Type 0
StoppedBy Asked stopped k = Asked k
StoppedBy Asked _ k = Unit

-- `got` is at the front of a buffer, and the rest of the buffer is as it was.
abbrev pub Fills : List ℕ → List ℕ → Filling → Type 0
Fills buffer got f =
    (f.buffer ≡ got ++ drop (length got) buffer) × (f.result.bytes_received ≡ length got)

store-append :
    (buffer got bytes : List ℕ)
    → store (got ++ drop (length got) buffer) (length got) bytes
      ≡ (got ++ bytes) ++ drop (length (got ++ bytes)) buffer
unfolding store
store-append buffer got bytes = rw (
  take-append got (drop (length got) buffer),
  drop-append got (drop (length got) buffer) (length bytes),
  drop-drop (length got) (length bytes) buffer,
  length-append got bytes,
)

module _ {K : Type 0} (calls : Calls K) (descriptor : ℕ) (delivered : K → List ℕ) (patience : K → ℕ)
    (stream : ReceivesStream calls descriptor delivered patience) (buffer : List ℕ)
    (sized : length buffer < word) (k₀ : K) where
  -- The bytes that the stream has delivered since the start are at the front of the buffer.
  abbrev Held : List ℕ → Filling → K → Type 0
  Held got f k =
      Fills buffer got f × (delivered k ≡ delivered k₀ ++ got) × (length got ≤ length buffer)

  abbrev Receiving : Filling → K → Type 0
  Receiving f k = (got : List ℕ) × Held got f k × (f.result.error_code ≡ none)

  abbrev pub Received : Filling → K → Type 0
  Received f k =
      (got : List ℕ) × Held got f k
      × Reports f.result.state f.result.error_code (length got) (length buffer)

  -- The bytes, interruptions and questions that are left.
  abbrev left : Filling → K → ℕ
  left f k = (length buffer - f.result.bytes_received) + patience k

  Held-length :
      (got : List ℕ) (f : Filling) (k : K) → Held got f k → length f.buffer ≡ length buffer
  Held-length got f k ((at_front, counted), _, fits) =
      ap length at_front
      ∙ length-append got (drop (length got) buffer)
      ∙ omega (arith, length-drop (length got) buffer)

  remaining-Held :
      (got : List ℕ) (f : Filling) (k : K)
      → Held got f k
      → remaining calls descriptor f ≡ length buffer - length got
  unfolding remaining
  remaining-Held got f k h = rw (Held-length got f k h, h.0.1) (omega arith)

  progress-Held :
      (got : List ℕ) (f : Filling) (k k' : K) (bytes : List ℕ)
      → Held got f k
      → delivered k' ≡ delivered k ++ bytes
      → length bytes ≤ length buffer - length got
      → Held (got ++ bytes) (progress f bytes) k'
  unfolding progress
  progress-Held got f k k' bytes ((at_front, counted), has, fits) more small = (
    (
      rw (at_front, counted) (store-append buffer got bytes),
      rw counted (omega (arith, length-append got bytes)),
    ),
    more ∙ ap (λ ys. ys ++ bytes) has ∙ append_assoc (delivered k₀) got bytes,
    omega (arith, length-append got bytes),
  )

  progress-Smaller :
      (got : List ℕ) (f : Filling) (k k' : K) (b : ℕ) (bytes : List ℕ) (dont_wait : Bool)
      → Held got f k
      → f.result.error_code ≡ none
      → length got < length buffer
      → calls.recv descriptor (remaining calls descriptor f) dont_wait k ≡ (chunk (b ∷ bytes), k')
      → Smaller Receiving left (left f k) (progress f (b ∷ bytes)) k'
  unfolding progress
  progress-Smaller got f k k' b bytes dont_wait h clean lt e =
      let small = stream.at_most _ dont_wait k e in
      let calmer = stream.calm _ dont_wait k e in
      let held =
        progress-Held got f k k' (b ∷ bytes) h (stream.stores _ dont_wait k e)
          (omega (arith, remaining-Held got f k h)) in
      (
        (got ++ (b ∷ bytes), held, clean),
        omega (arith, held.0.1, h.0.1, length-append got (b ∷ bytes)),
      )

  keeps-Held :
      (got : List ℕ) (f : Filling) (k k' : K)
      → Held got f k
      → delivered k' ≡ delivered k
      → Held got f k'
  keeps-Held got f k k' (front, has, fits) same = (front, same ∙ has, fits)

  closed-Held :
      (got : List ℕ) (f : Filling) (k k' : K)
      → Held got f k
      → delivered k' ≡ delivered k ++ []
      → Held got f k'
  closed-Held got f k k' h same = keeps-Held got f k k' h (same ∙ append-nil (delivered k))

  unfilled-Receiving : Receiving (unfilled calls descriptor buffer) k₀
  unfolding unfilled
  unfilled-Receiving = ([], ((refl, refl), sym (append-nil (delivered k₀)), omega arith), refl)

  module _ (blocking : TiresBlocking calls descriptor patience) where
    after_recv_blocking-Leaves :
        (got : List ℕ) (f : Filling) (k : K)
        → Held got f k
        → f.result.error_code ≡ none
        → length got < length buffer
        → (x : Chunk × K) → calls.recv descriptor (remaining calls descriptor f) false k ≡ x
        → Leaves (Smaller Receiving left (left f k)) Received (after_recv_blocking f x.0, x.1)
    unfolding after_recv_blocking finish
    after_recv_blocking-Leaves got f k h clean lt (chunk [], k') e =
        (got, closed-Held got f k k' h (stream.stores _ false k e), (clean, lt))
    after_recv_blocking-Leaves got f k h clean lt (chunk (b ∷ bytes), k') e =
        progress-Smaller got f k k' b bytes false h clean lt e
    after_recv_blocking-Leaves got f k h clean lt (Kernel.Chunk.failed eintr, k') e =
        let fewer = blocking.tires _ k e in
        ((got, keeps-Held got f k k' h (stream.keeps _ false k e), clean), omega arith)
    after_recv_blocking-Leaves got f k h clean lt (Kernel.Chunk.failed q, k') e =
        (got, keeps-Held got f k k' h (stream.keeps _ false k e), (_, refl, lt))

    blocking_step-Leaves :
        (f : Filling) (k : K)
        → Receiving f k
        → Leaves (Smaller Receiving left (left f k)) Received (blocking_step calls descriptor f k)
    unfolding blocking_step finish
    blocking_step-Leaves f k (got, h, clean) =
        let size = Held-length got f k h in
        elim (Bool-cases (ltb f.result.bytes_received (length f.buffer))) [
          | inl more ↦
              rw more
                (after_recv_blocking-Leaves got f k h clean (ground (arith, size, h.0.1)) _ refl)
          | inr all ↦ rw all (got, h, (clean, ground (arith, size, h.0.1, h.2)))
        ]

    -- `receive_exact_blocking` returns, for a buffer of less than 2^64 bytes, the laws of the
    -- stream and enough fuel for the bytes and the interruptions to come. The bytes that the stream
    -- has delivered meanwhile are at the front of the buffer, in order, `bytes_received` counts
    -- them, and the rest of the buffer is as it was; the state is `complete` only if they fill the
    -- buffer, and any other only if they do not, with an error code for `error` alone.
    pub receive_exact_blocking-Returns :
        (fuel : ℕ)
        → length buffer + patience k₀ < fuel
        → Returns Received (receive_exact_blocking calls descriptor fuel buffer k₀)
    unfolding receive_exact_blocking unfilled
    receive_exact_blocking-Returns fuel enough =
        run_loop-Returns Receiving Received left (blocking_step calls descriptor)
          blocking_step-Leaves fuel _ k₀ unfilled-Receiving (omega arith)

  module _ (Asked : K → Type 0) (predicate : StopsAtLast calls delivered patience Asked) where
    abbrev pub Spun : Filling → K → Type 0
    Spun f k = Received f k × StoppedBy Asked f.result.state k

    unless_stopped-Leaves :
        (got : List ℕ) (f : Filling) (k : K)
        → Held got f k
        → f.result.error_code ≡ none
        → length got < length buffer
        → (m : ℕ) → patience k ≤ m
        → (x : Bool × K) → calls.stop_requested k ≡ x
        → Leaves
            (Smaller Receiving left ((length buffer - f.result.bytes_received) + m))
            Spun
            (unless_stopped calls descriptor f k)
    unfolding unless_stopped finish
    unless_stopped-Leaves got f k h clean lt m le (true, k') e =
        rw e
          ((got, keeps-Held got f k k' h (predicate.unread k e), (clean, lt)), predicate.asks k e)
    unless_stopped-Leaves got f k h clean lt m le (false, k') e =
        let fewer = predicate.stops k e in
        rw e ((got, keeps-Held got f k k' h (predicate.unread k e), clean), omega arith)

    after_recv_spinning-Leaves :
        (got : List ℕ) (f : Filling) (k : K)
        → Held got f k
        → f.result.error_code ≡ none
        → length got < length buffer
        → (x : Chunk × K) → calls.recv descriptor (remaining calls descriptor f) true k ≡ x
        → Leaves
            (Smaller Receiving left (left f k))
            Spun
            (after_recv_spinning calls descriptor f x.0 x.1)
    unfolding after_recv_spinning finish would_block
    after_recv_spinning-Leaves got f k h clean lt (chunk [], k') e =
        ((got, closed-Held got f k k' h (stream.stores _ true k e), (clean, lt)), tt)
    after_recv_spinning-Leaves got f k h clean lt (chunk (b ∷ bytes), k') e =
        progress-Smaller got f k k' b bytes true h clean lt e
    after_recv_spinning-Leaves got f k h clean lt (Kernel.Chunk.failed eintr, k') e =
        unless_stopped-Leaves got f k' (keeps-Held got f k k' h (stream.keeps _ true k e)) clean lt
          _ (stream.calm _ true k e) _ refl
    after_recv_spinning-Leaves got f k h clean lt (Kernel.Chunk.failed eagain, k') e =
        unless_stopped-Leaves got f k' (keeps-Held got f k k' h (stream.keeps _ true k e)) clean lt
          _ (stream.calm _ true k e) _ refl
    after_recv_spinning-Leaves got f k h clean lt (Kernel.Chunk.failed ewouldblock, k') e =
        unless_stopped-Leaves got f k' (keeps-Held got f k k' h (stream.keeps _ true k e)) clean lt
          _ (stream.calm _ true k e) _ refl
    after_recv_spinning-Leaves got f k h clean lt (Kernel.Chunk.failed q, k') e =
        ((got, keeps-Held got f k k' h (stream.keeps _ true k e), (_, refl, lt)), tt)

    spinning_step-Leaves :
        (f : Filling) (k : K)
        → Receiving f k
        → Leaves (Smaller Receiving left (left f k)) Spun (spinning_step calls descriptor f k)
    unfolding spinning_step finish
    spinning_step-Leaves f k (got, h, clean) =
        let size = Held-length got f k h in
        elim (Bool-cases (ltb f.result.bytes_received (length f.buffer))) [
          | inl more ↦
              rw more
                (after_recv_spinning-Leaves got f k h clean (ground (arith, size, h.0.1)) _ refl)
          | inr all ↦ rw all ((got, h, (clean, ground (arith, size, h.0.1, h.2))), tt)
        ]

    -- `receive_exact_busy_spin` returns, for a buffer of less than 2^64 bytes, the laws of the
    -- stream and of the predicate, and enough fuel for the bytes to come and the predicate's
    -- refusals to stop. The bytes that the stream has delivered meanwhile are at the front of the
    -- buffer, in order, `bytes_received` counts them, and the rest of the buffer is as it was; the
    -- state is `complete` only if they fill the buffer, and any other only if they do not, with an
    -- error code for `error` alone, and `stopped` only if the predicate has asked for a stop.
    pub receive_exact_busy_spin-Returns :
        (fuel : ℕ)
        → length buffer + patience k₀ < fuel
        → Returns Spun (receive_exact_busy_spin calls descriptor fuel buffer k₀)
    unfolding receive_exact_busy_spin unfilled
    receive_exact_busy_spin-Returns fuel enough =
        run_loop-Returns Receiving Spun left (spinning_step calls descriptor) spinning_step-Leaves
          fuel _ k₀ unfilled-Receiving (omega arith)
