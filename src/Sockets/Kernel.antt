-- ===== src/Sockets/Kernel.antt =====
-- The system calls that the socket functions make, as parameters, with the documented behaviour
-- that the theorems rest on.
use low_latency_showcase.Prelude.{
  ℕ, ◌≤◌, ◌<◌, ◌≡◌, Bool, true, false, List, [], ◌∷◌, ◌++◌, length, take, ltb,
}
use low_latency_showcase.Sockets.Types.{Errno, eintr, Endpoint}

-- What `send` and `sendto` return: a number of bytes, or -1 with `errno`.
pub data Transfer : Type 0 where
  moved : ℕ → Transfer
  failed : Errno → Transfer

-- What `recv` returns: the bytes that it stored, none at the end of the stream, or -1 with `errno`.
pub data Chunk : Type 0 where
  chunk : List ℕ → Chunk
  failed : Errno → Chunk

-- What `recvmsg` stores beside the payload; with MSG_TRUNC it returns the wire size.
pub record Datagram : Type 0 where
  pub payload : List ℕ
  pub wire_bytes : ℕ
  pub peer : Endpoint
  pub peer_length : ℕ
  pub truncated_flag : Bool
  pub other_flags : ℕ

pub data Message : Type 0 where
  message : Datagram → Message
  failed : Errno → Message

-- `K` is the state of the kernel, the peer, the clock and the caller's predicate. A descriptor
-- comes first. The Boolean is MSG_DONTWAIT; MSG_NOSIGNAL and MSG_TRUNC are always given.
pub record Calls (K : Type 0) : Type 0 where
  pub send : ℕ → List ℕ → K → Transfer × K
  pub sendto : ℕ → List ℕ → Endpoint → K → Transfer × K
  pub recv : ℕ → ℕ → Bool → K → Chunk × K
  pub recvmsg : ℕ → ℕ → Bool → K → Message × K
  pub stop_requested : K → Bool × K

module _ {K : Type 0} (calls : Calls K) where
  -- `send` takes a prefix of what it is offered, in order; `accepted` is all that it has taken. A
  -- signal interrupts it only finitely often: `patience` bounds how often it still will.
  pub record SendsPrefix (descriptor : ℕ) (accepted : K → List ℕ) (patience : K → ℕ) : Type 0 where
    pub at_most :
        (bytes : List ℕ) (k : K) {k' : K} {n : ℕ}
        → calls.send descriptor bytes k ≡ (moved n, k')
        → n ≤ length bytes
    pub takes :
        (bytes : List ℕ) (k : K) {k' : K} {n : ℕ}
        → calls.send descriptor bytes k ≡ (moved n, k')
        → accepted k' ≡ accepted k ++ take n bytes
    pub keeps :
        (bytes : List ℕ) (k : K) {k' : K} {e : Errno}
        → calls.send descriptor bytes k ≡ (failed e, k')
        → accepted k' ≡ accepted k
    pub calm :
        (bytes : List ℕ) (k : K) {k' : K} {n : ℕ}
        → calls.send descriptor bytes k ≡ (moved n, k')
        → patience k' ≤ patience k
    pub tires :
        (bytes : List ℕ) (k : K) {k' : K}
        → calls.send descriptor bytes k ≡ (failed eintr, k')
        → patience k' < patience k

  -- `recv` stores at most the bytes that fit, the next ones of the stream; `delivered` is all that
  -- it has stored. It does not add to `patience`.
  pub record ReceivesStream (descriptor : ℕ) (delivered : K → List ℕ) (patience : K → ℕ)
      : Type 0 where
    pub at_most :
        (size : ℕ) (dont_wait : Bool) (k : K) {k' : K} {bytes : List ℕ}
        → calls.recv descriptor size dont_wait k ≡ (chunk bytes, k')
        → length bytes ≤ size
    pub stores :
        (size : ℕ) (dont_wait : Bool) (k : K) {k' : K} {bytes : List ℕ}
        → calls.recv descriptor size dont_wait k ≡ (chunk bytes, k')
        → delivered k' ≡ delivered k ++ bytes
    pub keeps :
        (size : ℕ) (dont_wait : Bool) (k : K) {k' : K} {e : Errno}
        → calls.recv descriptor size dont_wait k ≡ (failed e, k')
        → delivered k' ≡ delivered k
    pub calm :
        (size : ℕ) (dont_wait : Bool) (k : K) {k' : K} {x : Chunk}
        → calls.recv descriptor size dont_wait k ≡ (x, k')
        → patience k' ≤ patience k

  -- A blocking call is interrupted only finitely often: `patience` bounds how often it still will.
  pub record TiresBlocking (descriptor : ℕ) (patience : K → ℕ) : Type 0 where
    pub tires :
        (size : ℕ) (k : K) {k' : K}
        → calls.recv descriptor size false k ≡ (failed eintr, k')
        → patience k' < patience k

  -- The caller's predicate asks for a stop at last: `patience` bounds how often it still will not,
  -- and `Asked` is what it stops for. It does not read the socket.
  pub record StopsAtLast (delivered : K → List ℕ) (patience : K → ℕ) (Asked : K → Type 0)
      : Type 0 where
    pub asks : (k : K) {k' : K} → calls.stop_requested k ≡ (true, k') → Asked k'
    pub unread :
        (k : K) {k' : K} {stop : Bool}
        → calls.stop_requested k ≡ (stop, k')
        → delivered k' ≡ delivered k
    pub stops : (k : K) {k' : K} → calls.stop_requested k ≡ (false, k') → patience k' < patience k

-- A clock: a reading is the time, which is later after the reading. It does not read the socket.
pub record Ticks {K : Type 0} (now : K → ℕ × K) (delivered : K → List ℕ) (time : K → ℕ)
    : Type 0 where
  pub shows : (k : K) {k' : K} {t : ℕ} → now k ≡ (t, k') → t ≡ time k
  pub ticks : (k : K) {k' : K} {t : ℕ} → now k ≡ (t, k') → time k < time k'
  pub unread : (k : K) {k' : K} {t : ℕ} → now k ≡ (t, k') → delivered k' ≡ delivered k

-- A datagram on the wire.
pub record Packet : Type 0 where
  pub origin : Endpoint
  pub bytes : List ℕ

-- A datagram call hands over the whole payload as one message, or a front part of it; `sent` is
-- all the messages so far, and `packet` says what the message of a front part is.
pub record SendsPacket {K M : Type 0} (call : K → Transfer × K) (bytes : List ℕ)
    (packet : List ℕ → M) (sent : K → List M) (patience : K → ℕ) : Type 0 where
  pub at_most : (k : K) {k' : K} {n : ℕ} → call k ≡ (moved n, k') → n ≤ length bytes
  pub adds :
      (k : K) {k' : K} {n : ℕ}
      → call k ≡ (moved n, k')
      → sent k' ≡ sent k ++ packet (take n bytes) ∷ []
  pub keeps : (k : K) {k' : K} {e : Errno} → call k ≡ (failed e, k') → sent k' ≡ sent k
  pub tires : (k : K) {k' : K} → call k ≡ (failed eintr, k') → patience k' < patience k

-- `recvmsg` takes the first message off the queue, stores the part of it that fits, and tells its
-- origin, its size on the wire, and whether it was cut.
pub record ReceivesPackets {K : Type 0} (calls : Calls K) (descriptor : ℕ) (queue : K → List Packet)
    (patience : K → ℕ) : Type 0 where
  pub takes :
      (size : ℕ) (dont_wait : Bool) (k : K) {k' : K} {d : Datagram}
      → calls.recvmsg descriptor size dont_wait k ≡ (message d, k')
      → (p : Packet) × (queue k ≡ p ∷ queue k')
        × (d.payload ≡ take size p.bytes)
        × (d.wire_bytes ≡ length p.bytes)
        × (d.peer ≡ p.origin)
        × (d.truncated_flag ≡ ltb size (length p.bytes))
  pub keeps :
      (size : ℕ) (dont_wait : Bool) (k : K) {k' : K} {e : Errno}
      → calls.recvmsg descriptor size dont_wait k ≡ (failed e, k')
      → queue k' ≡ queue k
  pub unread :
      (k : K) {k' : K} {stop : Bool} → calls.stop_requested k ≡ (stop, k') → queue k' ≡ queue k
  pub calm :
      (size : ℕ) (dont_wait : Bool) (k : K) {k' : K} {x : Message}
      → calls.recvmsg descriptor size dont_wait k ≡ (x, k')
      → patience k' ≤ patience k
  pub tires :
      (size : ℕ) (dont_wait : Bool) (k : K) {k' : K}
      → calls.recvmsg descriptor size dont_wait k ≡ (failed eintr, k')
      → patience k' < patience k
  pub stops : (k : K) {k' : K} → calls.stop_requested k ≡ (false, k') → patience k' < patience k
