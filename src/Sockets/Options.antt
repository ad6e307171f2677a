-- ===== src/Sockets/Options.antt =====
-- Socket options: a value is applied, read back, and accepted only if the readback agrees.
pub mod Readback
pub mod Obedient
use low_latency_showcase.Prelude.{
  ℕ, ◌≡◌, Bool, true, false, ◌||◌, not, Option, none, some, ltb, ◌==◌, if◌then◌else◌,
}
use low_latency_showcase.Sockets.Types.{Errno, eproto, einval, SocketOptionResult, success, failure}

-- A C `int`, and the 64-bit count of a `std::chrono::microseconds`.
pub data ℤ : Type 0 where
  pos : ℕ → ℤ
  negsuc : ℕ → ℤ

unfoldable pub is_negative : ℤ → Bool
is_negative (pos n) = false
is_negative (negsuc n) = true

unfoldable pub equal : ℤ → ℤ → Bool
equal (pos m) (pos n) = m == n
equal (negsuc m) (negsuc n) = m == n
equal _ _ = false

-- `*observed != 0`
unfoldable pub is_nonzero : ℤ → Bool
is_nonzero (pos n) = not (n == 0)
is_nonzero (negsuc n) = true

-- `static_cast<int>(enabled)`
unfoldable pub int_of_bool : Bool → ℤ
int_of_bool true = pos 1
int_of_bool false = pos 0

-- `std::numeric_limits<int>::max()`
abbrev pub int_max : ℕ
int_max = 2147483647

unfoldable pub exceeds_int : ℤ → Bool
exceeds_int (pos n) = ltb int_max n
exceeds_int (negsuc n) = false

-- The pairs of a level and an option name that the code uses.
pub data SocketOption : Type 0 where
  tcp_nodelay tcp_quickack so_busy_poll : SocketOption

-- What `getsockopt` stores: a value and its length; or -1 with `errno`.
pub data Reading : Type 0 where
  stored : ℤ → ℕ → Reading
  failed : Errno → Reading

-- `setsockopt` returns 0, which is `none`, or -1 with `errno`.
pub record OptionCalls (K : Type 0) : Type 0 where
  pub getsockopt : ℕ → SocketOption → K → Reading × K
  pub setsockopt : ℕ → SocketOption → ℤ → K → Option Errno × K

unfoldable pub after_getsockopt : Reading → SocketOptionResult ℤ
after_getsockopt (stored value length) = if length == 4 then success value else failure eproto
after_getsockopt (failed e) = failure e

unfoldable pub as_flag : SocketOptionResult ℤ → SocketOptionResult Bool
unfolding is_nonzero
as_flag (success value) = success (is_nonzero value)
as_flag (failure e) = failure e

unfoldable pub as_budget : SocketOptionResult ℤ → SocketOptionResult ℤ
unfolding is_negative
as_budget (success value) = if is_negative value then failure eproto else success value
as_budget (failure e) = failure e

-- The comparisons of the readback with what was asked for.
unfoldable pub confirm_flag : Bool → SocketOptionResult Bool → SocketOptionResult Bool
confirm_flag true (success true) = success true
confirm_flag false (success false) = success false
confirm_flag enabled (success observed) = failure eproto
confirm_flag enabled (failure e) = failure e

unfoldable pub confirm_budget : ℤ → SocketOptionResult ℤ → SocketOptionResult ℤ
unfolding equal
confirm_budget requested (success observed) =
    if equal observed requested then success observed else failure eproto
confirm_budget requested (failure e) = failure e

module _ {K : Type 0} (calls : OptionCalls K) (descriptor : ℕ) where
  unfoldable pub integer_socket_option : SocketOption → K → SocketOptionResult ℤ × K
  unfolding after_getsockopt
  integer_socket_option name k =
      let (reading, k') = calls.getsockopt descriptor name k in (after_getsockopt reading, k')

  unfoldable pub set_integer_socket_option : SocketOption → ℤ → K → SocketOptionResult {0} Unit × K
  set_integer_socket_option name value k =
      let (outcome, k') = calls.setsockopt descriptor name value k in
      (elim outcome [ none ↦ success tt | some e ↦ failure e ], k')

  unfoldable pub tcp_no_delay : K → SocketOptionResult Bool × K
  unfolding integer_socket_option as_flag
  tcp_no_delay k =
      let (observed, k') = integer_socket_option tcp_nodelay k in (as_flag observed, k')

  -- What follows the write of an option: nothing after an error, else the readback.
  unfoldable pub and_then {ℓ} :
      {V : Type ℓ}
      → (K → SocketOptionResult V × K)
      → SocketOptionResult {0} Unit × K
      → SocketOptionResult V × K
  and_then readback (success _, k) = readback k
  and_then readback (failure e, k) = (failure e, k)

  unfoldable pub configure_tcp_no_delay : Bool → K → SocketOptionResult Bool × K
  unfolding set_integer_socket_option and_then tcp_no_delay confirm_flag int_of_bool
  configure_tcp_no_delay enabled k =
      and_then (λ k'. let (observed, k'') = tcp_no_delay k' in (confirm_flag enabled observed, k''))
        (set_integer_socket_option tcp_nodelay (int_of_bool enabled) k)

  unfoldable pub rearm_tcp_quick_ack : K → SocketOptionResult {0} Unit × K
  unfolding set_integer_socket_option
  rearm_tcp_quick_ack k = set_integer_socket_option tcp_quickack (pos 1) k

  unfoldable pub busy_poll_budget : K → SocketOptionResult ℤ × K
  unfolding integer_socket_option as_budget
  busy_poll_budget k =
      let (observed, k') = integer_socket_option so_busy_poll k in (as_budget observed, k')

  unfoldable pub configure_busy_poll_budget : ℤ → K → SocketOptionResult ℤ × K
  unfolding set_integer_socket_option and_then busy_poll_budget confirm_budget is_negative
      exceeds_int
  configure_busy_poll_budget requested k =
      if is_negative requested || exceeds_int requested
      then (failure einval, k)
      else and_then
          (λ k'.
            let (observed, k'') = busy_poll_budget k' in (confirm_budget requested observed, k''))
          (set_integer_socket_option so_busy_poll requested k)
