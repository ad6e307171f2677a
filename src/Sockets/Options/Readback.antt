-- ===== src/Sockets/Options/Readback.antt =====
-- A configured option is what the kernel holds.
use low_latency_showcase.Prelude.{
  ℕ, ◌≡◌, refl, ap, ◌∙◌, inl, inr, Bool, true, false, ◌||◌, ◌==◌, Bool-cases, arith,
}
use low_latency_showcase.Sockets.Types.{Errno, eproto, SocketOptionResult, success, failure}
use low_latency_showcase.Sockets.Options.{
  ℤ, pos, negsuc, is_negative, equal, is_nonzero, int_max, exceeds_int, int_of_bool, SocketOption,
  tcp_nodelay, so_busy_poll, Reading, stored, OptionCalls, after_getsockopt, as_flag, as_budget,
  confirm_flag, confirm_budget, integer_socket_option, set_integer_socket_option, tcp_no_delay,
  and_then, configure_tcp_no_delay, busy_poll_budget, configure_busy_poll_budget,
}
use low_latency_showcase.Sockets.Options

-- `getsockopt` returns what the descriptor holds and changes nothing; `held` is what it holds.
pub record ReadsOptions {K : Type 0} (calls : OptionCalls K) (descriptor : ℕ)
    (held : SocketOption → K → ℤ) : Type 0 where
  pub reads :
      (name : SocketOption) (k : K) {k' : K} {value : ℤ} {length : ℕ}
      → calls.getsockopt descriptor name k ≡ (stored value length, k')
      → held name k' ≡ value

-- The value that a successful call returns, if it returns one, has a property.
unfoldable pub Successful {ℓ} :
    {V K : Type ℓ} → (V → K → Type ℓ) → SocketOptionResult V × K → Type ℓ
Successful P (success v, k) = P v k
Successful P (failure e, k) = Unit

equal_sound : (i j : ℤ) → equal i j ≡ true → i ≡ j
unfolding equal
equal_sound (pos m) (pos n) h = ap pos (ground arith)
equal_sound (negsuc m) (negsuc n) h = ap negsuc (ground arith)
equal_sound (pos m) (negsuc n) h = cc
equal_sound (negsuc m) (pos n) h = cc

Successful-mono {ℓ} :
    {V K : Type ℓ} (P Q : V → K → Type ℓ) (x : SocketOptionResult V × K)
    → ((v : V) (k : K) → P v k → Q v k)
    → Successful P x
    → Successful Q x
unfolding Successful
Successful-mono P Q (success v, k) f h = f v k h
Successful-mono P Q (failure e, k) f h = tt

module _ {K : Type 0} (calls : OptionCalls K) (descriptor : ℕ) {V : Type 0} where
  and_then-Successful :
      (P : V → K → Type 0) (readback : K → SocketOptionResult V × K)
      → ((k : K) → Successful P (readback k))
      → (x : SocketOptionResult {0} Unit × K) → Successful P (and_then calls descriptor readback x)
  unfolding Successful and_then
  and_then-Successful P readback h (success _, k) = h k
  and_then-Successful P readback h (failure e, k) = tt

module _ {K : Type 0} (calls : OptionCalls K) (descriptor : ℕ) (held : SocketOption → K → ℤ)
    (options : ReadsOptions calls descriptor held) where
  abbrev Flagged : Bool → Bool → K → Type 0
  Flagged enabled b k = (b ≡ enabled) × (is_nonzero (held tcp_nodelay k) ≡ enabled)

  confirm_flag-Successful :
      (enabled b : Bool) (k : K)
      → is_nonzero (held tcp_nodelay k) ≡ b
      → Successful (Flagged enabled) (confirm_flag enabled (success b), k)
  unfolding Successful confirm_flag
  confirm_flag-Successful true true k h = (refl, h)
  confirm_flag-Successful false false k h = (refl, h)
  confirm_flag-Successful true false k h = tt
  confirm_flag-Successful false true k h = tt

  confirm_flag-failure :
      (enabled : Bool) (q : Errno) (k : K)
      → Successful (Flagged enabled) (confirm_flag enabled (failure q), k)
  unfolding Successful confirm_flag
  confirm_flag-failure true q k = tt
  confirm_flag-failure false q k = tt

  read_flag-Successful :
      (enabled : Bool) (k : K) (x : Reading × K)
      → calls.getsockopt descriptor tcp_nodelay k ≡ x
      → Successful (Flagged enabled) (confirm_flag enabled (as_flag (after_getsockopt x.0)), x.1)
  unfolding Successful as_flag after_getsockopt
  read_flag-Successful enabled k (stored value length, k') e = elim (Bool-cases (length == 4)) [
    | inl whole ↦ rw whole (
        confirm_flag-Successful enabled (is_nonzero value) k'
          (ap is_nonzero (options.reads tcp_nodelay k e)))
    | inr short ↦ rw short (confirm_flag-failure enabled eproto k')
  ]
  read_flag-Successful enabled k (Options.Reading.failed q, k') e =
      confirm_flag-failure enabled q k'

  -- If `configure_tcp_no_delay` succeeds, on a kernel whose `getsockopt` returns what a descriptor
  -- holds, then it returns what was asked for, and the descriptor holds a value of that truth.
  pub configure_tcp_no_delay-Successful :
      (enabled : Bool) (k : K)
      → Successful
          (λ b k'. (b ≡ enabled) × (is_nonzero (held tcp_nodelay k') ≡ enabled))
          (configure_tcp_no_delay calls descriptor enabled k)
  unfolding configure_tcp_no_delay and_then set_integer_socket_option tcp_no_delay
      integer_socket_option
  configure_tcp_no_delay-Successful enabled k =
      and_then-Successful calls descriptor (Flagged enabled)
        (λ k'.
          let (observed, k'') = tcp_no_delay calls descriptor k' in
          (confirm_flag enabled observed, k''))
        (λ k'. read_flag-Successful enabled k' _ refl)
        (set_integer_socket_option calls descriptor tcp_nodelay (int_of_bool enabled) k)

  abbrev Budgeted : ℤ → ℤ → K → Type 0
  Budgeted requested v k = (v ≡ requested) × (held so_busy_poll k ≡ requested)

  confirm_budget-Successful :
      (requested value : ℤ) (k : K)
      → held so_busy_poll k ≡ value
      → Successful (Budgeted requested) (confirm_budget requested (success value), k)
  unfolding Successful confirm_budget
  confirm_budget-Successful requested value k h = elim (Bool-cases (equal value requested)) [
    | inl same ↦ rw same (equal_sound value requested same, h ∙ equal_sound value requested same)
    | inr differs ↦ rw differs tt
  ]

  read_budget-Successful :
      (requested : ℤ) (k : K) (x : Reading × K)
      → calls.getsockopt descriptor so_busy_poll k ≡ x
      → Successful
          (Budgeted requested)
          (confirm_budget requested (as_budget (after_getsockopt x.0)), x.1)
  unfolding Successful as_budget after_getsockopt confirm_budget
  read_budget-Successful requested k (stored value length, k') e = elim (Bool-cases (length == 4)) [
    | inl whole ↦ rw whole (elim (Bool-cases (is_negative value)) [
      | inl below ↦ rw below tt
      | inr natural ↦
          rw natural (confirm_budget-Successful requested value k' (options.reads so_busy_poll k e))
    ])
    | inr short ↦ rw short tt
  ]
  read_budget-Successful requested k (Options.Reading.failed q, k') e = tt

  -- If `configure_busy_poll_budget` succeeds, on a kernel whose `getsockopt` returns what a
  -- descriptor holds, then the budget asked for is neither negative nor more than an `int` holds,
  -- and it is what the call returns and what the descriptor holds.
  pub configure_busy_poll_budget-Successful :
      (requested : ℤ) (k : K)
      → Successful
          (λ v k'.
            ((is_negative requested || exceeds_int requested) ≡ false)
            × (v ≡ requested)
            × (held so_busy_poll k' ≡ requested))
          (configure_busy_poll_budget calls descriptor requested k)
  unfolding Successful configure_busy_poll_budget and_then set_integer_socket_option
      busy_poll_budget integer_socket_option
  configure_busy_poll_budget-Successful requested k =
      elim (Bool-cases (is_negative requested || exceeds_int requested)) [
        | inl outside ↦ rw outside tt
        | inr inside ↦ rw inside (
            Successful-mono (Budgeted requested) _ _ (λ v k' h. (refl, h.0, h.1))
              (and_then-Successful calls descriptor (Budgeted requested)
                (λ k'.
                  let (observed, k'') = busy_poll_budget calls descriptor k' in
                  (confirm_budget requested observed, k''))
                (λ k'. read_budget-Successful requested k' _ refl)
                (set_integer_socket_option calls descriptor so_busy_poll requested k)))
      ]
