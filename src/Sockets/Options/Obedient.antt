-- ===== src/Sockets/Options/Obedient.antt =====
-- The option helpers on a kernel that holds the values that it accepts.
use low_latency_showcase.Prelude.{
  ℕ, ◌^◌, ◌<◌, ◌≡◌, refl, inl, inr, ◌⊎◌, Bool, true, false, ◌||◌, Option, none, some, dec_lt, arith,
}
use low_latency_showcase.Sockets.Types.{Errno, einval, SocketOptionResult, success, failure}
use low_latency_showcase.Sockets.Options.{
  ℤ, pos, negsuc, is_negative, equal, is_nonzero, exceeds_int, int_of_bool, SocketOption,
  tcp_nodelay, so_busy_poll, stored, OptionCalls, after_getsockopt, as_flag, as_budget,
  confirm_flag, confirm_budget, integer_socket_option, set_integer_socket_option, tcp_no_delay,
  and_then, configure_tcp_no_delay, busy_poll_budget, configure_busy_poll_budget,
}

-- The values that the option may be given: an `int` that is not negative.
unfoldable pub InRange : ℤ → Type 0
InRange (pos n) = n < 2 ^ 31
InRange (negsuc n) = ⊥

-- `setsockopt` of an option refuses a value, and what the descriptor holds is as before, or accepts
-- it, and the descriptor holds it; `getsockopt` returns the `int` that is held, four bytes long.
-- Nothing is said of a value that is out of range.
pub record Obeys {K : Type 0} (calls : OptionCalls K) (descriptor : ℕ) (name : SocketOption)
    (held : K → ℤ) : Type 0 where
  pub refuses :
      (value : ℤ) (k : K) {k' : K} {e : Errno}
      → InRange value
      → calls.setsockopt descriptor name value k ≡ (some e, k')
      → held k' ≡ held k
  pub holds :
      (value : ℤ) (k : K) {k' : K}
      → InRange value
      → calls.setsockopt descriptor name value k ≡ (none, k')
      → held k' ≡ value
  pub returns : (k : K) → (calls.getsockopt descriptor name k).0 ≡ stored (held k) 4
  pub keeps : (k : K) → held (calls.getsockopt descriptor name k).1 ≡ held k

equal_refl : (i : ℤ) → equal i i ≡ true
unfolding equal
equal_refl (pos n) = ground arith
equal_refl (negsuc n) = ground arith

range_cases :
    (value : ℤ)
    → (¬ InRange value × ((is_negative value || exceeds_int value) ≡ true))
      ⊎ (InRange value
          × ((is_negative value || exceeds_int value) ≡ false)
          × (is_negative value ≡ false))
unfolding InRange is_negative exceeds_int
range_cases (pos n) = elim (dec_lt n (2 ^ 31)) [
  | yes inside ↦ inr (inside, ground arith, refl)
  | no outside ↦ inl (outside, ground arith)
]
range_cases (negsuc n) = inl (λ r. r, refl)

read_flag :
    (enabled : Bool)
    → confirm_flag enabled (success (is_nonzero (int_of_bool enabled))) ≡ success enabled
unfolding confirm_flag is_nonzero int_of_bool
read_flag true = refl
read_flag false = refl

module _ {K : Type 0} (calls : OptionCalls K) (descriptor : ℕ) (held : K → ℤ) where
  -- What a call that sets an option leaves, when the kernel is asked to hold `value`: the kernel's
  -- refusal with the old value, or success with the new one.
  unfoldable pub Settles {ℓ} :
      {V : Type ℓ} → V → ℤ → K → Option Errno → SocketOptionResult V × K → Type ℓ
  Settles v value k (some e) (outcome, k') = (outcome ≡ failure e) × (held k' ≡ held k)
  Settles v value k none (outcome, k') = (outcome ≡ success v) × (held k' ≡ value)

  budget-Settles :
      Obeys calls descriptor so_busy_poll held
      → (requested : ℤ) (k : K) → InRange requested
      → is_negative requested ≡ false
      → (x : Option Errno × K) → calls.setsockopt descriptor so_busy_poll requested k ≡ x
      → Settles requested requested k x.0 (
          and_then calls descriptor
            (λ k'.
              let (observed, k'') = busy_poll_budget calls descriptor k' in
              (confirm_budget requested observed, k''))
            (elim x.0 [ none ↦ success tt | some e ↦ failure e ], x.1))
  unfolding Settles and_then busy_poll_budget integer_socket_option after_getsockopt as_budget
      confirm_budget
  budget-Settles kernel requested k inside natural (some e, k₁) same =
      (refl, kernel.refuses requested k inside same)
  budget-Settles kernel requested k inside natural (none, k₁) same =
      rw (kernel.returns k₁, kernel.keeps k₁, kernel.holds requested k inside same)
        (rw (natural, equal_refl requested) (refl, refl))

  -- On a kernel that refuses a value from 0 to 2^31 - 1 and holds what it held, or accepts and
  -- holds it, and returns what it holds: `configure_busy_poll_budget` fails with EINVAL, and leaves
  -- the kernel as it was, for every budget outside that range; for one inside, it fails with the
  -- kernel's error and the old value if the kernel refuses, and else returns the budget, which the
  -- descriptor then holds.
  pub configure_busy_poll_budget-Obeys :
      Obeys calls descriptor so_busy_poll held
      → (requested : ℤ) (k : K)
      → let (outcome, k') = configure_busy_poll_budget calls descriptor requested k in
        (¬ InRange requested × (outcome ≡ failure einval) × (k' ≡ k))
        ⊎ (InRange requested
            × Settles requested requested k
                (calls.setsockopt descriptor so_busy_poll requested k).0
                (outcome, k'))
  unfolding configure_busy_poll_budget set_integer_socket_option
  configure_busy_poll_budget-Obeys kernel requested k = elim (range_cases requested) [
    | inl (outside, test) ↦ rw test (inl (outside, refl, refl))
    | inr (inside, test, natural) ↦
        rw test (inr (inside, budget-Settles kernel requested k inside natural _ refl))
  ]

  flag_InRange : (enabled : Bool) → InRange (int_of_bool enabled)
  unfolding InRange int_of_bool
  flag_InRange true = omega arith
  flag_InRange false = omega arith

  flag-Settles :
      Obeys calls descriptor tcp_nodelay held
      → (enabled : Bool) (k : K) (x : Option Errno × K)
      → calls.setsockopt descriptor tcp_nodelay (int_of_bool enabled) k ≡ x
      → Settles enabled (int_of_bool enabled) k x.0 (
          and_then calls descriptor
            (λ k'.
              let (observed, k'') = tcp_no_delay calls descriptor k' in
              (confirm_flag enabled observed, k''))
            (elim x.0 [ none ↦ success tt | some e ↦ failure e ], x.1))
  unfolding Settles and_then tcp_no_delay integer_socket_option after_getsockopt as_flag
  flag-Settles kernel enabled k (some e, k₁) same =
      (refl, kernel.refuses (int_of_bool enabled) k (flag_InRange enabled) same)
  flag-Settles kernel enabled k (none, k₁) same =
      rw
        (
          kernel.returns k₁,
          kernel.keeps k₁,
          kernel.holds (int_of_bool enabled) k (flag_InRange enabled) same,
        )
        (read_flag enabled, refl)

  -- On such a kernel, `configure_tcp_no_delay` fails with the kernel's error and the old value if
  -- the kernel refuses, and else returns what was asked for, which the descriptor then holds.
  pub configure_tcp_no_delay-Obeys :
      Obeys calls descriptor tcp_nodelay held
      → (enabled : Bool) (k : K)
      → Settles enabled
          (int_of_bool enabled)
          k
          (calls.setsockopt descriptor tcp_nodelay (int_of_bool enabled) k).0
          (configure_tcp_no_delay calls descriptor enabled k)
  unfolding configure_tcp_no_delay set_integer_socket_option
  configure_tcp_no_delay-Obeys kernel enabled k = flag-Settles kernel enabled k _ refl
