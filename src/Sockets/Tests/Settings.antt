-- ===== src/Sockets/Tests/Settings.antt =====
-- The option helpers on a kernel that refuses large values.
use low_latency_showcase.Prelude.{
  ℕ, ◌≡◌, refl, ◌⊎◌, true, Option, none, some, leb, arith, if◌then◌else◌,
}
use low_latency_showcase.Sockets.Types.{Errno, einval, other, success, failure}
use low_latency_showcase.Sockets.Options.{
  ℤ, pos, negsuc, int_of_bool, SocketOption, tcp_nodelay, so_busy_poll, stored, OptionCalls,
  configure_tcp_no_delay, configure_busy_poll_budget,
}
use low_latency_showcase.Sockets.Options.Obedient.{
  InRange, Obeys, Settles, configure_busy_poll_budget-Obeys, configure_tcp_no_delay-Obeys,
}

abbrev set_at_most : ℕ → ℤ → ℤ → Option Errno × ℤ
set_at_most largest (pos n) k = if leb n largest then (none, pos n) else (some (other 1), k)
set_at_most largest (negsuc n) k = (some einval, k)

-- One option, whatever its name, of at most 100.
abbrev cell : OptionCalls ℤ
cell = record {
  getsockopt = λ descriptor name k. (stored k 4, k);
  setsockopt = λ descriptor name value k. set_at_most 100 value k;
}

cell-Obeys : (name : SocketOption) → Obeys cell 5 name (λ k. k)
cell-Obeys name = record {
  refuses = λ value k inside same. refused value k same;
  holds = λ value k inside same. accepted value k same;
  returns = λ k. refl;
  keeps = λ k. refl;
}
  where
    refused : (value k : ℤ) {k' : ℤ} {e : Errno} → set_at_most 100 value k ≡ (some e, k') → k' ≡ k
    refused (pos n) k same = ground arith
    refused (negsuc n) k same = cc

    accepted : (value k : ℤ) {k' : ℤ} → set_at_most 100 value k ≡ (none, k') → k' ≡ value
    accepted (pos n) k same = ground arith
    accepted (negsuc n) k same = cc

configure_busy_poll_budget-Obeys_example :
    let (outcome, k') = configure_busy_poll_budget cell 5 (pos 50) (pos 7) in
    (¬ InRange (pos 50) × (outcome ≡ failure einval) × (k' ≡ pos 7))
    ⊎ (InRange (pos 50)
        × Settles cell 5
            (λ k. k)
            (pos 50)
            (pos 50)
            (pos 7)
            (cell.setsockopt 5 so_busy_poll (pos 50) (pos 7)).0
            (outcome, k'))
configure_busy_poll_budget-Obeys_example =
    configure_busy_poll_budget-Obeys cell 5 (λ k. k) (cell-Obeys so_busy_poll) (pos 50) (pos 7)

-- A budget that the kernel accepts, one that it refuses, and two that are not passed to it.
budgets_tried :
    (configure_busy_poll_budget cell 5 (pos 50) (pos 7) ≡ (success (pos 50), pos 50))
    × (configure_busy_poll_budget cell 5 (pos 101) (pos 7) ≡ (failure (other 1), pos 7))
    × (configure_busy_poll_budget cell 5 (pos 2147483648) (pos 7) ≡ (failure einval, pos 7))
    × (configure_busy_poll_budget cell 5 (negsuc 0) (pos 7) ≡ (failure einval, pos 7))
unfolding configure_busy_poll_budget
budgets_tried = (refl, refl, refl, refl)

no_delay_set :
    Settles cell 5
      (λ k. k)
      true
      (int_of_bool true)
      (pos 0)
      (cell.setsockopt 5 tcp_nodelay (int_of_bool true) (pos 0)).0
      (configure_tcp_no_delay cell 5 true (pos 0))
no_delay_set = configure_tcp_no_delay-Obeys cell 5 (λ k. k) (cell-Obeys tcp_nodelay) true (pos 0)
