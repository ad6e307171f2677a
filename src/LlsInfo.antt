-- ===== src/LlsInfo.antt =====
-- lls-info: the command-line program, as what it writes to the two streams and its exit code.
mod Tests
use low_latency_showcase.Prelude.{
  ℕ, ◌≡◌, ◌≢◌, refl, sym, ◌∙◌, ◌↔◌, ◌⊎◌, Bool, true, false, Option, none, some, List, [], ◌∷◌,
  if◌then◌else◌, Bool-cases, inl, inr, not,
}
use mathlib.Core.Bool.{true≢false}
use mathlib.Core.List.{cons-ne-nil}
use Prim.Native.String.{String}
use text.Mathlib.Text.{◌==◌ as str_eq}
use text.Mathlib.TextEquality.{eq_iff}
use low_latency_showcase.CompilerInfo.{
  Build, cpp_standard_value, has_cpp23_or_later, cpp_standard_name, compiler_name, str_differ,
  cpp_standard_name-eq,
}

-- The texts given to `std::cout` and to `std::cerr`, in order, and what `main` returns.
pub record Outcome : Type 0 where
  pub out : List String
  pub err : List String
  pub code : ℕ

unfoldable pub usage : String
usage = "Usage: lls_showcase [--help | --self-test]\n"

abbrev pub exit_success : ℕ
exit_success = 0

abbrev pub exit_failure : ℕ
exit_failure = 1

unfoldable project_version_text : Option String → String
project_version_text none = "development"
project_version_text (some version) = version

-- `decimal` is how a stream writes a `long`.
module _ (decimal : ℕ → String) (b : Build) where
  unfoldable pub run_self_test : Outcome
  run_self_test =
      if not (has_cpp23_or_later b)
      then record {
        out = [];
        err = "FAIL: the executable was not built in C++23 mode\n" ∷ [];
        code = exit_failure;
      }
      else record {
        out = "PASS: C++23 compiler mode detected\n" ∷ [];
        err = [];
        code = exit_success;
      }

  unfoldable pub print_summary : List String
  unfolding project_version_text
  print_summary =
      "Low Latency Showcase "
      ∷ project_version_text b.project_version
      ∷ "\n"
      ∷ "Compiler: "
      ∷ compiler_name b
      ∷ "\n"
      ∷ "Language mode: "
      ∷ cpp_standard_name b
      ∷ " ("
      ∷ decimal (cpp_standard_value b)
      ∷ ")\n"
      ∷ "\n"
      ∷ "Every technique in this project must be measured, reproducible, and documented with its trade-offs.\n"
      ∷ []

  abbrev refuse : Outcome
  refuse = record { out = []; err = usage ∷ []; code = exit_failure }

  -- The list is `argv`, the program's own name included, and its length is `argc`.
  unfoldable pub main : List String → Outcome
  main (program ∷ []) = record { out = print_summary; err = []; code = exit_success }
  main (program ∷ argument ∷ []) =
      if str_eq argument "--help"
      then record { out = usage ∷ []; err = []; code = exit_success }
      else if str_eq argument "--self-test"
      then run_self_test
      else refuse
  main _ = refuse

  -- The command lines that the program is for.
  unfoldable pub IsCommand : List String → Type 0
  IsCommand [] = ⊥
  IsCommand (program ∷ []) = Unit
  IsCommand (program ∷ argument ∷ []) =
      (argument ≡ "--help") ⊎ ((argument ≡ "--self-test") × (cpp_standard_name b ≢ "pre-C++23"))
  IsCommand (program ∷ argument ∷ more ∷ rest) = ⊥

  -- Success is the exit code 0, with something on the standard output and nothing on the other
  -- stream; failure is the exit code 1, the other way round.
  unfoldable pub Succeeds : Outcome → Type 0
  Succeeds o = (o.code ≡ 0) × (o.out ≢ []) × (o.err ≡ [])

  unfoldable pub Fails : Outcome → Type 0
  Fails o = (o.code ≡ 1) × (o.out ≡ []) × (o.err ≢ [])

  run_self_test-cases :
      ((cpp_standard_name b ≢ "pre-C++23") × Succeeds run_self_test)
      ⊎ ((cpp_standard_name b ≡ "pre-C++23") × Fails run_self_test)
  unfolding run_self_test Succeeds Fails
  run_self_test-cases = elim (Bool-cases (has_cpp23_or_later b)) [
    | inl new ↦ rw new (
        inl (
          (λ old. true≢false (sym new ∙ (cpp_standard_name-eq b).0 old)),
          (refl, cons-ne-nil _ _, refl),
        ))
    | inr old ↦ rw old (inr ((cpp_standard_name-eq b).1 old, (refl, refl, cons-ne-nil _ _)))
  ]

  refuse-Fails : Fails refuse
  unfolding Fails
  refuse-Fails = (refl, refl, cons-ne-nil _ _)

  -- On every command line, the empty one included: a command of the program succeeds, and all else
  -- fails.
  pub main-IsCommand :
      (argv : List String)
      → (IsCommand argv × Succeeds (main argv)) ⊎ ((¬ IsCommand argv) × Fails (main argv))
  unfolding main IsCommand Succeeds print_summary
  main-IsCommand [] = inr ((λ c. c), refuse-Fails)
  main-IsCommand (program ∷ []) = inl (tt, (refl, cons-ne-nil _ _, refl))
  main-IsCommand (program ∷ argument ∷ []) = elim (Bool-cases (str_eq argument "--help")) [
    | inl help ↦
        rw help (inl (inl ((eq_iff argument "--help").0 help), (refl, cons-ne-nil _ _, refl)))
    | inr no_help ↦ elim (Bool-cases (str_eq argument "--self-test")) [
      | inl test ↦
          let same = (eq_iff argument "--self-test").0 test in
          rw (no_help, test)
            (elim run_self_test-cases [
              | inl (new, s) ↦ inl (inr (same, new), s)
              | inr (old, f) ↦ inr (
                (λ c. elim c [
                  | inl h ↦ str_differ argument "--help" no_help h
                  | inr (_, new) ↦ new old
                ]),
                f,
              )
            ])
      | inr other ↦
          rw (no_help, other)
            (inr (
              (λ c. elim c [
                | inl h ↦ str_differ argument "--help" no_help h
                | inr (t, _) ↦ str_differ argument "--self-test" other t
              ]),
              refuse-Fails,
            ))
    ]
  ]
  main-IsCommand (program ∷ argument ∷ more ∷ rest) = inr ((λ c. c), refuse-Fails)
