-- ===== src/CompilerInfo.antt =====
-- compiler_info.hpp: what the program says of the compiler and of the language mode that it was
-- built with. The predefined macros are the compiler's, so a build of the program is a parameter.
use low_latency_showcase.Prelude.{
  ℕ, ◌≡◌, ◌≢◌, refl, sym, ◌∙◌, ◌↔◌, Bool, false, Option, none, some, ltb, leb, if◌then◌else◌, arith,
  Bool-cases, inl, inr,
}
use mathlib.Core.Bool.{true≢false}
use Prim.Native.String.{String, ◌++◌}
use text.Mathlib.Text.{◌==◌ as str_eq}
use text.Mathlib.TextEquality.{eq_iff}

-- `__cplusplus`, `__clang_version__` where `__clang__` is defined, `__VERSION__` where `__GNUC__`
-- is, and `LLS_PROJECT_VERSION` where the build defines it.
pub record Build : Type 0 where
  pub cplusplus : ℕ
  pub clang_version : Option String
  pub gnu_version : Option String
  pub project_version : Option String

unfoldable pub cpp_standard_value : Build → ℕ
cpp_standard_value b = b.cplusplus

unfoldable pub has_cpp23_or_later : Build → Bool
unfolding cpp_standard_value
has_cpp23_or_later b = ltb 202002 (cpp_standard_value b)

unfoldable pub cpp_standard_name : Build → String
cpp_standard_name b =
    if leb 202302 b.cplusplus
    then "C++23"
    else if ltb 202002 b.cplusplus
    then "C++23 (compiler draft value)"
    else "pre-C++23"

unfoldable compiler_version : Option String → Option String → String
compiler_version (some version) _ = "Clang " ++ version
compiler_version none (some version) = "GCC " ++ version
compiler_version none none = "unknown compiler"

unfoldable pub compiler_name : Build → String
unfolding compiler_version
compiler_name b = compiler_version b.clang_version b.gnu_version

pub str_differ : (s t : String) → str_eq s t ≡ false → s ≢ t
str_differ s t differ same = true≢false (sym ((eq_iff s t).1 same) ∙ differ)

module _ (b : Build) where
  -- The name and the test agree on every value of `__cplusplus`: the language mode is called
  -- "pre-C++23" just where the test fails.
  pub cpp_standard_name-eq : (cpp_standard_name b ≡ "pre-C++23") ↔ (has_cpp23_or_later b ≡ false)
  unfolding cpp_standard_name has_cpp23_or_later cpp_standard_value
  cpp_standard_name-eq = elim (Bool-cases (leb 202302 b.cplusplus)) [
    | inl new ↦ rw new ((λ e. absurd (str_differ "C++23" "pre-C++23" refl e)), (λ e. ground arith))
    | inr old ↦ elim (Bool-cases (ltb 202002 b.cplusplus)) [
      | inl draft ↦
          rw (old, draft)
            (
              (λ e. absurd (str_differ "C++23 (compiler draft value)" "pre-C++23" refl e)),
              (λ e. absurd (true≢false e)),
            )
      | inr older ↦ rw (old, older) ((λ _. refl), (λ _. refl))
    ]
  ]
