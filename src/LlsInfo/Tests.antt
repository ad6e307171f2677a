-- ===== src/LlsInfo/Tests.antt =====
-- lls-info on concrete command lines.
use low_latency_showcase.Prelude.{ℕ, ◌≡◌, refl, none, some, List, [], ◌∷◌, ◌⊎◌}
use Prim.Native.String.{String}
use low_latency_showcase.CompilerInfo.{Build, has_cpp23_or_later, cpp_standard_value, compiler_name}
use low_latency_showcase.LlsInfo.{main, run_self_test, IsCommand, Succeeds, Fails, main-IsCommand}

-- A build whose `__cplusplus` is `mode`.
abbrev build_of : ℕ → Build
build_of mode = record {
  cplusplus = mode;
  clang_version = none;
  gnu_version = some "13.2.0";
  project_version = none;
}

-- A stream's text for the values of `__cplusplus` in these tests.
abbrev decimal : ℕ → String
decimal mode = "202100"

self_test_passes : (main decimal (build_of 202100) ("lls" ∷ "--self-test" ∷ [])).code ≡ 0
unfolding main run_self_test has_cpp23_or_later cpp_standard_value
self_test_passes = refl

self_test_fails : (main decimal (build_of 202002) ("lls" ∷ "--self-test" ∷ [])).code ≡ 1
unfolding main run_self_test has_cpp23_or_later cpp_standard_value
self_test_fails = refl

no_name_refused : (main decimal (build_of 202100) []).code ≡ 1
unfolding main
no_name_refused = refl

compiler : compiler_name (build_of 202100) ≡ "GCC 13.2.0"
unfolding compiler_name
compiler = refl

abbrev self_test : List String
self_test = "lls" ∷ "--self-test" ∷ []

main-IsCommand_example :
    (IsCommand decimal (build_of 202100) self_test
      × Succeeds decimal (build_of 202100) (main decimal (build_of 202100) self_test))
    ⊎ ((¬ IsCommand decimal (build_of 202100) self_test)
        × Fails decimal (build_of 202100) (main decimal (build_of 202100) self_test))
main-IsCommand_example = main-IsCommand decimal (build_of 202100) self_test
