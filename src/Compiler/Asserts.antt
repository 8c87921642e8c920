-- ===== src/Compiler/Asserts.antt =====
-- The built-ins that return their input.
use scrape_kdl.Common.Outcome.{ok, check}
use scrape_kdl.Common.Text.{Bytes, codes}
use scrape_kdl.Common.{Bool, List, [], ◌∷◌, if_both}
use scrape_kdl.Compiler.Values.{Gives, Gives-bind, Gives-check}
use scrape_kdl.Executor.Builtins.Arguments.{given, lifted, require_string, named_argument}
use scrape_kdl.Executor.Builtins.Asserts.{
  keeps, numeric_big_float, builtin_assert_matches, builtin_assert_enum, builtin_assert_bound,
}
use scrape_kdl.Executor.Builtins.Library.{Library}
use scrape_kdl.Executor.Builtins.Regexp.{compile_runtime_regex}
use scrape_kdl.Executor.Calls.Returns.{Has}
use scrape_kdl.Executor.Calls.{TransformRuntime, equal_scalar}
use scrape_kdl.Executor.Output.Recovery.{other_error}
use scrape_kdl.Executor.Value.{Value}
use scrape_kdl.Ir.{NamedArgument}
use scrape_kdl.Typesys.{Ty}

module _ (runtime : TransformRuntime) (library : Library) where
  pub builtin_assert_enum-Gives :
      (input : Ty) (v : Value) (raws : List Bytes)
      → Has runtime input v
      → Gives runtime input (builtin_assert_enum runtime library v raws)
  unfolding builtin_assert_enum
  builtin_assert_enum-Gives input v [] h = tt
  builtin_assert_enum-Gives input v (raw ∷ raws) h =
      Gives-bind runtime input (lifted (runtime.decode_json raw)) _ λ value _.
        if_both (Gives runtime input) (equal_scalar runtime v value) h
          (builtin_assert_enum-Gives input v raws h)

  module _ (arguments : List NamedArgument) where
    pub builtin_assert_matches-Gives :
        (input : Ty) (v : Value)
        → Has runtime input v
        → Gives runtime input (builtin_assert_matches runtime library arguments v)
    unfolding builtin_assert_matches
    builtin_assert_matches-Gives input v h = Gives-bind runtime input (require_string v) _ λ s _.
        Gives-bind runtime input (compile_runtime_regex runtime library arguments) _ λ regex _.
          Gives-check runtime input
            (check (regex.match_string s)
              (other_error (codes "value does not match required pattern")))
            (ok v) h

    pub builtin_assert_bound-Gives :
        (input : Ty) (v : Value) (minimum : Bool)
        → Has runtime input v
        → Gives runtime input (builtin_assert_bound runtime library arguments v minimum)
    unfolding builtin_assert_bound
    builtin_assert_bound-Gives input v minimum h =
        Gives-bind runtime input (named_argument runtime library arguments (codes "value")) _
          λ argument _.
            Gives-bind runtime input (given (codes "numeric bound is required") argument) _
              λ bound _. Gives-bind runtime input (numeric_big_float runtime library v) _ λ left _.
                Gives-bind runtime input (numeric_big_float runtime library bound) _ λ right _.
                  if_both (Gives runtime input) (keeps minimum (library.compare_big left right)) h
                    tt
