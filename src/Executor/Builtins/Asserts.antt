-- ===== src/Executor/Builtins/Asserts.antt =====
-- internal/executor/builtins.go: the built-ins that test a value and return it.
use Prim.Native.Nat.{Ordering}
use scrape_kdl.Common.Outcome.{ok, ◌>>=◌, ◌>>◌, check}
use scrape_kdl.Common.Text.{Bytes, codes}
use scrape_kdl.Common.{Bool, true, false, List, [], ◌∷◌, Option, none, some, if◌then◌else◌}
use scrape_kdl.Executor.Builtins.Arguments.{
  Result, fails, lifted, given, require_string, named_argument,
}
use scrape_kdl.Executor.Builtins.Library.{Library}
use scrape_kdl.Executor.Builtins.Regexp.{compile_runtime_regex}
use scrape_kdl.Executor.Calls.{TransformRuntime, equal_scalar, number_string}
use scrape_kdl.Executor.Output.Recovery.{other_error}
use scrape_kdl.Executor.Value.{Value}
use scrape_kdl.Ir.{NamedArgument}

-- Whether a comparison of a value with a bound keeps it.
abbrev pub keeps : (minimum : Bool) → Ordering → Bool
keeps true Ordering.lt = false
keeps false Ordering.gt = false
keeps minimum comparison = true

module _ (runtime : TransformRuntime) (library : Library) where
  -- `numericBigFloat`, as the text of the number that is read.
  abbrev finite_big : Bytes → Option Bool → Result Bytes
  finite_big s none = fails (codes "invalid number %q: %w")
  finite_big s (some true) = fails (codes "number must be finite")
  finite_big s (some false) = ok s

  unfoldable pub numeric_big_float : Value → Result Bytes
  unfolding number_string
  numeric_big_float v = given (codes "expected number, got %T") (number_string runtime v) >>= λ s.
      finite_big s (library.infinite_big s)

  unfoldable pub builtin_assert_enum : Value → List Bytes → Result Value
  unfolding equal_scalar
  builtin_assert_enum input [] = fails (codes "value is outside the allowed enum")
  builtin_assert_enum input (raw ∷ raws) = do
    let rest = builtin_assert_enum input raws
    value ← lifted (runtime.decode_json raw)
    if equal_scalar runtime input value then ok input else rest

module _ (runtime : TransformRuntime) (library : Library) (arguments : List NamedArgument) where
  unfoldable pub builtin_assert_matches : Value → Result Value
  unfolding require_string compile_runtime_regex
  builtin_assert_matches input = do
    value ← require_string input
    regex ← compile_runtime_regex runtime library arguments
    check (regex.match_string value) (other_error (codes "value does not match required pattern"))
    ok input

  abbrev passes : Bool → Value → (left right : Bytes) → Result Value
  passes minimum input left right =
      if keeps minimum (library.compare_big left right)
      then ok input
      else fails (codes "value is beyond its bound")

  unfoldable pub builtin_assert_bound : Value → (minimum : Bool) → Result Value
  unfolding named_argument numeric_big_float
  builtin_assert_bound input minimum = do
    argument ← named_argument runtime library arguments (codes "value")
    bound ← given (codes "numeric bound is required") argument
    left ← numeric_big_float runtime library input
    right ← numeric_big_float runtime library bound
    passes minimum input left right
