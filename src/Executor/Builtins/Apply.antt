-- ===== src/Executor/Builtins/Apply.antt =====
-- internal/executor/builtins.go: `applyBuiltinRuntime`.
use scrape_kdl.Common.Outcome.{ok, ◌>>=◌}
use scrape_kdl.Common.Space.{trim_space}
use scrape_kdl.Common.Text.{Bytes, codes, equal}
use scrape_kdl.Common.{true, false, Option, none, some, if◌then◌else◌}
use scrape_kdl.Executor.Builtins.Arguments.{Result, fails, given, require_string, named_argument}
use scrape_kdl.Executor.Builtins.Asserts.{
  builtin_assert_matches, builtin_assert_enum, builtin_assert_bound,
}
use scrape_kdl.Executor.Builtins.Library.{Library}
use scrape_kdl.Executor.Builtins.Parse.{
  builtin_parse_int, builtin_parse_float, builtin_parse_bool, builtin_to_string,
}
use scrape_kdl.Executor.Builtins.Regexp.{builtin_regex_replace, builtin_regex_capture}
use scrape_kdl.Executor.Builtins.Strings.{
  builtin_text, normalize_whitespace, empty_to_null, builtin_replace, builtin_substring,
  builtin_split, builtin_join, builtin_prepend, builtin_append,
}
use scrape_kdl.Executor.Builtins.Urls.{
  builtin_url_resolve, builtin_url_query, builtin_url_path, builtin_path_segment,
}
use scrape_kdl.Executor.Calls.{TransformRuntime}
use scrape_kdl.Executor.Normalize.{normalize_json_result}
use scrape_kdl.Executor.Value.{Value, is_null}
use scrape_kdl.Ir.{TransformCall}

-- The names of the switch.
pub data Builtin : Type 0 where
  trim normalize_space lowercase uppercase replace regex_replace regex_capture : Builtin
  substring split join prepend append parse_int parse_float parse_bool to_string : Builtin
  void_to_null coalesce url_resolve url_query url_path path_segment : Builtin
  assert_matches assert_enum assert_min assert_max : Builtin

unfoldable pub builtin_named : Bytes → Option Builtin
unfolding equal
builtin_named name =
    if equal name (codes "trim")
    then some trim
    else if equal name (codes "normalize-whitespace")
    then some normalize_space
    else if equal name (codes "lowercase")
    then some lowercase
    else if equal name (codes "uppercase")
    then some uppercase
    else if equal name (codes "replace")
    then some replace
    else if equal name (codes "regex-replace")
    then some regex_replace
    else if equal name (codes "regex-capture")
    then some regex_capture
    else if equal name (codes "substring")
    then some substring
    else if equal name (codes "split")
    then some split
    else if equal name (codes "join")
    then some join
    else if equal name (codes "prepend")
    then some prepend
    else if equal name (codes "append")
    then some append
    else if equal name (codes "parse-int")
    then some parse_int
    else if equal name (codes "parse-float")
    then some parse_float
    else if equal name (codes "parse-bool")
    then some parse_bool
    else if equal name (codes "to-string")
    then some to_string
    else if equal name (codes "empty-to-null")
    then some void_to_null
    else if equal name (codes "coalesce")
    then some coalesce
    else if equal name (codes "url-resolve")
    then some url_resolve
    else if equal name (codes "url-query")
    then some url_query
    else if equal name (codes "url-path")
    then some url_path
    else if equal name (codes "path-segment")
    then some path_segment
    else if equal name (codes "assert-matches")
    then some assert_matches
    else if equal name (codes "assert-enum")
    then some assert_enum
    else if equal name (codes "assert-min")
    then some assert_min
    else if equal name (codes "assert-max")
    then some assert_max
    else none

module _ (runtime : TransformRuntime) (library : Library) (call : TransformCall) where
  -- The case of `coalesce`.
  unfoldable pub builtin_coalesce : Value → Result Value
  unfolding named_argument
  builtin_coalesce input =
      if is_null input
      then (named_argument runtime library call.named_arguments (codes "value")
          >>= given (codes "coalesce requires value")
          >>= λ v.
              given (codes "coalesce value of type %T is not assignable to %s")
                (normalize_json_result runtime.numbers v call.output))
      else ok input

  unfoldable pub run_builtin : Builtin → Value → Result Value
  unfolding normalize_whitespace trim_space require_string builtin_coalesce
  run_builtin trim input = builtin_text trim_space input
  run_builtin normalize_space input = builtin_text normalize_whitespace input
  run_builtin lowercase input = builtin_text library.to_lower input
  run_builtin uppercase input = builtin_text library.to_upper input
  run_builtin replace input = builtin_replace runtime library call.named_arguments input
  run_builtin regex_replace input = builtin_regex_replace runtime library call.named_arguments input
  run_builtin regex_capture input = builtin_regex_capture runtime library call.named_arguments input
  run_builtin substring input = builtin_substring runtime library call.named_arguments input
  run_builtin split input = builtin_split runtime library call.named_arguments input
  run_builtin join input = builtin_join runtime library call.named_arguments input
  run_builtin prepend input = builtin_prepend runtime library call.named_arguments input
  run_builtin append input = builtin_append runtime library call.named_arguments input
  run_builtin parse_int input = builtin_parse_int runtime library call.named_arguments input
  run_builtin parse_float input = builtin_parse_float runtime library call.named_arguments input
  run_builtin parse_bool input = builtin_parse_bool runtime library call.named_arguments input
  run_builtin to_string input = builtin_to_string runtime.numbers input
  run_builtin void_to_null input = empty_to_null input
  run_builtin coalesce input = builtin_coalesce input
  run_builtin url_resolve input = builtin_url_resolve runtime library call.named_arguments input
  run_builtin url_query input = builtin_url_query runtime library call.named_arguments input
  run_builtin url_path input = builtin_url_path library input
  run_builtin path_segment input = builtin_path_segment runtime library call.named_arguments input
  run_builtin assert_matches input =
      builtin_assert_matches runtime library call.named_arguments input
  run_builtin assert_enum input =
      builtin_assert_enum runtime library input call.positional_arguments
  run_builtin assert_min input =
      builtin_assert_bound runtime library call.named_arguments input true
  run_builtin assert_max input =
      builtin_assert_bound runtime library call.named_arguments input false

  abbrev pub run_named : Option Builtin → Value → Result Value
  run_named none input = fails (codes "unknown built-in %q")
  run_named (some b) input = run_builtin b input

-- `applyBuiltinRuntime`.
unfoldable pub apply_builtin_runtime :
    TransformRuntime → Library → Bytes → Value → TransformCall → Result Value
unfolding builtin_named run_builtin
apply_builtin_runtime runtime library name input call =
    run_named runtime library call (builtin_named name) input
