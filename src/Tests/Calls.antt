-- ===== src/Tests/Calls.antt =====
-- Calls of a declared transform that a function of the host runs.
use scrape_kdl.Common.Outcome.{Outcome, ok, err}
use scrape_kdl.Common.Text.{Bytes, codes, equal}
use scrape_kdl.Common.{true, false, List, [], ◌∷◌, Option, none, some, ◌≡◌, refl}
use scrape_kdl.Executor.Calls.Preflight.{
  Signature, preflight_transforms, preflight_transform, preflight_transform_types, preflight_calls,
  preflight_target, preflight_call_arguments, positional_arguments, named_arguments,
  preflight_signature, call_types, preflight_declared_types, preflight_call_continuity,
  continuity_from,
}
use scrape_kdl.Executor.Calls.Total.{ends, apply_calls-ends}
use scrape_kdl.Executor.Calls.Returns.{TypedBuiltins, PrintableExternals, Returns}
use scrape_kdl.Executor.Calls.Typed.{apply_calls-Returns}
use scrape_kdl.Executor.Calls.{TransformRuntime, apply_calls, find_declared}
use scrape_kdl.Executor.Output.Recovery.{Failure, other_error, output, identified}
use scrape_kdl.Executor.Value
use scrape_kdl.Executor.Value.{
  Value, text, Numbers, is_json_compatible, matches_runtime_type, matches_primitive,
}
use scrape_kdl.Ir.{
  TransformBase, TransformCall, declared_target, Transform, external_transform, pipeline_transform,
}
use scrape_kdl.Source.{Span}
use scrape_kdl.Executor.ValidType.{valid_runtime_type}
use scrape_kdl.Common.Space.{trim_space, runes, bytes_of, is_space}
use scrape_kdl.Common.Utf8.{decode_rune}
use scrape_kdl.Typesys.{
  Ty, primitive, parse, parse_type, parse_base, parse_primitive, parse_suffixes, finish_parse,
  read_name, skip_blanks, is_primitive, to_text, equal_type, is_assignable,
}

abbrev nowhere : Span
nowhere = record {
  file = [];
  start = record { offset = 0; line = 0; column = 0 };
  stop = record { offset = 0; line = 0; column = 0 };
}

abbrev no_numbers : Numbers
no_numbers = record {
  marshals = λ s. false;
  float_of = λ s. none;
  integer_of = λ s. none;
  format_single = λ f. [];
  format_double = λ f. [];
  double_of = λ k. Value.finite 0;
  widen = λ f. f;
  narrow = λ f. f;
}

abbrev string_type : Ty
string_type = primitive (codes "string")

abbrev call_of : Bytes → TransformCall
call_of symbol = record {
  target = declared_target (codes "declared") symbol;
  positional_arguments = [];
  named_arguments = [];
  input = string_type;
  output = string_type;
  span = nowhere;
}

abbrev base_named : Bytes → TransformBase
base_named symbol = record {
  symbol_id = symbol;
  name = symbol;
  origin = codes "module";
  input = string_type;
  output = string_type;
  span = nowhere;
}

abbrev shout : Value → Outcome Failure Value
shout v = ok (text (codes "LOUD"))

-- A function of the host, a pipeline with it, and a pipeline that calls itself.
abbrev all_transforms : List Transform
all_transforms =
    external_transform (codes "external") (base_named (codes "shout")) (codes "shout")
    ∷ pipeline_transform (codes "pipeline") (base_named (codes "label"))
        (call_of (codes "shout") ∷ [])
    ∷ pipeline_transform (codes "pipeline") (base_named (codes "loop"))
        (call_of (codes "loop") ∷ [])
    ∷ []

abbrev host : TransformRuntime
host = record {
  transforms = all_transforms;
  external = λ symbol. some shout;
  apply_builtin = λ name v call. err (other_error (codes "no built-in"));
  decode_json = λ raw. err (codes "no JSON");
  numbers = no_numbers;
  print_integer = λ k. [];
  deep_equal = λ a b. false;
}

apply_calls-ends_example :
    ends (apply_calls host output (call_of (codes "loop") ∷ []) (text (codes "a"))) ≡ true
apply_calls-ends_example =
    apply_calls-ends host output (call_of (codes "loop") ∷ []) (text (codes "a"))

abbrev no_builtins : Bytes → Option Signature
no_builtins name = none

host-TypedBuiltins : TypedBuiltins host (λ name call. Unit)
host-TypedBuiltins name v w call sound has e = absurd cc

shout-compatible : (v w : Value) → shout v ≡ ok w → is_json_compatible no_numbers w ≡ true
unfolding is_json_compatible
shout-compatible v (text s) e = refl
shout-compatible v w e = absurd cc

host-PrintableExternals : PrintableExternals host
host-PrintableExternals symbol function v w found e = shout-compatible v w cc

apply_calls-Returns_example :
    Returns host string_type
      (apply_calls host output (call_of (codes "label") ∷ []) (text (codes "a")))
unfolding preflight_transforms preflight_transform preflight_transform_types preflight_calls
    preflight_target preflight_call_arguments positional_arguments named_arguments
    preflight_signature call_types preflight_declared_types preflight_call_continuity
    continuity_from find_declared valid_runtime_type parse parse_type parse_base parse_primitive
    parse_suffixes finish_parse read_name skip_blanks is_primitive trim_space runes bytes_of
    is_space decode_rune to_text equal_type is_assignable matches_runtime_type matches_primitive
    is_json_compatible equal
apply_calls-Returns_example =
    apply_calls-Returns host no_builtins (λ name call. Unit) host-TypedBuiltins
      host-PrintableExternals (call_of (codes "label") ∷ []) string_type string_type
      (identified (codes "title")) output (text (codes "a")) refl refl refl
      (tt, ((tt, tt), ((tt, tt), tt))) (tt, tt) (refl, refl)
