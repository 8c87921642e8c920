-- ===== src/Tests/Builtins.antt =====
-- Calls of built-ins, and a compiled pipeline with one.
use Prim.Native.Nat.{Ordering}
use scrape_kdl.Common.Int.{pos, negsuc}
use scrape_kdl.Common.Outcome.{ok, err, ◌>>=◌}
use scrape_kdl.Common.Text.{Bytes, codes, equal}
use scrape_kdl.Common.{false, List, [], ◌∷◌, none, ◌≡◌, refl, length}
use scrape_kdl.Compiler.Builtins.{apply_builtin, builtin_type}
use scrape_kdl.Compiler.Helpers.{string_property}
use scrape_kdl.Compiler.Numbers.{SingleFloats}
use scrape_kdl.Compiler.Pipelines.{apply_calls-wired-Returns}
use scrape_kdl.Compiler.Soundness.{CopiedFrom, apply_builtin_runtime-Gives}
use scrape_kdl.Compiler.Values.{Gives}
use scrape_kdl.Executor.Builtins.Apply.{builtin_named, apply_builtin_runtime}
use scrape_kdl.Executor.Builtins.Arguments.{
  find_argument, named_argument, required_string, optional_int, optional_natural,
}
use scrape_kdl.Executor.Builtins.IntegerRoundTrip.{builtin_parse_int-builtin_to_string}
use scrape_kdl.Executor.Builtins.Library.{Library}
use scrape_kdl.Executor.Builtins.Parse.{builtin_parse_int, builtin_to_string, parse_integer}
use scrape_kdl.Executor.Builtins.Pieces.{builtin_join-builtin_split, builtin_replace-eq-join}
use scrape_kdl.Executor.Builtins.Ranges.{InRange, parse_integer-InRange}
use scrape_kdl.Executor.Builtins.Slices.{within, place_of, slice_runes-eq-within}
use scrape_kdl.Executor.Builtins.Strings.{
  builtin_replace, builtin_split, builtin_join, slice_runes, spell,
}
use scrape_kdl.Executor.Builtins.Wiring.{signature, wired}
use scrape_kdl.Executor.Calls.Preflight.{
  preflight_transforms, preflight_calls, preflight_target, preflight_call_arguments,
  positional_arguments, named_arguments, preflight_signature, call_types, preflight_declared_types,
  preflight_call_continuity, continuity_from,
}
use scrape_kdl.Executor.Calls.Returns.{Returns, PrintableExternals}
use scrape_kdl.Executor.Calls.{TransformRuntime, apply_calls}
use scrape_kdl.Executor.Integer
use scrape_kdl.Executor.Normalize.{fits_signed}
use scrape_kdl.Executor.Output.Recovery.{output, identified}
use scrape_kdl.Executor.Value
use scrape_kdl.Executor.Value.{
  Value, text, integer, Numbers, matches_runtime_type, matches_primitive, is_json_compatible,
}
use scrape_kdl.Executor.ValidType.{valid_runtime_type}
use scrape_kdl.Ir.{TransformCall, NamedArgument, builtin_target}
use scrape_kdl.Kdl.Ast
use scrape_kdl.Kdl.Ast.{Node, property}
use scrape_kdl.Kdl.Token.{text_value}
use scrape_kdl.Source.{Span}
use scrape_kdl.Typesys.Kinds.{is_string, is_integer}
use scrape_kdl.Common.Space.{Rune, runes, trim_space, bytes_of, is_space}
use scrape_kdl.Common.Utf8.{decode_rune}
use scrape_kdl.Contract.{lookup}
use scrape_kdl.Typesys.{
  primitive, parse, parse_type, parse_base, parse_primitive, parse_suffixes, finish_parse,
  read_name, skip_blanks, is_primitive, to_text, equal_type, is_assignable,
}

abbrev pub nowhere : Span
nowhere = record {
  file = [];
  start = record { offset = 0; line = 0; column = 0 };
  stop = record { offset = 0; line = 0; column = 0 };
}

abbrev pub plain_numbers : Numbers
plain_numbers = record {
  marshals = λ s. false;
  float_of = λ s. none;
  integer_of = λ s. none;
  format_single = λ f. [];
  format_double = λ f. [];
  double_of = λ k. Value.finite 0;
  widen = λ f. f;
  narrow = λ f. f;
}

-- A literal is decoded to its own text.
abbrev pub plain_runtime : TransformRuntime
plain_runtime = record {
  transforms = [];
  external = λ symbol. none;
  apply_builtin = λ name v call. ok v;
  decode_json = λ raw. ok (text raw);
  numbers = plain_numbers;
  print_integer = λ k. [];
  deep_equal = λ v w. false;
}

abbrev pub plain_library : Library
plain_library = record {
  to_lower = λ s. s;
  to_upper = λ s. s;
  compile = λ s. err [];
  parse_float = λ bits s. none;
  integral = λ f. none;
  infinite_big = λ s. none;
  compare_big = λ a b. Ordering.eq;
  parse_url = λ s. err [];
  resolve = λ base reference. [];
  parse_query = λ s. err [];
  path_unescape = λ s. ok s;
}

abbrev argument : Bytes → Bytes → List NamedArgument
argument name value = record { name = name; value = value } ∷ []

abbrev as_i8 : List NamedArgument
as_i8 = argument (codes "as") (codes "i8")

-- The runes of "abc" from the second one to the one before the last.
abbrev abc : List Rune
abc = (b'a', b'a' ∷ []) ∷ (b'b', b'b' ∷ []) ∷ (b'c', b'c' ∷ []) ∷ []

slice_runes-eq-within_example :
    slice_runes abc (pos 1) (negsuc 0)
    ≡ spell (within (place_of (pos 1) (length abc)) (place_of (negsuc 0) (length abc)) 0 abc)
slice_runes-eq-within_example = slice_runes-eq-within abc (pos 1) (negsuc 0)

builtin_parse_int-builtin_to_string_example :
    (builtin_to_string plain_numbers (integer Value.int8 (negsuc 127))
      >>= builtin_parse_int plain_runtime plain_library as_i8)
    ≡ ok (integer Value.int8 (negsuc 127))
unfolding Integer.holds fits_signed required_string optional_int named_argument find_argument equal
builtin_parse_int-builtin_to_string_example =
    builtin_parse_int-builtin_to_string plain_runtime plain_library as_i8 Integer.i8 (negsuc 127)
      refl refl refl

builtin_join-builtin_split_example :
    (builtin_split plain_runtime plain_library
        (argument (codes "separator") (codes ", "))
        (text (codes "a, b"))
      >>= builtin_join plain_runtime plain_library (argument (codes "separator") (codes ", ")))
    ≡ ok (text (codes "a, b"))
unfolding required_string optional_natural named_argument find_argument equal
builtin_join-builtin_split_example =
    builtin_join-builtin_split plain_runtime plain_library
      (argument (codes "separator") (codes ", ")) b',' (codes " ") (codes "a, b") refl refl

abbrev dash_for_dot : List NamedArgument
dash_for_dot =
    record { name = codes "old"; value = codes "." }
    ∷ record { name = codes "new"; value = codes "-" }
    ∷ []

builtin_replace-eq-join_example :
    builtin_replace plain_runtime plain_library dash_for_dot (text (codes "1.2.3")) ≡ (
      builtin_split plain_runtime plain_library
        (argument (codes "separator") (codes "."))
        (text (codes "1.2.3"))
      >>= builtin_join plain_runtime plain_library (argument (codes "separator") (codes "-")))
unfolding required_string optional_natural named_argument find_argument equal
builtin_replace-eq-join_example =
    builtin_replace-eq-join plain_runtime plain_library dash_for_dot
      (argument (codes "separator") (codes ".")) (argument (codes "separator") (codes "-")) b'.' []
      (codes "-") (codes "1.2.3") refl refl refl refl refl refl

parse_integer-InRange_example :
    InRange (codes "u8") (parse_integer (codes "255") (codes "u8") (pos 10))
parse_integer-InRange_example = parse_integer-InRange (codes "255") (codes "u8") (pos 10)

-- `apply "parse-int" as="i8"`.
abbrev int_node : Node
int_node =
    Ast.node (codes "apply") []
      (record {
        name = codes "as";
        value = record {
          kind = Ast.ValueKind.string;
          raw = codes "i8";
          value = text_value (codes "i8");
          span = nowhere;
        };
        span = nowhere;
      }
        ∷ [])
      Ast.nil nowhere

abbrev int_call : TransformCall
int_call = record {
  target = builtin_target (codes "builtin") (codes "parse-int");
  positional_arguments = [];
  named_arguments = as_i8;
  input = primitive (codes "string");
  output = primitive (codes "i8");
  span = nowhere;
}

plain-SingleFloats : SingleFloats plain_runtime plain_library
plain-SingleFloats s f read finite = absurd cc

parse-CopiedFrom : CopiedFrom plain_runtime plain_library int_node int_call
unfolding string_property property required_string named_argument find_argument equal
parse-CopiedFrom name h = cc

typed_parse :
    apply_builtin (codes "parse-int") (primitive (codes "string")) int_node
    ≡ ok (primitive (codes "i8"))
unfolding apply_builtin builtin_type builtin_named string_property property is_string is_integer
    parse parse_type parse_base parse_primitive parse_suffixes finish_parse read_name skip_blanks
    is_primitive trim_space runes bytes_of is_space decode_rune equal
typed_parse = refl

apply_builtin_runtime-Gives_example : Gives plain_runtime (primitive (codes "i8")) (
    apply_builtin_runtime plain_runtime plain_library
      (codes "parse-int")
      (text (codes "-7"))
      int_call)
unfolding matches_runtime_type matches_primitive is_json_compatible equal
apply_builtin_runtime-Gives_example =
    apply_builtin_runtime-Gives plain_runtime plain_library plain-SingleFloats (codes "parse-int")
      (primitive (codes "string")) int_node int_call (text (codes "-7")) parse-CopiedFrom
      typed_parse (refl, refl)

plain-PrintableExternals : PrintableExternals plain_runtime
plain-PrintableExternals symbol function v w found e = absurd cc

apply_calls-wired-Returns_example :
    Returns plain_runtime
      (primitive (codes "i8"))
      (apply_calls (wired plain_runtime plain_library) output (int_call ∷ []) (text (codes "-7")))
unfolding preflight_transforms preflight_calls preflight_target preflight_call_arguments
    positional_arguments named_arguments preflight_signature call_types preflight_declared_types
    preflight_call_continuity continuity_from signature lookup valid_runtime_type parse parse_type
    parse_base parse_primitive parse_suffixes finish_parse read_name skip_blanks is_primitive
    trim_space runes bytes_of is_space decode_rune to_text equal_type is_assignable
    matches_runtime_type matches_primitive is_json_compatible equal
apply_calls-wired-Returns_example =
    apply_calls-wired-Returns plain_runtime plain_library plain-SingleFloats
      plain-PrintableExternals (int_call ∷ []) (primitive (codes "string")) (primitive (codes "i8"))
      (identified (codes "title")) output (text (codes "-7")) refl refl refl tt
      ((int_node, parse-CopiedFrom, typed_parse), tt) (refl, refl)
