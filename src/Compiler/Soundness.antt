-- ===== src/Compiler/Soundness.antt =====
-- The types that the compiler gives to calls of built-ins hold at run time.
use scrape_kdl.Common.Outcome.{ok, err, ◌>>=◌}
use scrape_kdl.Common.Space.{trim_space}
use scrape_kdl.Common.Text.{Bytes, codes, equal_iff}
use scrape_kdl.Common.{
  Bool, true, false, not, ◌&&◌, Option, none, some, if◌then◌else◌, ◌≡◌, refl, arith, if_rule,
}
use scrape_kdl.Compiler.Asserts.{
  builtin_assert_enum-Gives, builtin_assert_matches-Gives, builtin_assert_bound-Gives,
}
use scrape_kdl.Compiler.Builtins.{
  Typed, string_type, from_string, parsed_type, float_type, inner_type, behind, builtin_type,
  named_type, apply_builtin, is_nullable_kind, is_float_name,
}
use scrape_kdl.Compiler.Helpers.{string_property}
use scrape_kdl.Compiler.Numbers.{
  integer_type-ok, if_ok, builtin_to_string-Gives, SingleFloats, builtin_parse_int-Gives,
  builtin_parse_float-Gives, builtin_parse_bool-Gives,
}
use scrape_kdl.Compiler.Strings.{
  builtin_text-Gives, empty_to_null-Gives, builtin_prepend-Gives, builtin_append-Gives,
  builtin_replace-Gives, builtin_substring-Gives, builtin_regex_replace-Gives,
  builtin_url_resolve-Gives, builtin_regex_capture-Gives, builtin_url_query-Gives,
  builtin_path_segment-Gives, builtin_url_path-Gives, builtin_join-Gives, builtin_split-Gives,
}
use scrape_kdl.Compiler.Values.{Gives, Gives-bind}
use scrape_kdl.Diagnostic.{Message}
use scrape_kdl.Executor.Builtins.Apply.{
  Builtin, builtin_named, builtin_coalesce, run_builtin, run_named, apply_builtin_runtime,
}
use scrape_kdl.Executor.Builtins.Arguments.{Result, given, required_string, named_argument}
use scrape_kdl.Executor.Builtins.Library.{Library}
use scrape_kdl.Executor.Builtins.Strings.{normalize_whitespace}
use scrape_kdl.Executor.Calls.Returns.{Has}
use scrape_kdl.Executor.Calls.{TransformRuntime}
use scrape_kdl.Executor.Conforms.{Conforms, normalize_json_result-Conforms}
use scrape_kdl.Executor.Normalize.{normalize_json_result}
use scrape_kdl.Executor.Value.{Value, is_null, matches_runtime_type}
use scrape_kdl.Ir.{TransformCall}
use scrape_kdl.Kdl.Ast.{Node}
use scrape_kdl.Typesys.Kinds.{is_string, is_string_array, is_numeric, is_scalar}
use scrape_kdl.Typesys.{
  Ty, primitive, array, nullable, array_nil, nullable_nil, other, make_nullable, parse,
}

behind-ok : (first rest : Typed) (output : Ty) → behind first rest ≡ ok output → rest ≡ ok output
behind-ok (ok t) rest output h = h
behind-ok (err e) rest output h = absurd cc

parsed_type-ok :
    (o : Option Bytes) (output : Ty)
    → parsed_type o ≡ ok output
    → (name : Bytes) × (o ≡ some name) × (parse name ≡ ok output)
parsed_type-ok none output h = absurd cc
parsed_type-ok (some name) output h = (name, refl, integer_type-ok (parse name) output h)

float_type-ok :
    (o : Option Bytes) (output : Ty)
    → float_type o ≡ ok output
    → (name : Bytes) × (o ≡ some name) × (is_float_name name ≡ true) × (primitive name ≡ output)
float_type-ok none output h = absurd cc
float_type-ok (some name) output h =
    let (listed, same) = if_ok (is_float_name name) (primitive name) output _ h in
    (name, refl, listed, same)

inner_type-ok : (input output : Ty) → inner_type input ≡ ok output → input ≡ nullable output
inner_type-ok (nullable t) output h = cc
inner_type-ok (primitive name) output h = absurd cc
inner_type-ok (array t) output h = absurd cc
inner_type-ok array_nil output h = absurd cc
inner_type-ok nullable_nil output h = absurd cc
inner_type-ok (other kind) output h = absurd cc

module _ (runtime : TransformRuntime) (library : Library) where
  -- Results of a type that a test lets through.
  guarded :
      (b : Bool) (t output : Ty) (e : Message) (r : Result Value)
      → (if b then ok t else err e) ≡ ok output
      → Gives runtime t r
      → Gives runtime output r
  guarded b t output e r h g = rw (← (if_ok b t output e h).1) g

  present-Has :
      (t : Ty) (v : Value) → Has runtime (nullable t) v → is_null v ≡ false → Has runtime t v
  unfolding matches_runtime_type
  present-Has t v h e = (ground (arith, h.0, e), h.1)

  normalized-Gives :
      (t : Ty) (v : Value) (form : Bytes) (o : Option Value)
      → Conforms runtime.numbers t o
      → Gives runtime t (given form o)
  normalized-Gives t v form none h = tt
  normalized-Gives t v form (some w) h = h

  builtin_coalesce-Gives :
      (call : TransformCall) (v : Value)
      → Has runtime (nullable call.output) v
      → Gives runtime call.output (builtin_coalesce runtime library call v)
  unfolding builtin_coalesce
  builtin_coalesce-Gives call v h =
      if_rule (Gives runtime call.output) (is_null v)
        (λ _.
          Gives-bind runtime call.output
            (named_argument runtime library call.named_arguments (codes "value")
              >>= given (codes "coalesce requires value"))
            _
            λ w _.
              normalized-Gives call.output w _ (normalize_json_result runtime.numbers w call.output)
                (normalize_json_result-Conforms runtime.numbers w call.output))
        (λ present. present-Has call.output v h present)

  -- The argument `as` of a call is the one of the node that was compiled.
  abbrev pub CopiedFrom : Node → TransformCall → Type 0
  CopiedFrom n call =
      (name : Bytes)
      → string_property n (codes "as") ≡ some name
      → required_string runtime library call.named_arguments (codes "as") ≡ ok name

  is_string-Has :
      (input : Ty) (v : Value)
      → is_string input ≡ true
      → Has runtime input v
      → Has runtime string_type v
  unfolding is_string
  is_string-Has (primitive name) v h has = rw ((equal_iff name (codes "string")).0 h) at has
  is_string-Has (array t) v h has = absurd cc
  is_string-Has (nullable t) v h has = absurd cc
  is_string-Has array_nil v h has = absurd cc
  is_string-Has nullable_nil v h has = absurd cc
  is_string-Has (other kind) v h has = absurd cc

  -- What a built-in returns has the type that `applyBuiltin` gives to its call.
  run_builtin-Gives :
      SingleFloats runtime library
      → (b : Builtin) (input : Ty) (n : Node) (call : TransformCall) (v : Value) → CopiedFrom n call
      → builtin_type b input n ≡ ok call.output
      → Has runtime input v
      → Gives runtime call.output (run_builtin runtime library call b v)
  unfolding run_builtin builtin_type make_nullable
  run_builtin-Gives narrows Builtin.trim input n call v copied h has =
      guarded (is_string input) string_type call.output _ _ h
        (builtin_text-Gives runtime trim_space v)
  run_builtin-Gives narrows Builtin.normalize_space input n call v copied h has =
      guarded (is_string input) string_type call.output _ _ h
        (builtin_text-Gives runtime normalize_whitespace v)
  run_builtin-Gives narrows Builtin.lowercase input n call v copied h has =
      guarded (is_string input) string_type call.output _ _ h
        (builtin_text-Gives runtime library.to_lower v)
  run_builtin-Gives narrows Builtin.uppercase input n call v copied h has =
      guarded (is_string input) string_type call.output _ _ h
        (builtin_text-Gives runtime library.to_upper v)
  run_builtin-Gives narrows Builtin.replace input n call v copied h has =
      guarded (is_string input) string_type call.output _ _ h
        (builtin_replace-Gives runtime library call.named_arguments v)
  run_builtin-Gives narrows Builtin.regex_replace input n call v copied h has =
      guarded (is_string input) string_type call.output _ _ h
        (builtin_regex_replace-Gives runtime library call.named_arguments v)
  run_builtin-Gives narrows Builtin.substring input n call v copied h has =
      guarded (is_string input) string_type call.output _ _ h
        (builtin_substring-Gives runtime library call.named_arguments v)
  run_builtin-Gives narrows Builtin.prepend input n call v copied h has =
      guarded (is_string input) string_type call.output _ _ h
        (builtin_prepend-Gives runtime library call.named_arguments v)
  run_builtin-Gives narrows Builtin.append input n call v copied h has =
      guarded (is_string input) string_type call.output _ _ h
        (builtin_append-Gives runtime library call.named_arguments v)
  run_builtin-Gives narrows Builtin.url_resolve input n call v copied h has =
      guarded (is_string input) string_type call.output _ _ h
        (builtin_url_resolve-Gives runtime library call.named_arguments v)
  run_builtin-Gives narrows Builtin.url_path input n call v copied h has =
      guarded (is_string input) string_type call.output _ _ h
        (builtin_url_path-Gives runtime library call.named_arguments v)
  run_builtin-Gives narrows Builtin.regex_capture input n call v copied h has =
      guarded (is_string input) (nullable string_type) call.output _ _ h
        (builtin_regex_capture-Gives runtime library call.named_arguments v)
  run_builtin-Gives narrows Builtin.void_to_null input n call v copied h has =
      guarded (is_string input) (nullable string_type) call.output _ _ h
        (empty_to_null-Gives runtime v)
  run_builtin-Gives narrows Builtin.url_query input n call v copied h has =
      guarded (is_string input) (nullable string_type) call.output _ _ h
        (builtin_url_query-Gives runtime library call.named_arguments v)
  run_builtin-Gives narrows Builtin.path_segment input n call v copied h has =
      guarded (is_string input) (nullable string_type) call.output _ _ h
        (builtin_path_segment-Gives runtime library call.named_arguments v)
  run_builtin-Gives narrows Builtin.split input n call v copied h has =
      guarded (is_string input) (array string_type) call.output _ _ h
        (builtin_split-Gives runtime library call.named_arguments v)
  run_builtin-Gives narrows Builtin.parse_bool input n call v copied h has =
      guarded (is_string input) (primitive (codes "bool")) call.output _ _ h
        (builtin_parse_bool-Gives runtime library call.named_arguments v)
  run_builtin-Gives narrows Builtin.assert_matches input n call v copied h has =
      let (is_text, same) = if_ok (is_string input) string_type call.output _ h in
      rw (← same) (
        builtin_assert_matches-Gives runtime library call.named_arguments string_type v
          (is_string-Has input v is_text has))
  run_builtin-Gives narrows Builtin.join input n call v copied h has =
      guarded (is_string_array input) string_type call.output _ _ h
        (builtin_join-Gives runtime library call.named_arguments v)
  run_builtin-Gives narrows Builtin.to_string input n call v copied h has =
      guarded (is_scalar input && not (is_nullable_kind input)) string_type call.output _ _ h
        (builtin_to_string-Gives runtime v)
  run_builtin-Gives narrows Builtin.assert_enum input n call v copied h has =
      guarded (is_scalar input) input call.output _ _ h
        (builtin_assert_enum-Gives runtime library input v call.positional_arguments has)
  run_builtin-Gives narrows Builtin.assert_min input n call v copied h has =
      guarded (is_numeric input) input call.output _ _ h
        (builtin_assert_bound-Gives runtime library call.named_arguments input v true has)
  run_builtin-Gives narrows Builtin.assert_max input n call v copied h has =
      guarded (is_numeric input) input call.output _ _ h
        (builtin_assert_bound-Gives runtime library call.named_arguments input v false has)
  run_builtin-Gives narrows Builtin.coalesce input n call v copied h has =
      builtin_coalesce-Gives call v (rw (← inner_type-ok input call.output h) has)
  run_builtin-Gives narrows Builtin.parse_int input n call v copied h has =
      let (name, given_as, parsed) =
        parsed_type-ok (string_property n (codes "as")) call.output
          (behind-ok (from_string input input) _ call.output h) in
      builtin_parse_int-Gives runtime library call.named_arguments name call.output v
        (copied name given_as) parsed
  run_builtin-Gives narrows Builtin.parse_float input n call v copied h has =
      let (name, given_as, listed, same) =
        float_type-ok (string_property n (codes "as")) call.output
          (behind-ok (from_string input input) _ call.output h) in
      rw (← same) (
        builtin_parse_float-Gives runtime library call.named_arguments narrows name v
          (copied name given_as) listed)

-- The type that the compiler gives to a call of a built-in holds at run time: a value of the input
-- type that is compatible with JSON is taken to an error or to such a value of the type that
-- applyBuiltin returned, for every built-in and all arguments. The call's output is that type, its
-- argument `as` is the one of the compiled node, and strconv.ParseFloat is assumed to read with 32
-- bits only floats that a float32 holds.
pub apply_builtin_runtime-Gives :
    (runtime : TransformRuntime) (library : Library)
    → SingleFloats runtime library
    → (name : Bytes) (input : Ty) (n : Node) (call : TransformCall) (v : Value)
    → CopiedFrom runtime library n call
    → apply_builtin name input n ≡ ok call.output
    → Has runtime input v
    → Gives runtime call.output (apply_builtin_runtime runtime library name v call)
unfolding apply_builtin apply_builtin_runtime
apply_builtin_runtime-Gives runtime library narrows name input n call v copied h has =
    named (builtin_named name) h
  where
    named :
        (o : Option Builtin)
        → named_type name o input n ≡ ok call.output
        → Gives runtime call.output (run_named runtime library call o v)
    named none e = tt
    named (some b) e = run_builtin-Gives runtime library narrows b input n call v copied e has
