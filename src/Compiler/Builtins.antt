-- ===== src/Compiler/Builtins.antt =====
-- internal/compiler/builtins.go: the types and the arguments of calls of built-ins. The switches over
-- the name are by `Builtin`, which has the names of both switches.
use scrape_kdl.Common.Outcome.{Outcome, ok, err}
use scrape_kdl.Common.Text.{Bytes, codes, equal}
use scrape_kdl.Common.{
  Bool, true, false, not, ◌&&◌, ◌||◌, List, [], ◌∷◌, map, Option, none, some, if◌then◌else◌,
}
use scrape_kdl.Compiler.Helpers.{
  ValueExpectation, expect_string, expect_bool, expect_int, expect_non_negative_int, expect_number,
  expect_scalar, string_property,
}
use scrape_kdl.Contract
use scrape_kdl.Contract.{Expectation, Definition, lookup}
use scrape_kdl.Diagnostic.{Message, plain, formatted}
use scrape_kdl.Executor.Builtins.Apply.{Builtin, builtin_named}
use scrape_kdl.Kdl.Ast.{Node}
use scrape_kdl.Typesys.Kinds.{is_string, is_string_array, is_integer, is_numeric, is_scalar}
use scrape_kdl.Typesys.{
  Ty, primitive, array, nullable, make_nullable, nullable_nil, to_text, parse, ParseError,
}

-- A type, or the text of an error.
abbrev pub Typed : Type 0
Typed = Outcome Message Ty

abbrev pub string_type : Ty
string_type = primitive (codes "string")

abbrev pub from_string : Ty → Ty → Typed
from_string input output =
    if is_string input
    then ok output
    else err (formatted (codes "requires string input, got %s") (to_text input ∷ []))

abbrev pub integer_type : Outcome ParseError Ty → Typed
integer_type (err e) = err (plain (codes "property as must be an integer type"))
integer_type (ok t) =
    if is_integer t then ok t else err (plain (codes "property as must be an integer type"))

abbrev pub parsed_type : Option Bytes → Typed
parsed_type none = err (plain (codes "requires property as"))
parsed_type (some name) = integer_type (parse name)

abbrev pub is_float_name : Bytes → Bool
is_float_name name =
    equal name (codes "float") || equal name (codes "f32") || equal name (codes "f64")

abbrev pub float_type : Option Bytes → Typed
float_type none = err (plain (codes "requires property as"))
float_type (some name) =
    if is_float_name name
    then ok (primitive name)
    else err (plain (codes "property as must be float, f32, or f64"))

abbrev pub is_nullable_kind : Ty → Bool
is_nullable_kind (nullable t) = true
is_nullable_kind nullable_nil = true
is_nullable_kind t = false

abbrev pub inner_type : Ty → Typed
inner_type (nullable t) = ok t
inner_type input = err (formatted (codes "requires nullable input, got %s") (to_text input ∷ []))

abbrev pub behind {ℓ} : {A : Type ℓ} → Outcome Message Ty → Outcome Message A → Outcome Message A
behind (err e) rest = err e
behind (ok t) rest = rest

unfoldable pub builtin_type : Builtin → Ty → Node → Typed
unfolding is_string is_string_array is_scalar is_numeric make_nullable string_property parse
    is_integer
builtin_type Builtin.regex_capture input n = from_string input (make_nullable string_type)
builtin_type Builtin.void_to_null input n = from_string input (make_nullable string_type)
builtin_type Builtin.url_query input n = from_string input (make_nullable string_type)
builtin_type Builtin.path_segment input n = from_string input (make_nullable string_type)
builtin_type Builtin.split input n = from_string input (array string_type)
builtin_type Builtin.join input n =
    if is_string_array input
    then ok string_type
    else err (formatted (codes "requires string[] input, got %s") (to_text input ∷ []))
builtin_type Builtin.parse_int input n =
    behind (from_string input input) (parsed_type (string_property n (codes "as")))
builtin_type Builtin.parse_float input n =
    behind (from_string input input) (float_type (string_property n (codes "as")))
builtin_type Builtin.parse_bool input n = from_string input (primitive (codes "bool"))
builtin_type Builtin.to_string input n =
    if is_scalar input && not (is_nullable_kind input)
    then ok string_type
    else err (formatted (codes "requires non-null scalar input, got %s") (to_text input ∷ []))
builtin_type Builtin.coalesce input n = inner_type input
builtin_type Builtin.assert_enum input n =
    if is_scalar input
    then ok input
    else err (formatted (codes "requires scalar input, got %s") (to_text input ∷ []))
builtin_type Builtin.assert_min input n =
    if is_numeric input
    then ok input
    else err (formatted (codes "requires numeric input, got %s") (to_text input ∷ []))
builtin_type Builtin.assert_max input n =
    if is_numeric input
    then ok input
    else err (formatted (codes "requires numeric input, got %s") (to_text input ∷ []))
builtin_type b input n = from_string input string_type

-- `applyBuiltin`.
abbrev pub named_type : Bytes → Option Builtin → Ty → Node → Typed
named_type name none input n = err (formatted (codes "unknown built-in %q") (name ∷ []))
named_type name (some b) input n = builtin_type b input n

unfoldable pub apply_builtin : Bytes → Ty → Node → Typed
unfolding builtin_named builtin_type
apply_builtin name input n = named_type name (builtin_named name) input n

-- `isBuiltin`.
abbrev is_some {ℓ} : {A : Type ℓ} → Option A → Bool
is_some none = false
is_some (some a) = true

unfoldable pub is_builtin : Bytes → Bool
unfolding lookup
is_builtin name = is_some (lookup name)

abbrev pub builtin_value_expectation : Expectation → ValueExpectation
builtin_value_expectation Contract.string = expect_string
builtin_value_expectation Contract.bool = expect_bool
builtin_value_expectation Contract.int = expect_int
builtin_value_expectation Contract.non_negative_int = expect_non_negative_int
builtin_value_expectation Contract.number = expect_number
builtin_value_expectation Contract.scalar = expect_scalar

abbrev expected : Bytes × Expectation → Bytes × ValueExpectation
expected (name, expectation) = (name, builtin_value_expectation expectation)

abbrev allowed_by : Option Definition → List (Bytes × ValueExpectation)
allowed_by none = []
allowed_by (some d) = map expected d.properties

unfoldable pub builtin_allowed_properties : Bytes → List (Bytes × ValueExpectation)
unfolding lookup
builtin_allowed_properties name = allowed_by (lookup name)

abbrev required_by : Option Definition → List Bytes
required_by none = []
required_by (some d) = d.required

unfoldable pub builtin_required_properties : Bytes → List Bytes
unfolding lookup
builtin_required_properties name = required_by (lookup name)
