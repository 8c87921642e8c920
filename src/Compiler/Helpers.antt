-- ===== src/Compiler/Helpers.antt =====
-- internal/compiler/helpers.go: what the compiler reads from nodes, and its tests of nodes. A pair of
-- a value and a false `ok` is `none`; diagnostics are appended to the list of the compiler.
use scrape_kdl.Common.Int.{ℤ, pos, negsuc}
use scrape_kdl.Common.Text.{Bytes, codes, equal}
use scrape_kdl.Common.{
  ℕ, Bool, true, false, not, ◌||◌, List, [], ◌∷◌, length, get_elem?, any, Option, none, some, ltb,
  if◌then◌else◌,
}
use scrape_kdl.Contract.{find}
use scrape_kdl.Diagnostic
use scrape_kdl.Diagnostic.{Diagnostic, Message, plain, formatted}
use scrape_kdl.Kdl.Ast
use scrape_kdl.Kdl.Ast.{Node, ValueKind, Property, property, node_name}
use scrape_kdl.Kdl.Token.{TokenValue, text_value, int_value, bool_value}
use scrape_kdl.Source.{Span}
use scrape_kdl.Typesys.{Ty, primitive, make_nullable, nullable, nullable_nil, is_assignable}

pub data ValueExpectation : Type 0 where
  expect_string expect_bool expect_int : ValueExpectation
  expect_non_negative_int expect_number expect_scalar : ValueExpectation

abbrev pub Diagnostics : Type 0
Diagnostics = List Diagnostic

-- `c.diags.Add` with the severity of an error.
abbrev pub report : Bytes → Message → Span → Bytes → Diagnostics → Diagnostics
report code message span path diags = Diagnostic.add diags code Diagnostic.error message span path

abbrev pub report_if : Bool → Bytes → Message → Span → Bytes → Diagnostics → Diagnostics
report_if test code message span path diags =
    if test then report code message span path diags else diags

abbrev pub node_arguments : Node → List Ast.Value
node_arguments (Ast.node name arguments properties children span) = arguments

abbrev pub node_span : Node → Span
node_span (Ast.node name arguments properties children span) = span

abbrev pub text_in : TokenValue → Option Bytes
text_in (text_value s) = some s
text_in v = none

abbrev pub string_of : ValueKind → TokenValue → Option Bytes
string_of ValueKind.string v = text_in v
string_of kind v = none

abbrev pub string_in : Option Ast.Value → Option Bytes
string_in none = none
string_in (some v) = string_of v.kind v.value

unfoldable pub string_property : Node → Bytes → Option Bytes
unfolding property
string_property n name = string_in (property n name)

abbrev pub int_of : ValueKind → TokenValue → Option ℤ
int_of ValueKind.int (int_value k) = some k
int_of kind v = none

abbrev pub int_in : Option Ast.Value → Option ℤ
int_in none = none
int_in (some v) = int_of v.kind v.value

unfoldable pub int_property : Node → Bytes → Option ℤ
unfolding property
int_property n name = int_in (property n name)

abbrev pub bool_of : ValueKind → TokenValue → Option Bool
bool_of ValueKind.bool (bool_value b) = some b
bool_of kind v = none

abbrev bool_in : Bool → Option Ast.Value → Option Bool
bool_in otherwise none = some otherwise
bool_in otherwise (some v) = bool_of v.kind v.value

unfoldable pub bool_property : Node → Bytes → (otherwise : Bool) → Option Bool
unfolding property
bool_property n name otherwise = bool_in otherwise (property n name)

unfoldable pub string_arg : Node → ℕ → Option Bytes
string_arg n i = string_in (get_elem? (node_arguments n) i)

unfoldable pub value_type : ValueKind → Ty
unfolding make_nullable
value_type ValueKind.string = primitive (codes "string")
value_type ValueKind.bool = primitive (codes "bool")
value_type ValueKind.int = primitive (codes "int")
value_type ValueKind.float = primitive (codes "float")
value_type ValueKind.null = make_nullable (primitive (codes "unknown"))

abbrev pub is_nullable : Ty → Bool
is_nullable (nullable t) = true
is_nullable nullable_nil = true
is_nullable t = false

abbrev is_unknown_primitive : Ty → Bool
is_unknown_primitive (primitive name) = equal name (codes "unknown")
is_unknown_primitive t = false

unfoldable pub is_kind_assignable : ValueKind → Ty → Bool
unfolding value_type equal
is_kind_assignable ValueKind.null target = is_nullable target || is_unknown_primitive target
is_kind_assignable kind target = is_assignable (value_type kind) target

-- `isValueAssignable`.
abbrev pub is_value_assignable : Ast.Value → Ty → Bool
is_value_assignable v target = is_kind_assignable v.kind target

-- `matchesExpectation`; the value of a kind other than `int` counts as 0.
abbrev is_negative : TokenValue → Bool
is_negative (int_value (negsuc n)) = true
is_negative v = false

abbrev pub matches_kind : ValueKind → TokenValue → ValueExpectation → Bool
matches_kind ValueKind.string v expect_string = true
matches_kind ValueKind.bool v expect_bool = true
matches_kind ValueKind.int v expect_int = true
matches_kind ValueKind.int v expect_non_negative_int = not (is_negative v)
matches_kind ValueKind.int v expect_number = true
matches_kind ValueKind.float v expect_number = true
matches_kind kind v expect_scalar = true
matches_kind kind v expectation = false

unfoldable pub matches_expectation : Ast.Value → ValueExpectation → Bool
matches_expectation v expectation = matches_kind v.kind v.value expectation

-- The loop of `validateNode` over the properties.
abbrev validate_value :
    Property → Bytes → Bytes → Option ValueExpectation → Diagnostics → Diagnostics
validate_value p name path none diags =
    report (codes "E_UNKNOWN_PROPERTY")
      (formatted (codes "property %q is not allowed on %q") (p.name ∷ name ∷ [])) p.span path diags
validate_value p name path (some expectation) diags =
    report_if (not (matches_expectation p.value expectation)) (codes "E_TYPE_MISMATCH")
      (formatted (codes "property %q has incompatible value kind %s") (p.name ∷ [])) p.value.span
      path diags

unfoldable pub validate_properties :
    (name path : Bytes)
    → List (Bytes × ValueExpectation)
    → (seen : List Bytes) → List Property
    → Diagnostics
    → Diagnostics
unfolding equal matches_expectation
validate_properties name path allowed seen [] diags = diags
validate_properties name path allowed seen (p ∷ ps) diags =
    let twice =
      report_if (any (equal p.name) seen) (codes "E_DUPLICATE_PROPERTY")
        (formatted (codes "duplicate property %q") (p.name ∷ [])) p.span path diags in
    validate_properties name path allowed (p.name ∷ seen) ps
      (validate_value p name path (find p.name allowed) twice)

abbrev exceeds : ℕ → ℤ → Bool
exceeds count (negsuc n) = false
exceeds count (pos limit) = ltb limit count

-- `validateNode`.
unfoldable pub validate_node :
    Node
    → (min_args : ℕ) → (max_args : ℤ) → List (Bytes × ValueExpectation)
    → (path : Bytes) → Diagnostics
    → Diagnostics
unfolding validate_properties
validate_node n min_args max_args allowed path diags =
    let count = length (node_arguments n) in
    validate_properties (node_name n) path allowed [] (Ast.node_properties n) (
      report_if (ltb count min_args || exceeds count max_args) (codes "E_ARGUMENT_COUNT")
        (formatted (codes "node %q expects %d..%d positional arguments, got %d") (node_name n ∷ []))
        (node_span n) path diags)

abbrev is_absent : Option Ast.Value → Bool
is_absent none = true
is_absent (some v) = false

unfoldable pub first_string_arg : Node → Bytes
unfolding string_arg
first_string_arg n = or_empty (string_arg n 0)
  where
    or_empty : Option Bytes → Bytes
    or_empty none = []
    or_empty (some s) = s

-- `validateRequiredProperties`.
unfoldable pub validate_required_properties :
    Node → List Bytes → (path : Bytes) → Diagnostics → Diagnostics
unfolding property first_string_arg
validate_required_properties n [] path diags = diags
validate_required_properties n (name ∷ names) path diags =
    validate_required_properties n names path (
      report_if (is_absent (property n name)) (codes "E_TRANSFORM_ARGUMENT")
        (formatted (codes "built-in %q requires property %q") (first_string_arg n ∷ name ∷ []))
        (node_span n) path diags)
