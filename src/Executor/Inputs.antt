-- ===== src/Executor/Inputs.antt =====
-- internal/executor/input.go: the inputs of a run. A map is a list of its entries, whose keys are
-- distinct; the text of an error of a value is its format.
mod Typed
pub mod Steps
pub mod Resolved
use scrape_kdl.Common.Int.{ℤ}
use scrape_kdl.Common.Outcome.{Outcome, ok, err, ◌>>=◌, ◌>>◌, check}
use scrape_kdl.Common.Text.{Bytes, codes, equal, less}
use scrape_kdl.Common.{
  Bool, true, false, not, ◌&&◌, ◌||◌, List, [], ◌∷◌, Option, none, some, any, if◌then◌else◌,
}
use scrape_kdl.Diagnostic.{plain, formatted}
use scrape_kdl.Executor.Builtins.Arguments.{Result, fails, given}
use scrape_kdl.Executor.Builtins.Library.{Library}
use scrape_kdl.Executor.Builtins.Parse.{format_bool, format_int}
use scrape_kdl.Executor.Calls.{TransformRuntime}
use scrape_kdl.Executor.Normalize.{fits_signed, two_63}
use scrape_kdl.Executor.Output.Recovery.{
  OutputPath, member_of, identified, Failure, execution, other_error, telling, text_of,
}
use scrape_kdl.Executor.Value
use scrape_kdl.Executor.Value.{
  Floating, Value, text, boolean, integer, single, double, number, Numbers, is_finite,
}
use scrape_kdl.Ir.{Input}
use scrape_kdl.Kdl.Literal.{parse_int}

abbrev pub ValueMap : Type 0
ValueMap = List (Bytes × Value)

unfoldable pub value_at : ValueMap → Bytes → Option Value
unfolding equal
value_at [] name = none
value_at ((key, v) ∷ m) name = let rest = value_at m name in if equal key name then some v else rest

-- The path `input.name`.
abbrev pub input_path : Bytes → OutputPath
input_path name = member_of (identified (codes "input")) name

abbrev pub invalid : OutputPath → Bytes → List Bytes → Failure
invalid path form args = execution (codes "E_IR_INVALID") (telling (formatted form args)) path

-- An error of `normalizeInput` or `decodeJSON` with its code.
abbrev pub coded {ℓ} : {A : Type ℓ} → Bytes → Bytes → Result A → Result A
coded code name (ok a) = ok a
coded code name (err e) = err (execution code (text_of e) (input_path name))

abbrev pub is_input_type : Bytes → Bool
is_input_type name =
    equal name (codes "string")
    || equal name (codes "bool")
    || equal name (codes "int")
    || equal name (codes "float")

-- The cases of `normalizeInput`.
abbrev pub string_input : Value → Result Value
string_input (text s) = ok (text s)
string_input v = fails (codes "expected string, got %T")

abbrev pub bool_input : Value → Result Value
bool_input (boolean b) = ok (boolean b)
bool_input v = fails (codes "expected bool, got %T")

abbrev pub as_int64 : Bytes → Option ℤ → Result Value
as_int64 form none = fails form
as_int64 form (some k) = ok (integer Value.int64 k)

abbrev pub as_float : Option Floating → Result Floating
as_float none = fails (codes "expected float: %w")
as_float (some f) = ok f

abbrev pub in_int64 : Option ℤ → Option ℤ
in_int64 none = none
in_int64 (some k) = if fits_signed two_63 k then some k else none

abbrev pub finite_input : Result Floating → Result Value
finite_input (err e) = err e
finite_input (ok f) =
    if not (is_finite f) then fails (codes "float must be finite") else ok (double f)

abbrev pub has_default : Option Bytes → Bool
has_default none = false
has_default (some raw) = true

abbrev pub is_declared : List Input → Bytes → Bool
is_declared ds name = any (λ (d : Input). equal d.name name) ds

-- The loop over the provided values for the least name that is not declared.
abbrev pub lesser : Bytes → Option Bytes → Option Bytes
lesser name none = some name
lesser name (some least) = if less name least then some name else some least

unfoldable pub least_unknown : List Input → Option Bytes → ValueMap → Option Bytes
unfolding equal less
least_unknown ds least [] = least
least_unknown ds least ((name, v) ∷ provided) =
    least_unknown ds (if is_declared ds name then least else lesser name least) provided

abbrev pub check_unknown : Option Bytes → Result (Unit {0})
check_unknown none = ok tt
check_unknown (some name) = err (
    execution (codes "E_INPUT_UNKNOWN") (telling (formatted (codes "unknown input %q") (name ∷ [])))
      (input_path name))

module _ (runtime : TransformRuntime) (library : Library) where
  unfoldable pub int_input : Value → Result Value
  unfolding fits_signed
  int_input (integer Value.int k) = ok (integer Value.int64 k)
  int_input (integer Value.int64 k) = ok (integer Value.int64 k)
  int_input (number s) = as_int64 (codes "expected integer: %w") (parse_int 10 64 s)
  int_input (double f) =
      as_int64 (codes "expected finite integer, got %v") (in_int64 (library.integral f))
  int_input v = fails (codes "expected integer, got %T")

  unfoldable pub input_float : Value → Result Floating
  input_float (double f) = ok f
  input_float (single f) = ok (runtime.numbers.widen f)
  input_float (integer Value.int k) = ok (runtime.numbers.double_of k)
  input_float (integer Value.int64 k) = ok (runtime.numbers.double_of k)
  input_float (number s) = as_float (runtime.numbers.float_of s)
  input_float v = fails (codes "expected float, got %T")

  -- `normalizeInput`.
  unfoldable pub normalize_input : Bytes → Value → Result Value
  unfolding equal int_input input_float
  normalize_input type_name v =
      if equal type_name (codes "string")
      then string_input v
      else if equal type_name (codes "bool")
      then bool_input v
      else if equal type_name (codes "int")
      then int_input v
      else if equal type_name (codes "float")
      then finite_input (input_float v)
      else fails (codes "unsupported input type %q")

  abbrev pub decode_default : Bytes → Bytes → Result Value
  decode_default name raw = coded (codes "E_INPUT_DEFAULT") name (read (runtime.decode_json raw))
    where
      read : Outcome Bytes Value → Result Value
      read (ok v) = ok v
      read (err e) = fails e

  abbrev pub typed_input : Input → Value → Result Value
  typed_input d v = coded (codes "E_INPUT_TYPE") d.name (normalize_input d.type_name v)

  abbrev pub check_default : Input → Option Bytes → Result (Unit {0})
  check_default d none = ok tt
  check_default d (some raw) = do v ← decode_default d.name raw; w ← typed_input d v; ok tt

  -- The loop over the declarations, with the names of the map `known`.
  unfoldable pub check_declarations : List Bytes → List Input → Result (Unit {0})
  unfolding equal normalize_input
  check_declarations known [] = ok tt
  check_declarations known (d ∷ ds) = do
    check (not (equal d.name [])) (
        invalid (identified (codes "inputs")) (codes "input declaration name must be non-empty") [])
    check (not (any (equal d.name) known))
        (invalid (input_path d.name) (codes "duplicate input declaration %q") (d.name ∷ []))
    check (is_input_type d.type_name)
        (invalid (input_path d.name) (codes "unsupported input type %q") (d.type_name ∷ []))
    check (not (d.required && has_default d.default))
        (invalid (input_path d.name) (codes "required input must not declare a default") [])
    check_default d d.default
    check_declarations (d.name ∷ known) ds

  -- The value of a declaration: the provided one, or else the default.
  abbrev pub some_value : Result Value → Result (Option Value)
  some_value r = r >>= λ v. ok (some v)

  abbrev pub value_or_default : Bytes → Option Value → Option Bytes → Result (Option Value)
  value_or_default name (some v) default = ok (some v)
  value_or_default name none none = ok none
  value_or_default name none (some raw) = some_value (decode_default name raw)

  abbrev pub and_input : Input → Option Value → Result ValueMap → Result ValueMap
  and_input d none rest =
      if d.required
      then err (
          execution (codes "E_INPUT_REQUIRED")
            (telling (formatted (codes "required input %q is missing") (d.name ∷ [])))
            (input_path d.name))
      else rest
  and_input d (some v) rest = do w ← typed_input d v; others ← rest; ok ((d.name, w) ∷ others)

  unfoldable pub resolve_each : ValueMap → List Input → Result ValueMap
  unfolding value_at normalize_input
  resolve_each provided [] = ok []
  resolve_each provided (d ∷ ds) = do
    let rest = resolve_each provided ds
    given ← value_or_default d.name (value_at provided d.name) d.default
    and_input d given rest

  -- `resolveInputs`.
  unfoldable pub resolve_inputs : List Input → ValueMap → Result ValueMap
  unfolding check_declarations least_unknown resolve_each
  resolve_inputs definitions provided = do
    check_declarations [] definitions
    check_unknown (least_unknown definitions none provided)
    resolve_each provided definitions

  -- `inputString`.
  unfoldable pub input_string : Value → Result Bytes
  unfolding format_int
  input_string (text s) = ok s
  input_string (boolean b) = ok (format_bool b)
  input_string (integer Value.int k) = ok (format_int k)
  input_string (integer Value.int64 k) = ok (format_int k)
  input_string (double f) =
      if not (is_finite f)
      then fails (codes "float must be finite")
      else ok (runtime.numbers.format_double f)
  input_string v = fails (codes "unsupported template value %T")
