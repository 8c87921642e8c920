-- ===== src/Executor/Output/Recovery.antt =====
-- The errors of a run, and internal/executor/output_semantics.go: what follows a missing value or
-- an error.
use scrape_kdl.Common.Int.{ℤ, pos, negsuc}
use scrape_kdl.Common.Outcome.{Outcome, ok, err}
use scrape_kdl.Common.Text.{Bytes, codes, equal}
use scrape_kdl.Common.{
  ℕ, ◌+◌, Bool, true, false, ◌&&◌, List, [], ◌∷◌, ◌++◌, Option, none, some, ltb, if◌then◌else◌,
}
use scrape_kdl.Diagnostic.{Message}
use scrape_kdl.Executor.Normalize.{normalize_json_result}
use scrape_kdl.Executor.Value.{Value, null, Numbers}
use scrape_kdl.Ir.{Field}
use scrape_kdl.Typesys.{Ty}

-- A path: none, the name or id of a declaration, or the path of a value, which is `output`,
-- `path.name` or `path[index]`.
pub data OutputPath : Type 0 where
  no_path output : OutputPath
  identified : Bytes → OutputPath
  member_of : OutputPath → Bytes → OutputPath
  row_of : OutputPath → ℕ → OutputPath

-- Errors: an `ExecutionError`, a `missingValue`, or one of another type. A reason is a message with
-- what is printed in it; `text_of` is `err.Error()`.
mutual
  pub data Failure : Type 0 where
    execution : (code : Bytes) (message : Reason) (path : OutputPath) → Failure
    missing : (message : Bytes) → Failure
    other_error : (message : Bytes) → Failure

  pub data Reason : Type 0 where
    saying : Bytes → Reason
    telling : Message → Reason
    text_of : Failure → Reason
    no_default : Reason
    default_not_assignable not_assignable : Value → Ty → Reason
    unknown_policy : Bytes → Reason
    too_few too_many : (count : ℕ) (limit : ℤ) → Reason
    unknown_member : Reason

pub record Warning : Type 0 where
  pub code : Bytes
  pub message : Reason
  pub path : OutputPath
  pub row : Option ℕ

-- What the walker changes, with the number of times that it asked the context so far.
pub record Walk : Type 0 where
  pub warnings : List Warning
  pub partial : Bool
  pub checks : ℕ

abbrev pub Run {ℓ} : Type ℓ → Type ℓ
Run A = Walk → Outcome Failure A × Walk

-- `*partial = true`.
abbrev pub mark_partial : Walk → Walk
mark_partial s = record { warnings = s.warnings; partial = true; checks = s.checks }

-- `*warnings = append(*warnings, w)`.
abbrev pub warn : Warning → Walk → Walk
warn w s = record { warnings = s.warnings ++ w ∷ []; partial = s.partial; checks = s.checks }

-- One more question to the context.
abbrev pub asked : Walk → Walk
asked s = record { warnings = s.warnings; partial = s.partial; checks = s.checks + 1 }

abbrev pub less_ℤ : ℤ → ℤ → Bool
less_ℤ (pos a) (pos b) = ltb a b
less_ℤ (pos a) (negsuc b) = false
less_ℤ (negsuc a) (pos b) = true
less_ℤ (negsuc a) (negsuc b) = ltb b a

-- `validateCollectionMinimum`, with the minimum that a required collection has.
unfoldable pub minimum_of : Bool → ℤ → ℤ
minimum_of required min_items = if required && less_ℤ min_items (pos 1) then pos 1 else min_items

unfoldable pub validate_collection_minimum : Bool → ℤ → ℕ → OutputPath → Outcome Failure (Unit {0})
unfolding minimum_of
validate_collection_minimum required min_items count path =
    let minimum = minimum_of required min_items in
    if less_ℤ (pos count) minimum
    then err (execution (codes "E_COLLECTION_CARDINALITY") (too_few count minimum) path)
    else ok tt

unfoldable pub exceeds : ℕ → Option ℤ → Bool
exceeds count none = false
exceeds count (some limit) = less_ℤ limit (pos count)

abbrev limit_of : Option ℤ → ℤ
limit_of none = pos 0
limit_of (some limit) = limit

-- `validateCollectionMaximum`.
unfoldable pub validate_collection_maximum : Option ℤ → ℕ → OutputPath → Outcome Failure (Unit {0})
unfolding exceeds
validate_collection_maximum max_items count path =
    if exceeds count max_items
    then err
        (execution (codes "E_COLLECTION_CARDINALITY") (too_many count (limit_of max_items)) path)
    else ok tt

abbrev pub accepted_default : Value → Ty → OutputPath → Option Value → Outcome Failure Value
accepted_default v t path none =
    err (execution (codes "E_IR_INVALID") (default_not_assignable v t) path)
accepted_default v t path (some w) = ok w

-- The local `policy`.
unfoldable pub policy_of : Field → Bytes
unfolding equal
policy_of field =
    if equal field.on_error []
    then (if field.required then codes "fail" else codes "null")
    else field.on_error

abbrev pub as_execution : OutputPath → Failure → Failure
as_execution path (execution code message path') = execution code message path'
as_execution path cause = execution (codes "E_FIELD_EXECUTION") (text_of cause) path

abbrev pub marked_if_ok : Outcome Failure Value → Walk → Outcome Failure Value × Walk
marked_if_ok (err e) s = (err e, s)
marked_if_ok (ok v) s = (ok v, mark_partial s)

module _ (numbers : Numbers) (decode_json : Bytes → Outcome Bytes Value) where
  abbrev pub decoded_default : Ty → OutputPath → Outcome Bytes Value → Outcome Failure Value
  decoded_default t path (err e) = err (execution (codes "E_IR_INVALID") (saying e) path)
  decoded_default t path (ok v) = accepted_default v t path (normalize_json_result numbers v t)

  -- `decodeFieldDefault` of executor.go.
  unfoldable pub decode_default : Ty → OutputPath → Option Bytes → Outcome Failure Value
  decode_default t path none = err (execution (codes "E_IR_INVALID") no_default path)
  decode_default t path (some raw) = decoded_default t path (decode_json raw)

  unfoldable pub decode_field_default : Field → OutputPath → Outcome Failure Value
  decode_field_default field path = decode_default field.successful_type path field.default

  abbrev pub default_or_null : Field → OutputPath → Option Bytes → Outcome Failure Value
  default_or_null field path none = ok null
  default_or_null field path (some raw) = decode_field_default field path

  -- `handleMissingOutput`.
  unfoldable pub handle_missing_output : Field → OutputPath → Bytes → Outcome Failure Value
  handle_missing_output field path message =
      if field.required
      then err (execution (codes "E_REQUIRED_VALUE_MISSING") (saying message) path)
      else default_or_null field path field.default

  -- `recoverOutputField`.
  unfoldable pub recover_output_field : Field → OutputPath → Failure → Run Value
  unfolding equal
  recover_output_field field path cause s =
      if equal (policy_of field) (codes "fail")
      then (err (as_execution path cause), s)
      else if equal (policy_of field) (codes "null")
      then (ok null, mark_partial s)
      else if equal (policy_of field) (codes "warn")
      then (
        ok null,
        warn
            (record {
              code = codes "W_ERROR_RECOVERED";
              message = text_of cause;
              path = path;
              row = none;
            })
            (mark_partial s),
      )
      else if equal (policy_of field) (codes "default")
      then marked_if_ok (decode_field_default field path) s
      else (err (execution (codes "E_IR_INVALID") (unknown_policy (policy_of field)) path), s)
