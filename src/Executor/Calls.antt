-- ===== src/Executor/Calls.antt =====
-- internal/executor/transforms.go: the calls of transforms. The field `callStack` is the list of
-- the symbols that run, which a call adds its own to and takes it off again; `none` is a run out of
-- fuel.
pub mod Total
pub mod Preflight
pub mod Returns
pub mod Typed
use scrape_kdl.Common.Int.{ℤ}
use scrape_kdl.Common.Outcome.{Outcome, ok, err}
use scrape_kdl.Common.Text.{Bytes, codes, equal}
use scrape_kdl.Common.{
  ℕ, zero, suc, Bool, true, false, List, [], ◌∷◌, length, any, Option, none, some, if◌then◌else◌,
}
use scrape_kdl.Executor.Normalize.{normalize_json_result}
use scrape_kdl.Executor.Output.Recovery.{
  OutputPath, no_path, Failure, execution, missing, other_error, Reason, saying, text_of,
  not_assignable, default_not_assignable,
}
use scrape_kdl.Executor.Value.{
  Value, integer, single, double, number, Numbers, matches_runtime_type,
}
use scrape_kdl.Ir.{
  TransformTarget, builtin_target, declared_target, TransformCall, TransformBase, MatchCase,
  Transform, pipeline_transform, match_transform, external_transform,
}
use scrape_kdl.Typesys.{Ty}

-- `transformRuntime`, with what it calls: the built-ins, `decodeJSON`, the functions that the host
-- has registered, `fmt.Sprintf("%d")` and `reflect.DeepEqual`.
pub record TransformRuntime : Type 0 where
  pub transforms : List Transform
  pub external : Bytes → Option (Value → Outcome Failure Value)
  pub apply_builtin : Bytes → Value → TransformCall → Outcome Failure Value
  pub decode_json : Bytes → Outcome Bytes Value
  pub numbers : Numbers
  pub print_integer : ℤ → Bytes
  pub deep_equal : Value → Value → Bool

abbrev pub base_of : Transform → TransformBase
base_of (pipeline_transform kind base calls) = base
base_of (match_transform kind base cases default) = base
base_of (external_transform kind base symbol) = base

abbrev pub symbol_of : Transform → Bytes
symbol_of t = (base_of t).symbol_id

abbrev pub or_else {ℓ} : {A : Type ℓ} → Option A → Option A → Option A
or_else none b = b
or_else (some a) b = some a

-- `runtime.declared[symbol]`: of transforms with the same symbol the last one is kept.
unfoldable pub find_declared : Bytes → List Transform → Option Transform
unfolding equal
find_declared symbol [] = none
find_declared symbol (t ∷ ts) =
    or_else (find_declared symbol ts) (if equal (symbol_of t) symbol then some t else none)

-- The error of a call, with the path where it has none.
unfoldable pub located : OutputPath → Failure → Failure
located path (execution code message no_path) = execution code message path
located path (execution code message place) = execution code message place
located path e = execution (codes "E_TRANSFORM") (text_of e) path

abbrev pub Fueled : Type 0
Fueled = Option (Outcome Failure Value)

-- What a call of the loop of `applyCalls` leaves to the calls behind it.
unfoldable pub then_calls : OutputPath → (Value → Fueled) → Fueled → Fueled
unfolding located
then_calls path next none = none
then_calls path next (some (err e)) = some (err (located path e))
then_calls path next (some (ok v)) = next v

module _ (runtime : TransformRuntime) where
  -- The switch of `applyCalls` over the target, where `declared` is `applyDeclared`.
  unfoldable pub apply_call :
      (Bytes → Value → Fueled) → TransformTarget → Value → TransformCall → Fueled
  apply_call declared (builtin_target kind name) v call = some (runtime.apply_builtin name v call)
  apply_call declared (declared_target kind symbol) v call = declared symbol v

  -- `applyCalls`.
  unfoldable pub apply_each :
      (Bytes → Value → Fueled) → OutputPath → List TransformCall → Value → Fueled
  apply_each declared path [] v = some (ok v)
  apply_each declared path (call ∷ calls) v =
      then_calls path (apply_each declared path calls) (apply_call declared call.target v call)

  -- `numberString` and `equalScalar`.
  unfoldable pub number_string : Value → Option Bytes
  number_string (number s) = some s
  number_string (integer t k) = some (runtime.print_integer k)
  number_string (single f) = some (runtime.numbers.format_single f)
  number_string (double f) = some (runtime.numbers.format_double f)
  number_string v = none

  abbrev same_number : Option Bytes → Option Bytes → Bool → Bool
  same_number (some a) (some b) otherwise = equal a b
  same_number _ _ otherwise = otherwise

  unfoldable pub equal_scalar : Value → Value → Bool
  unfolding equal
  equal_scalar left right =
      same_number (number_string left) (number_string right) (runtime.deep_equal left right)

  -- A literal of a match as a value of its type; the text of an error is not kept.
  abbrev pub typed_literal : Ty → Value → Option Value → Outcome Failure Value
  typed_literal t v none = err (other_error (codes "literal is not assignable"))
  typed_literal t v (some w) = ok w

  abbrev pub read_literal : Ty → Outcome Bytes Value → Outcome Failure Value
  read_literal t (err e) = err (other_error e)
  read_literal t (ok v) = typed_literal t v (normalize_json_result runtime.numbers v t)

  unfoldable pub decode_literal : Ty → Bytes → Outcome Failure Value
  decode_literal t raw = read_literal t (runtime.decode_json raw)

  abbrev pub match_or :
      Value → Outcome Failure Value → (result rest : Outcome Failure Value) → Outcome Failure Value
  match_or input (err e) result rest = err e
  match_or input (ok when) result rest = if equal_scalar input when then result else rest

  -- The case of a match in `applyDeclared`.
  unfoldable pub match_value :
      TransformBase → Value → List MatchCase → (default : Bytes) → Outcome Failure Value
  unfolding equal_scalar
  match_value base input [] default = decode_literal base.output default
  match_value base input (c ∷ cases) default =
      match_or input (decode_literal base.input c.when) (decode_literal base.output c.then_value)
        (match_value base input cases default)

  -- The case of an external function.
  abbrev pub checked_external :
      TransformBase → OutputPath → Outcome Failure Value → Outcome Failure Value
  checked_external base path (err e) =
      err (execution (codes "E_EXTERNAL_TRANSFORM") (text_of e) path)
  checked_external base path (ok v) =
      if matches_runtime_type runtime.numbers v base.output
      then ok v
      else err
          (execution (codes "E_EXTERNAL_TRANSFORM_RESULT_TYPE") (not_assignable v base.output) path)

  abbrev pub call_external :
      TransformBase
      → OutputPath
      → Value
      → Bytes
      → Option (Value → Outcome Failure Value)
      → Outcome Failure Value
  call_external base path input symbol none =
      err (execution (codes "E_EXTERNAL_TRANSFORM_MISSING") (saying symbol) path)
  call_external base path input symbol (some function) = checked_external base path (function input)

  -- The switch of `applyDeclared` over the transform, where `each` is `applyCalls`.
  unfoldable pub run_transform :
      (List TransformCall → Value → Fueled) → OutputPath → Transform → Value → Fueled
  run_transform each path (pipeline_transform kind base calls) input = each calls input
  run_transform each path (match_transform kind base cases default) input =
      some (match_value base input cases default)
  run_transform each path (external_transform kind base symbol) input =
      some (call_external base path input symbol (runtime.external symbol))

  -- The guards of `applyDeclared` in front of the switch.
  unfoldable pub enter :
      (Transform → Fueled) → List Bytes → OutputPath → Bytes → Option Transform → Fueled
  unfolding equal
  enter run stack path symbol none =
      some (err (execution (codes "E_TRANSFORM_MISSING") (saying symbol) path))
  enter run stack path symbol (some t) =
      if any (equal symbol) stack
      then some (err (execution (codes "E_TRANSFORM_RECURSION") (saying symbol) path))
      else run t

  -- `applyDeclared`; the fuel bounds the depth of the calls.
  unfoldable pub apply_declared : ℕ → List Bytes → OutputPath → Bytes → Value → Fueled
  apply_declared zero stack path symbol input = none
  apply_declared (suc fuel) stack path symbol input =
      enter
        (λ t.
          run_transform (apply_each (λ s v. apply_declared fuel (symbol ∷ stack) path s v) path)
            path t input)
        stack path symbol (find_declared symbol runtime.transforms)

  -- `applyCalls` on an empty stack.
  unfoldable pub apply_calls : OutputPath → List TransformCall → Value → Fueled
  apply_calls path calls v =
      apply_each (λ s w. apply_declared (suc (length runtime.transforms)) [] path s w) path calls v
