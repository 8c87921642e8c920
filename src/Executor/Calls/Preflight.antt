-- ===== src/Executor/Calls/Preflight.antt =====
-- internal/executor/transforms.go: the tests of transforms and calls before a run.
use scrape_kdl.Common.Int.{ℤ, pos, negsuc}
use scrape_kdl.Common.Outcome.{Outcome, ok, err, ◌>>=◌, ◌>>◌, check}
use scrape_kdl.Common.Text.{Bytes, codes, equal}
use scrape_kdl.Common.{
  ℕ, Bool, true, false, not, ◌&&◌, ◌||◌, List, [], ◌∷◌, length, any, all, Option, none, some, leb,
}
use scrape_kdl.Diagnostic.{plain, formatted}
use scrape_kdl.Executor.Calls.{
  TransformRuntime, base_of, find_declared, decode_literal, equal_scalar,
}
use scrape_kdl.Executor.Output.Recovery.{
  OutputPath, identified, Failure, execution, telling, text_of,
}
use scrape_kdl.Executor.ValidType.{valid_runtime_type}
use scrape_kdl.Executor.Value.{Value}
use scrape_kdl.Ir.{
  TransformTarget, builtin_target, declared_target, NamedArgument, TransformCall, TransformBase,
  MatchCase, Transform, pipeline_transform, match_transform, external_transform,
}
use scrape_kdl.Typesys.Kinds.{is_scalar}
use scrape_kdl.Typesys.{Ty, equal_type, is_assignable, to_text}

abbrev pub Checked : Type 0
Checked = Outcome Failure (Unit {0})

abbrev invalid : OutputPath → Bytes → Failure
invalid path message = execution (codes "E_IR_INVALID") (telling (plain message)) path

abbrev refused : OutputPath → Bytes → List Bytes → Failure
refused path form args = execution (codes "E_TRANSFORM") (telling (formatted form args)) path

-- A `Signature` of internal/builtincontract, and its `Lookup`.
pub record Signature : Type 0 where
  pub min_positional : ℕ
  pub max_positional : ℤ
  pub properties : List Bytes
  pub required : List Bytes

-- `preflightTransformTypes`.
unfoldable pub preflight_transform_types : Ty → Ty → OutputPath → Checked
preflight_transform_types input output path = do
  check (valid_runtime_type input) (invalid path (codes "transform has an invalid input type"))
  check (valid_runtime_type output) (invalid path (codes "transform has an invalid output type"))

-- The loop of `preflightCallContinuity`, from the type that the calls before leave.
unfoldable pub continuity_from : List TransformCall → (current expected : Ty) → OutputPath → Checked
continuity_from [] current expected path = check (is_assignable current expected) (
    execution (codes "E_IR_INVALID")
      (telling (
        formatted (codes "transform chain output %s is not assignable to %s")
          (to_text current ∷ to_text expected ∷ [])))
      path)
continuity_from (call ∷ calls) current expected path = do
  check (equal_type call.input current) (
      execution (codes "E_IR_INVALID")
        (telling (
          formatted (codes "transform call input %s does not match previous output %s")
            (to_text call.input ∷ to_text current ∷ [])))
        path)
  continuity_from calls call.output expected path

-- `preflightCallContinuity`.
unfoldable pub preflight_call_continuity :
    List TransformCall → (initial expected : Ty) → OutputPath → Checked
preflight_call_continuity calls initial expected path = do
  check (valid_runtime_type initial && valid_runtime_type expected)
      (invalid path (codes "transform chain has invalid boundary type metadata"))
  continuity_from calls initial expected path

abbrev at_most : ℕ → ℤ → Bool
at_most n (pos limit) = leb n limit
at_most n (negsuc limit) = true

module _ (runtime : TransformRuntime) (lookup : Bytes → Option Signature) where
  abbrev decodes : Bytes → Failure → Checked
  decodes raw failure = decoded (runtime.decode_json raw) failure
    where
      decoded : Outcome Bytes Value → Failure → Checked
      decoded (ok v) failure = ok tt
      decoded (err e) failure = err failure

  -- The two loops of `preflightCallArguments`.
  unfoldable pub positional_arguments : List Bytes → OutputPath → Checked
  positional_arguments [] path = ok tt
  positional_arguments (raw ∷ raws) path = do
    decodes raw (refused path (codes "invalid positional transform argument %d: %w") [])
    positional_arguments raws path

  unfoldable pub named_arguments : List Bytes → List NamedArgument → OutputPath → Checked
  named_arguments seen [] path = ok tt
  named_arguments seen (a ∷ arguments) path = do
    check (not (any (equal a.name) seen))
        (refused path (codes "duplicate transform argument %q") (a.name ∷ []))
    decodes a.value (refused path (codes "invalid transform argument %q: %w") (a.name ∷ []))
    named_arguments (a.name ∷ seen) arguments path

  unfoldable pub preflight_call_arguments : TransformCall → OutputPath → Checked
  preflight_call_arguments call path = do
    positional_arguments call.positional_arguments path
    named_arguments [] call.named_arguments path

  -- `preflightBuiltinCallSignature`; a name without a signature was refused before.
  abbrev follows : Bytes → TransformCall → OutputPath → Option Signature → Checked
  follows name call path none = ok tt
  follows name call path (some s) = do
    let count = length call.positional_arguments
    check (leb s.min_positional count && at_most count s.max_positional)
        (refused path (codes "built-in %q accepts %d..%d positional arguments, got %d") (name ∷ []))
    check (all (λ (a : NamedArgument). any (equal a.name) s.properties) call.named_arguments)
        (refused path (codes "argument %q is not allowed on built-in %q") (name ∷ []))
    check (all (λ r. any (λ (a : NamedArgument). equal a.name r) call.named_arguments) s.required)
        (refused path (codes "built-in %q requires argument %q") (name ∷ []))

  abbrev is_known : Option Signature → Bool
  is_known none = false
  is_known (some s) = true

  abbrev has_arguments : TransformCall → Bool
  has_arguments call = given call.positional_arguments || given call.named_arguments
    where
      given : {A : Type 0} → List A → Bool
      given [] = false
      given (x ∷ xs) = true

  abbrev pub found : Bytes → TransformCall → OutputPath → Option Transform → Checked
  found symbol call path none = err (
      execution (codes "E_TRANSFORM_MISSING")
        (telling (formatted (codes "declared transform %q is missing from IR") (symbol ∷ []))) path)
  found symbol call path (some t) =
      check (not (has_arguments call))
        (refused path (codes "declared transform %q accepts no arguments") (symbol ∷ []))

  -- The switch of `preflightCalls` over the target.
  unfoldable pub preflight_target : TransformTarget → TransformCall → OutputPath → Checked
  preflight_target (builtin_target kind name) call path = do
    check (equal kind (codes "builtin")) (invalid path (codes "invalid built-in target kind"))
    check (is_known (lookup name)) (refused path (codes "unknown built-in %q") (name ∷ []))
  preflight_target (declared_target kind symbol) call path = do
    check (equal kind (codes "declared")) (invalid path (codes "invalid declared target kind"))
    found symbol call path (find_declared symbol runtime.transforms)

  unfoldable pub preflight_signature : TransformTarget → TransformCall → OutputPath → Checked
  preflight_signature (builtin_target kind name) call path = follows name call path (lookup name)
  preflight_signature (declared_target kind symbol) call path = ok tt

  -- The types of a declared transform against those of its call.
  abbrev pub agree : TransformCall → OutputPath → Option Transform → Checked
  agree call path none = ok tt
  agree call path (some t) = do
    check (is_assignable call.input (base_of t).input)
        (invalid path (codes "transform call input is not assignable to declared input"))
    check (equal_type call.output (base_of t).output)
        (invalid path (codes "transform call output does not match declared output"))

  unfoldable pub preflight_declared_types : TransformTarget → TransformCall → OutputPath → Checked
  preflight_declared_types (builtin_target kind name) call path = ok tt
  preflight_declared_types (declared_target kind symbol) call path =
      agree call path (find_declared symbol runtime.transforms)

  unfoldable pub call_types : TransformCall → OutputPath → Checked
  call_types call path = do
    check (valid_runtime_type call.input)
        (invalid path (codes "transform call has an invalid input type"))
    check (valid_runtime_type call.output)
        (invalid path (codes "transform call has an invalid output type"))

  -- The loop of `preflightCalls`.
  unfoldable pub preflight_calls : List TransformCall → OutputPath → Checked
  preflight_calls [] path = ok tt
  preflight_calls (call ∷ calls) path = do
    preflight_target call.target call path
    preflight_call_arguments call path
    preflight_signature call.target call path
    call_types call path
    preflight_declared_types call.target call path
    preflight_calls calls path

  abbrev is_repeated : Value → List Value → Bool
  is_repeated v seen = any (λ w. equal_scalar runtime w v) seen

  -- An error of a literal of a match.
  abbrev pub literal : OutputPath → Outcome Failure Value → Outcome Failure Value
  literal path (err e) = err (execution (codes "E_TRANSFORM") (text_of e) path)
  literal path (ok v) = ok v

  -- The loop of `preflightMatchTransform` and its last test.
  unfoldable pub preflight_cases :
      TransformBase → List Value → List MatchCase → (default : Bytes) → OutputPath → Checked
  preflight_cases base seen [] default path = do
    v ← literal path (decode_literal runtime base.output default)
    ok tt
  preflight_cases base seen (c ∷ cases) default path = do
    when ← literal path (decode_literal runtime base.input c.when)
    check (not (is_repeated when seen))
        (invalid path (codes "duplicate match case input at index %d"))
    then_value ← literal path (decode_literal runtime base.output c.then_value)
    preflight_cases base (when ∷ seen) cases default path

  abbrev has_calls : List TransformCall → Bool
  has_calls [] = false
  has_calls (call ∷ calls) = true

  -- The body of the loop of `preflightStaticAfterBindings`.
  unfoldable pub preflight_transform : Transform → Checked
  preflight_transform (pipeline_transform kind base calls) = do
    let path = identified base.name
    check (equal kind (codes "pipeline"))
        (invalid path (codes "invalid pipeline transform kind %q"))
    preflight_transform_types base.input base.output path
    check (has_calls calls) (invalid path (codes "pipeline transform requires at least one call"))
    preflight_calls calls path
    preflight_call_continuity calls base.input base.output path
  preflight_transform (match_transform kind base cases default) = do
    let path = identified base.name
    check (equal kind (codes "match")) (invalid path (codes "invalid match transform kind %q"))
    preflight_transform_types base.input base.output path
    check (is_scalar base.input && is_scalar base.output)
        (invalid path (codes "match transform input and output must be scalar or nullable scalar"))
    preflight_cases base [] cases default path
  preflight_transform (external_transform kind base symbol) =
      preflight_transform_types base.input base.output (identified base.name)

  unfoldable pub preflight_transforms : List Transform → Checked
  preflight_transforms [] = ok tt
  preflight_transforms (t ∷ ts) = do preflight_transform t; preflight_transforms ts
