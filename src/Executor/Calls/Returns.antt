-- ===== src/Executor/Calls/Returns.antt =====
-- Values with the types that calls of transforms return.
use scrape_kdl.Common.Outcome.{Outcome, ok, err}
use scrape_kdl.Common.Text.{Bytes}
use scrape_kdl.Common.{true, List, [], ◌∷◌, ◌≡◌, refl, Option, none, some, if_rule, if_both}
use scrape_kdl.Executor.Assignable.{is_assignable-matches}
use scrape_kdl.Executor.Calls.{
  TransformRuntime, Fueled, then_calls, equal_scalar, decode_literal, match_value, checked_external,
  call_external, read_literal, match_or, typed_literal,
}
use scrape_kdl.Executor.Conforms.{Conforms, normalize_json_result-Conforms}
use scrape_kdl.Executor.Normalize.{normalize_json_result}
use scrape_kdl.Executor.Output.Recovery.{OutputPath, Failure}
use scrape_kdl.Executor.Value.{Value, is_json_compatible, matches_runtime_type}
use scrape_kdl.Ir.{
  TransformTarget, builtin_target, declared_target, TransformCall, TransformBase, MatchCase,
  Transform, pipeline_transform, match_transform, external_transform,
}
use scrape_kdl.Typesys.{Ty, is_assignable}

-- Calls whose built-ins are sound.
abbrev pub SoundTarget : (Bytes → TransformCall → Type 0) → TransformTarget → TransformCall → Type 0
SoundTarget Sound (builtin_target kind name) call = Sound name call
SoundTarget Sound (declared_target kind symbol) call = Unit

abbrev pub SoundCalls : (Bytes → TransformCall → Type 0) → List TransformCall → Type 0
SoundCalls Sound [] = Unit
SoundCalls Sound (call ∷ calls) = SoundTarget Sound call.target call × SoundCalls Sound calls

abbrev pub SoundTransform : (Bytes → TransformCall → Type 0) → Transform → Type 0
SoundTransform Sound (pipeline_transform kind base calls) = SoundCalls Sound calls
SoundTransform Sound (match_transform kind base cases default) = Unit
SoundTransform Sound (external_transform kind base symbol) = Unit

abbrev pub SoundTransforms : (Bytes → TransformCall → Type 0) → List Transform → Type 0
SoundTransforms Sound [] = Unit
SoundTransforms Sound (t ∷ ts) = SoundTransform Sound t × SoundTransforms Sound ts

module _ (runtime : TransformRuntime) where
  -- A value of a type that is compatible with JSON.
  abbrev pub Has : Ty → Value → Type 0
  Has t v =
      (matches_runtime_type runtime.numbers v t ≡ true)
      × (is_json_compatible runtime.numbers v ≡ true)

  abbrev pub Returns : Ty → Fueled → Type 0
  Returns t none = Unit
  Returns t (some (err e)) = Unit
  Returns t (some (ok v)) = Has t v

  pub some-Returns :
      (t : Ty) (r : Outcome Failure Value) → ((v : Value) → r ≡ ok v → Has t v) → Returns t (some r)
  some-Returns t (ok v) h = h v refl
  some-Returns t (err e) h = tt

  pub then_calls-Returns :
      (s t : Ty) (path : OutputPath) (next : Value → Fueled) (r : Fueled)
      → Returns s r
      → ((v : Value) → Has s v → Returns t (next v))
      → Returns t (then_calls path next r)
  unfolding then_calls
  then_calls-Returns s t path next none h k = tt
  then_calls-Returns s t path next (some (err e)) h k = tt
  then_calls-Returns s t path next (some (ok v)) h k = k v h

  pub assigned-Has : (s t : Ty) (v : Value) → is_assignable s t ≡ true → Has s v → Has t v
  assigned-Has s t v a (h, p) = (is_assignable-matches runtime.numbers v s t a p h, p)

  -- What is assumed of the built-ins, for calls that are sound, and of the functions of the host.
  abbrev pub TypedBuiltins : (Bytes → TransformCall → Type 0) → Type 0
  TypedBuiltins Sound =
      (name : Bytes) (v w : Value) (call : TransformCall)
      → Sound name call
      → Has call.input v
      → runtime.apply_builtin name v call ≡ ok w
      → Has call.output w

  abbrev pub PrintableExternals : Type 0
  PrintableExternals =
      (symbol : Bytes) (function : Value → Outcome Failure Value) (v w : Value)
      → runtime.external symbol ≡ some function
      → function v ≡ ok w
      → is_json_compatible runtime.numbers w ≡ true

  -- The literals of a match have its types.
  typed_literal-Returns :
      (t : Ty) (v : Value) (o : Option Value)
      → Conforms runtime.numbers t o
      → Returns t (some (typed_literal runtime t v o))
  typed_literal-Returns t v none h = tt
  typed_literal-Returns t v (some w) h = h

  read_literal-Returns :
      (t : Ty) (r : Outcome Bytes Value) → Returns t (some (read_literal runtime t r))
  read_literal-Returns t (err e) = tt
  read_literal-Returns t (ok v) =
      typed_literal-Returns t v (normalize_json_result runtime.numbers v t)
        (normalize_json_result-Conforms runtime.numbers v t)

  match_or-Returns :
      (t : Ty) (input : Value) (when result rest : Outcome Failure Value)
      → Returns t (some result)
      → Returns t (some rest)
      → Returns t (some (match_or runtime input when result rest))
  match_or-Returns t input (err e) result rest h k = tt
  match_or-Returns t input (ok v) result rest h k =
      if_both (λ r. Returns t (some r)) (equal_scalar runtime input v) h k

  pub match_value-Returns :
      (base : TransformBase) (input : Value) (cases : List MatchCase) (default : Bytes)
      → Returns base.output (some (match_value runtime base input cases default))
  unfolding match_value decode_literal
  match_value-Returns base input [] default = read_literal-Returns base.output _
  match_value-Returns base input (c ∷ cases) default =
      match_or-Returns base.output input _ _ _ (read_literal-Returns base.output _)
        (match_value-Returns base input cases default)

  module _ (externals : PrintableExternals) where
    checked_external-Returns :
        (base : TransformBase) (path : OutputPath) (r : Outcome Failure Value)
        → ((w : Value) → r ≡ ok w → is_json_compatible runtime.numbers w ≡ true)
        → Returns base.output (some (checked_external runtime base path r))
    checked_external-Returns base path (err e) h = tt
    checked_external-Returns base path (ok w) h =
        if_rule (λ r. Returns base.output (some r))
          (matches_runtime_type runtime.numbers w base.output) (λ fits. (fits, h w refl)) (λ _. tt)

    pub call_external-Returns :
        (base : TransformBase) (path : OutputPath) (input : Value) (symbol : Bytes)
        (o : Option (Value → Outcome Failure Value))
        → runtime.external symbol ≡ o
        → Returns base.output (some (call_external runtime base path input symbol o))
    call_external-Returns base path input symbol none e = tt
    call_external-Returns base path input symbol (some function) e =
        checked_external-Returns base path (function input)
          λ w h. externals symbol function input w e h
