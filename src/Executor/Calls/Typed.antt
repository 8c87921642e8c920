-- ===== src/Executor/Calls/Typed.antt =====
-- What the tests before a run mean for the values of the run.
use scrape_kdl.Common.Outcome.{Outcome, ok, err, ◌>>◌, check}
use scrape_kdl.Common.Text.{Bytes, equal}
use scrape_kdl.Common.{
  ℕ, zero, suc, Bool, true, false, List, [], ◌∷◌, ◌≡◌, refl, any, length, Option, none, some, ◌⊎◌,
  inl, inr, if◌then◌else◌, if_both,
}
use scrape_kdl.Executor.Calls.Preflight.{
  Signature, Checked, continuity_from, found, agree, preflight_call_continuity, preflight_target,
  preflight_declared_types, preflight_calls, preflight_transform, preflight_transforms,
  preflight_transform_types, preflight_call_arguments, preflight_signature, call_types,
}
use scrape_kdl.Executor.Calls.{
  TransformRuntime, or_else, base_of, symbol_of, find_declared, Fueled, apply_call, apply_each,
  run_transform, enter, apply_declared, apply_calls,
}
use scrape_kdl.Executor.Output.Recovery.{OutputPath, Failure, identified}
use scrape_kdl.Executor.Value.{Value}
use scrape_kdl.Ir.{
  TransformTarget, builtin_target, declared_target, TransformCall, Transform, pipeline_transform,
  match_transform, external_transform,
}
use scrape_kdl.Typesys.Assign.{equal_type-eq}
use scrape_kdl.Typesys.{Ty, equal_type, is_assignable}
use scrape_kdl.Executor.Calls.Returns.{
  Has, Returns, SoundTarget, SoundCalls, SoundTransform, SoundTransforms, some-Returns,
  then_calls-Returns, assigned-Has, TypedBuiltins, PrintableExternals, match_value-Returns,
  call_external-Returns,
}

-- A chain of tests succeeds if each test does.
and_then_ok {ℓ} :
    {A : Type ℓ} (first : Checked) (rest : Outcome Failure A) (x : A)
    → first >> rest ≡ ok x
    → (first ≡ ok tt) × (rest ≡ ok x)
and_then_ok (ok tt) rest x h = (refl, h)
and_then_ok (err e) rest x h = absurd cc

check-ok : (test : Bool) (e : Failure) → check test e ≡ ok tt → test ≡ true
check-ok true e h = refl
check-ok false e h = absurd cc

module _ (runtime : TransformRuntime) where
  agree_facts :
      (lookup : Bytes → Option Signature) (symbol : Bytes) (call : TransformCall)
      (path : OutputPath) (o : Option Transform)
      → found runtime lookup symbol call path o ≡ ok tt
      → agree runtime lookup call path o ≡ ok tt
      → (t : Transform) × (o ≡ some t)
        × (is_assignable call.input (base_of t).input ≡ true)
        × (equal_type call.output (base_of t).output ≡ true)
  agree_facts lookup symbol call path none h k = absurd cc
  agree_facts lookup symbol call path (some t) h k =
      let (first, second) = and_then_ok _ _ tt k in
      (t, refl, check-ok _ _ first, check-ok _ _ second)

  module _ (lookup : Bytes → Option Signature) (Sound : Bytes → TransformCall → Type 0)
      (builtins : TypedBuiltins runtime Sound) where
    module _ (declared : Bytes → Value → Fueled)
        (typed : (symbol : Bytes) (t : Transform) (v : Value)
          → find_declared symbol runtime.transforms ≡ some t
          → Has runtime (base_of t).input v
          → Returns runtime (base_of t).output (declared symbol v)) where
      apply_call-Returns :
          (target : TransformTarget) (v : Value) (call : TransformCall) (path : OutputPath)
          → preflight_target runtime lookup target call path ≡ ok tt
          → preflight_declared_types runtime lookup target call path ≡ ok tt
          → SoundTarget Sound target call
          → Has runtime call.input v
          → Returns runtime call.output (apply_call runtime declared target v call)
      unfolding apply_call preflight_target preflight_declared_types
      apply_call-Returns (builtin_target kind name) v call path h k sound has =
          some-Returns runtime call.output _ λ w e. builtins name v w call sound has e
      apply_call-Returns (declared_target kind symbol) v call path h k sound has =
          let (t, e, assigned, same) =
            agree_facts lookup symbol call path _ (and_then_ok _ _ tt h).1 k in
          rw (equal_type-eq call.output (base_of t).output same)
            (typed symbol t v e (assigned-Has runtime call.input (base_of t).input v assigned has))

      apply_each-Returns :
          (calls : List TransformCall) (current expected : Ty) (path place : OutputPath) (v : Value)
          → preflight_calls runtime lookup calls path ≡ ok tt
          → continuity_from calls current expected path ≡ ok tt
          → SoundCalls Sound calls
          → Has runtime current v
          → Returns runtime expected (apply_each runtime declared place calls v)
      unfolding apply_each preflight_calls continuity_from
      apply_each-Returns [] current expected path place v h k sound has =
          assigned-Has runtime current expected v (check-ok _ _ k) has
      apply_each-Returns (call ∷ calls) current expected path place v h k (sound, others) has =
          let (first, continues) = and_then_ok _ _ tt k in
          let same = equal_type-eq call.input current (check-ok _ _ first) in
          let (targets, tested) = and_then_ok _ _ tt h in
          let (_, signed) =
            and_then_ok (preflight_call_arguments runtime lookup call path) _ tt tested in
          let (_, types) =
            and_then_ok (preflight_signature runtime lookup call.target call path) _ tt signed in
          let (_, declares) = and_then_ok (call_types runtime lookup call path) _ tt types in
          let (agrees, rest) = and_then_ok _ _ tt declares in
          then_calls-Returns runtime call.output expected place _ _
            (apply_call-Returns call.target v call path targets agrees sound (rw same has))
            λ w returned.
              apply_each-Returns calls call.output expected path place w rest continues others
                returned

  module _ (externals : PrintableExternals runtime) where
    module _ (lookup : Bytes → Option Signature) (Sound : Bytes → TransformCall → Type 0)
        (builtins : TypedBuiltins runtime Sound)
        (passes : (symbol : Bytes) (t : Transform)
          → find_declared symbol runtime.transforms ≡ some t
          → (preflight_transform runtime lookup t ≡ ok tt) × SoundTransform Sound t) where
      run_transform-Returns :
          (declared : Bytes → Value → Fueled)
          → ((symbol : Bytes) (t : Transform) (v : Value)
              → find_declared symbol runtime.transforms ≡ some t
              → Has runtime (base_of t).input v
              → Returns runtime (base_of t).output (declared symbol v))
          → (path : OutputPath) (t : Transform) (v : Value)
          → preflight_transform runtime lookup t ≡ ok tt
          → SoundTransform Sound t
          → Has runtime (base_of t).input v
          → Returns runtime
              (base_of t).output
              (run_transform runtime (apply_each runtime declared path) path t v)
      unfolding run_transform preflight_transform preflight_call_continuity
      run_transform-Returns declared typed path (match_transform kind base cases default) v h sound
            has =
          match_value-Returns runtime base v cases default
      run_transform-Returns declared typed path (external_transform kind base symbol) v h sound
            has =
          call_external-Returns runtime externals base path v symbol (runtime.external symbol) refl
      run_transform-Returns declared typed path (pipeline_transform kind base calls) v h sound has =
          let name = identified base.name in
          let (_, kinded) = and_then_ok _ _ tt h in
          let (_, types) =
            and_then_ok (preflight_transform_types base.input base.output name) _ tt kinded in
          let (_, counted) = and_then_ok _ _ tt types in
          let (tested, continuity) =
            and_then_ok (preflight_calls runtime lookup calls name) _ tt counted in
          let (_, continues) = and_then_ok _ _ tt continuity in
          apply_each-Returns lookup Sound builtins declared typed calls base.input base.output name
            path v tested continues sound has

      apply_declared-Returns :
          (fuel : ℕ) (stack : List Bytes) (path : OutputPath) (symbol : Bytes) (t : Transform)
          (v : Value)
          → find_declared symbol runtime.transforms ≡ some t
          → Has runtime (base_of t).input v
          → Returns runtime (base_of t).output (apply_declared runtime fuel stack path symbol v)
      unfolding apply_declared enter
      apply_declared-Returns zero stack path symbol t v e has = tt
      apply_declared-Returns (suc fuel) stack path symbol t v e has =
          let (tested, sound) = passes symbol t e in
          rw e (
            if_both (Returns runtime (base_of t).output) (any (equal symbol) stack) tt (
              run_transform-Returns (λ s w. apply_declared runtime fuel (symbol ∷ stack) path s w)
                (λ s u w. apply_declared-Returns fuel (symbol ∷ stack) path s u w) path t v tested
                sound has))

-- A transform that is found was tested.
found_in :
    (o : Option Transform) (u t : Transform) (test : Bool)
    → or_else o (if test then some u else none) ≡ some t
    → (o ≡ some t) ⊎ (u ≡ t)
found_in (some w) u t test e = inl e
found_in none u t true e = inr cc
found_in none u t false e = absurd cc

found_passes :
    (runtime : TransformRuntime) (lookup : Bytes → Option Signature) (symbol : Bytes)
    (t : Transform) (ts : List Transform) (Sound : Bytes → TransformCall → Type 0)
    → preflight_transforms runtime lookup ts ≡ ok tt
    → SoundTransforms Sound ts
    → find_declared symbol ts ≡ some t
    → (preflight_transform runtime lookup t ≡ ok tt) × SoundTransform Sound t
unfolding find_declared preflight_transforms
found_passes runtime lookup symbol t [] Sound h sound e = absurd cc
found_passes runtime lookup symbol t (u ∷ ts) Sound h (first, others) e =
    let (here, rest) = and_then_ok _ _ tt h in
    elim (found_in (find_declared symbol ts) u t (equal (symbol_of u) symbol) e) [
      | inl later ↦ found_passes runtime lookup symbol t ts Sound rest others later
      | inr same ↦ rw (← same) (here, first)
    ]

-- Where every transform and every call passed the tests before a run, and the calls lead from one
-- type to another, applyCalls takes a value of the first that is compatible with JSON to an error
-- or to such a value of the second, through all the transforms that it runs. The calls of
-- built-ins satisfy a condition under which the built-ins are assumed to keep the types of their
-- calls, and the functions of the host to return values that are compatible with JSON.
pub apply_calls-Returns :
    (runtime : TransformRuntime) (lookup : Bytes → Option Signature)
    (Sound : Bytes → TransformCall → Type 0) (builtins : TypedBuiltins runtime Sound)
    (externals : PrintableExternals runtime) (calls : List TransformCall) (initial expected : Ty)
    (path place : OutputPath) (v : Value)
    → preflight_transforms runtime lookup runtime.transforms ≡ ok tt
    → preflight_calls runtime lookup calls path ≡ ok tt
    → preflight_call_continuity calls initial expected path ≡ ok tt
    → SoundTransforms Sound runtime.transforms
    → SoundCalls Sound calls
    → Has runtime initial v
    → Returns runtime expected (apply_calls runtime place calls v)
unfolding apply_calls preflight_call_continuity
apply_calls-Returns runtime lookup Sound builtins externals calls initial expected path place v
      passed tested continuity all_sound sound has =
    let (_, continues) = and_then_ok _ _ tt continuity in
    apply_each-Returns runtime lookup Sound builtins _
      (λ s u w.
        apply_declared-Returns runtime externals lookup Sound builtins
          (λ symbol t.
            found_passes runtime lookup symbol t runtime.transforms Sound passed all_sound)
          (suc (length runtime.transforms)) [] place s u w)
      calls initial expected path place v tested continues sound has
