-- ===== src/Executor/Inputs/Resolved.antt =====
-- What `resolveInputs` returns.
use scrape_kdl.Common.Outcome.{ok, err, ◌>>◌}
use scrape_kdl.Common.Text.{Bytes, equal, less, equal_iff}
use scrape_kdl.Common.{true, List, [], ◌∷◌, Option, none, some, ◌≡◌, refl, inl, inr, Bool-cases}
use scrape_kdl.Executor.Builtins.Arguments.{Result}
use scrape_kdl.Executor.Builtins.Library.{Library}
use scrape_kdl.Executor.Calls.{TransformRuntime}
use scrape_kdl.Executor.Inputs.{
  ValueMap, value_at, check_declarations, is_declared, lesser, least_unknown, check_unknown,
  resolve_each, resolve_inputs,
}
use scrape_kdl.Executor.Value.{Value}
use scrape_kdl.Ir.{Input}
use scrape_kdl.Executor.Inputs.Steps.{Resolves, resolve_each-Resolves, check_declarations-Distinct}

-- Where no unknown name was found, every provided name is declared.
lesser-some : (name : Bytes) (least : Option Bytes) → (n : Bytes) × (lesser name least ≡ some n)
lesser-some name none = (name, refl)
lesser-some name (some least) = elim (Bool-cases (less name least)) [
  | inl e ↦ (name, rw e refl)
  | inr e ↦ (least, rw e refl)
]

unknown_kept :
    (ds : List Input) (n : Bytes) (provided : ValueMap)
    → least_unknown ds (some n) provided ≡ none
    → ⊥
unfolding least_unknown
unknown_kept ds n [] h = cc
unknown_kept ds n ((name, v) ∷ provided) h = elim (Bool-cases (is_declared ds name)) [
  | inl e ↦ unknown_kept ds n provided (rw e at h)
  | inr e ↦
      let (m, same) = lesser-some name (some n) in unknown_kept ds m provided (rw (e, same) at h)
]

least_unknown-none :
    (ds : List Input) (provided : ValueMap) (name : Bytes) (v : Value)
    → least_unknown ds none provided ≡ none
    → value_at provided name ≡ some v
    → is_declared ds name ≡ true
unfolding least_unknown value_at
least_unknown-none ds [] name v h k = absurd cc
least_unknown-none ds ((key, w) ∷ provided) name v h k = elim (Bool-cases (is_declared ds key)) [
  | inr e ↦ absurd (unknown_kept ds key provided (rw e at h))
  | inl e ↦ elim (Bool-cases (equal key name)) [
    | inl same ↦ rw (← (equal_iff key name).0 same) e
    | inr differs ↦ least_unknown-none ds provided name v (rw e at h) (rw differs at k)
  ]
]

module _ (runtime : TransformRuntime) (library : Library) where
  -- The resolved inputs, with every provided name declared.
  abbrev pub IsResolved : List Input → ValueMap → Result ValueMap → Type 0
  IsResolved ds provided (err e) = Unit
  IsResolved ds provided (ok r) =
      Resolves runtime library provided ds (ok r)
      × ((name : Bytes) (v : Value) → value_at provided name ≡ some v → is_declared ds name ≡ true)

  both_passed :
      (ds : List Input) (provided : ValueMap) (first second : Result (Unit {0}))
      (third : Result ValueMap)
      → (first ≡ ok tt → second ≡ ok tt → IsResolved ds provided third)
      → IsResolved ds provided (first >> (second >> third))
  both_passed ds provided (err e) second third h = tt
  both_passed ds provided (ok a) (err e) third h = tt
  both_passed ds provided (ok a) (ok b) third h = h refl refl

  no_unknown : (o : Option Bytes) → check_unknown o ≡ ok tt → o ≡ none
  no_unknown none h = refl
  no_unknown (some name) h = absurd cc

  with_names :
      (ds : List Input) (provided : ValueMap) (r : Result ValueMap)
      → least_unknown ds none provided ≡ none
      → Resolves runtime library provided ds r
      → IsResolved ds provided r
  with_names ds provided (err e) h resolved = tt
  with_names ds provided (ok r) h resolved =
      (resolved, λ name v at. least_unknown-none ds provided name v h at)

  -- Whatever the declarations and the provided values, resolveInputs ends with an error or with the resolved
  -- inputs: it accepts only provided names that are declared, and the result has a value exactly for
  -- the declarations that were given one or have a default. That value is what normalizeInput makes
  -- of the provided value, or of the default where none was provided, and has the declared type at
  -- run time; only an optional input is without one, and the result holds nothing else.
  pub resolve_inputs-IsResolved :
      (definitions : List Input) (provided : ValueMap)
      → IsResolved definitions provided (resolve_inputs runtime library definitions provided)
  unfolding resolve_inputs
  resolve_inputs-IsResolved definitions provided =
      both_passed definitions provided (check_declarations runtime library [] definitions)
        (check_unknown (least_unknown definitions none provided))
        (resolve_each runtime library provided definitions)
        λ declared known.
          with_names definitions provided (resolve_each runtime library provided definitions)
            (no_unknown (least_unknown definitions none provided) known)
            (resolve_each-Resolves runtime library provided [] definitions
              (check_declarations-Distinct runtime library [] definitions declared))
