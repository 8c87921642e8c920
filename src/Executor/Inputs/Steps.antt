-- ===== src/Executor/Inputs/Steps.antt =====
-- What each declaration of an input gets.
use scrape_kdl.Common.Outcome.{ok, err, ◌>>=◌, ◌>>◌, check}
use scrape_kdl.Common.Text.{Bytes, codes, equal, equal_iff, equal_refl}
use scrape_kdl.Common.{
  Bool, true, false, not, ◌&&◌, List, [], ◌∷◌, Option, none, some, any, ◌≡◌, refl, ◌⊎◌, inl, inr,
  arith, if_rule, Bool-cases,
}
use scrape_kdl.Executor.Builtins.Arguments.{Result}
use scrape_kdl.Executor.Builtins.Library.{Library}
use scrape_kdl.Executor.Calls.{TransformRuntime}
use scrape_kdl.Executor.Inputs.{
  ValueMap, value_at, coded, normalize_input, decode_default, typed_input, check_default,
  check_declarations, is_declared, is_input_type, has_default, value_or_default, and_input,
  resolve_each,
}
use scrape_kdl.Executor.Output.Recovery.{Failure}
use scrape_kdl.Executor.Value.{Value, matches_runtime_type}
use scrape_kdl.Ir.{Input}
use scrape_kdl.Typesys.{primitive}
use scrape_kdl.Executor.Inputs.Typed.{normalize_input-Typed, ok_typed}

module _ (runtime : TransformRuntime) (library : Library) where
  -- The value that a declaration gets: the provided one, or else its default.
  abbrev pub Supplied : ValueMap → Input → Value → Type 0
  Supplied provided d v =
      (value_at provided d.name ≡ some v)
      ⊎ (value_at provided d.name ≡ none)
        × (raw : Bytes) × (d.default ≡ some raw)
        × (decode_default runtime library d.name raw ≡ ok v)

  -- What the resolved map has at a declaration: a value of the declared type that normalizeInput made
  -- of the one that was supplied, or nothing where an optional input got no value.
  abbrev pub Answered : ValueMap → Input → Option Value → Type 0
  Answered provided d none =
      (d.required ≡ false) × (value_at provided d.name ≡ none) × (d.default ≡ none)
  Answered provided d (some w) =
      (matches_runtime_type runtime.numbers w (primitive d.type_name) ≡ true)
      × (v : Value) × Supplied provided d v
      × (normalize_input runtime library d.type_name v ≡ ok w)

  abbrev pub AllAnswered : ValueMap → List Input → ValueMap → Type 0
  AllAnswered provided [] r = Unit
  AllAnswered provided (d ∷ ds) r =
      Answered provided d (value_at r d.name) × AllAnswered provided ds r

  abbrev pub OnlyDeclared : List Input → ValueMap → Type 0
  OnlyDeclared ds m = (name : Bytes) → is_declared ds name ≡ false → value_at m name ≡ none

  -- An error, or a map that answers the declarations and nothing else.
  abbrev pub Resolves : ValueMap → List Input → Result ValueMap → Type 0
  Resolves provided ds (err e) = Unit
  Resolves provided ds (ok r) = AllAnswered provided ds r × OnlyDeclared ds r

  after {ℓ} :
      {A : Type ℓ} (provided : ValueMap) (ds : List Input) (r : Result A)
      (next : A → Result ValueMap)
      → ((a : A) → r ≡ ok a → Resolves provided ds (next a))
      → Resolves provided ds (r >>= next)
  after provided ds (err e) next h = tt
  after provided ds (ok a) next h = h a refl

  equal_sym : (a b : Bytes) → equal a b ≡ true → equal b a ≡ true
  equal_sym a b h = rw ((equal_iff a b).0 h) (equal_refl b)

  -- Declarations whose names differ from each other and from those that are known.
  abbrev pub Distinct : List Bytes → List Input → Type 0
  Distinct known [] = Unit
  Distinct known (d ∷ ds) = (any (equal d.name) known ≡ false) × Distinct (d.name ∷ known) ds

  known_undeclared :
      (name : Bytes) (known : List Bytes) (ds : List Input)
      → Distinct known ds
      → any (equal name) known ≡ true
      → is_declared ds name ≡ false
  known_undeclared name known [] h k = refl
  known_undeclared name known (d ∷ ds) (fresh, others) k =
      let rest = known_undeclared name (d.name ∷ known) ds others (ground arith) in
      elim (Bool-cases (equal d.name name)) [
        | inr e ↦ rw e rest
        | inl e ↦
            let same : d.name ≡ name = (equal_iff d.name name).0 e in
            let seen : any (equal d.name) known ≡ true = rw same k in
            absurd (ground (arith, seen, fresh))
      ]

  passed :
      (test : Bool) (e : Failure) (rest : Result (Unit {0}))
      → (check test e >> rest) ≡ ok tt
      → (test ≡ true) × (rest ≡ ok tt)
  passed true e rest h = (refl, h)
  passed false e rest h = absurd cc

  passed_after : (first rest : Result (Unit {0})) → (first >> rest) ≡ ok tt → rest ≡ ok tt
  passed_after (ok tt) rest h = h
  passed_after (err e) rest h = absurd cc

  pub check_declarations-Distinct :
      (known : List Bytes) (ds : List Input)
      → check_declarations runtime library known ds ≡ ok tt
      → Distinct known ds
  unfolding check_declarations
  check_declarations-Distinct known [] h = tt
  check_declarations-Distinct known (d ∷ ds) h =
      let (_, named) = passed (not (equal d.name [])) _ _ h in
      let (fresh, distinct) = passed (not (any (equal d.name) known)) _ _ named in
      let (_, typed) = passed (is_input_type d.type_name) _ _ distinct in
      let (_, optional) = passed (not (d.required && has_default d.default)) _ _ typed in
      (
        ground (arith, fresh),
        check_declarations-Distinct (d.name ∷ known) ds
            (passed_after (check_default runtime library d d.default) _ optional),
      )

  -- What a declaration gets.
  abbrev Given : ValueMap → Input → Option Value → Type 0
  Given provided d none = (value_at provided d.name ≡ none) × (d.default ≡ none)
  Given provided d (some v) = Supplied provided d v

  value_or_default-Given :
      (provided : ValueMap) (d : Input) (o : Option Value) (default : Option Bytes)
      (given : Option Value)
      → value_at provided d.name ≡ o
      → d.default ≡ default
      → value_or_default runtime library d.name o default ≡ ok given
      → Given provided d given
  value_or_default-Given provided d (some v) default none at by h = absurd cc
  value_or_default-Given provided d (some v) default (some w) at by h = inl cc
  value_or_default-Given provided d none none none at by h = (at, by)
  value_or_default-Given provided d none none (some w) at by h = absurd cc
  value_or_default-Given provided d none (some raw) given at by h =
      defaulted (decode_default runtime library d.name raw) given refl h
    where
      defaulted :
          (r : Result Value) (given : Option Value)
          → decode_default runtime library d.name raw ≡ r
          → (r >>= λ v. ok (some v)) ≡ ok given
          → Given provided d given
      defaulted (err e) given k l = absurd cc
      defaulted (ok v) none k l = absurd cc
      defaulted (ok v) (some w) k l = let same : v ≡ w = cc in inr (at, raw, by, rw (← same) k)

  coded-ok :
      {A : Type 0} (code name : Bytes) (r : Result A) (a : A) → coded code name r ≡ ok a → r ≡ ok a
  coded-ok code name (ok b) a h = h
  coded-ok code name (err e) a h = absurd cc

  -- A further entry with another name is not seen.
  AllAnswered-cons :
      (provided : ValueMap) (name : Bytes) (w : Value) (r : ValueMap) (ds : List Input)
      → is_declared ds name ≡ false
      → AllAnswered provided ds r
      → AllAnswered provided ds ((name, w) ∷ r)
  unfolding value_at
  AllAnswered-cons provided name w r [] h all = tt
  AllAnswered-cons provided name w r (d ∷ ds) h (first, others) =
      let differs : equal name d.name ≡ false = ground (arith, h, equal_sym name d.name) in
      (rw differs first, AllAnswered-cons provided name w r ds (ground arith) others)

  skipped :
      (provided : ValueMap) (d : Input) (ds : List Input) (rest : Result ValueMap)
      → is_declared ds d.name ≡ false
      → d.required ≡ false
      → Given provided d none
      → Resolves provided ds rest
      → Resolves provided (d ∷ ds) rest
  skipped provided d ds (err e) alone optional given answered = tt
  skipped provided d ds (ok r) alone optional (absent, no_default) (all, only) = (
    (rw (only d.name alone) (optional, absent, no_default), all),
    λ name h. only name (ground (arith, h)),
  )

  added :
      (provided : ValueMap) (d : Input) (ds : List Input) (v w : Value) (rest : Result ValueMap)
      → is_declared ds d.name ≡ false
      → Supplied provided d v
      → normalize_input runtime library d.type_name v ≡ ok w
      → Resolves provided ds rest
      → Resolves provided (d ∷ ds) (rest >>= λ others. ok ((d.name, w) ∷ others))
  unfolding value_at
  added provided d ds v w (err e) alone supplied typed answered = tt
  added provided d ds v w (ok r) alone supplied typed (all, only) =
      let fits =
        ok_typed runtime library d.type_name _ w
          (normalize_input-Typed runtime library d.type_name v) typed in
      (
        (
          rw (equal_refl d.name) (fits, v, supplied, typed),
          AllAnswered-cons provided d.name w r ds alone all,
        ),
        λ name h.
            let differs : equal d.name name ≡ false = ground (arith, h) in
            rw differs (only name (ground (arith, h))),
      )

  and_input-Resolves :
      (provided : ValueMap) (d : Input) (ds : List Input) (given : Option Value)
      (rest : Result ValueMap)
      → is_declared ds d.name ≡ false
      → Given provided d given
      → Resolves provided ds rest
      → Resolves provided (d ∷ ds) (and_input runtime library d given rest)
  and_input-Resolves provided d ds none rest alone given answered =
      if_rule (Resolves provided (d ∷ ds)) d.required (λ _. tt)
        λ optional. skipped provided d ds rest alone optional given answered
  and_input-Resolves provided d ds (some v) rest alone supplied answered =
      after provided (d ∷ ds) (typed_input runtime library d v) _ λ w typed.
        added provided d ds v w rest alone supplied
          (coded-ok (codes "E_INPUT_TYPE") d.name (normalize_input runtime library d.type_name v) w
            typed)
          answered

  pub resolve_each-Resolves :
      (provided : ValueMap) (known : List Bytes) (ds : List Input)
      → Distinct known ds
      → Resolves provided ds (resolve_each runtime library provided ds)
  unfolding resolve_each value_at
  resolve_each-Resolves provided known [] distinct = (tt, λ name h. refl)
  resolve_each-Resolves provided known (d ∷ ds) (fresh, others) =
      after provided (d ∷ ds)
        (value_or_default runtime library d.name (value_at provided d.name) d.default) _
        λ given e.
          and_input-Resolves provided d ds given (resolve_each runtime library provided ds)
            (known_undeclared d.name (d.name ∷ known) ds others (ground (arith, equal_refl d.name)))
            (value_or_default-Given provided d (value_at provided d.name) d.default given refl refl
              e)
            (resolve_each-Resolves provided (d.name ∷ known) ds others)
