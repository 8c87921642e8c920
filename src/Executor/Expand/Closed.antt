-- ===== src/Executor/Expand/Closed.antt =====
-- Resolved inputs fill every template whose inputs have values.
use scrape_kdl.Common.Int.{ℤ}
use scrape_kdl.Common.Outcome.{ok, err, ◌>>◌, check}
use scrape_kdl.Common.Text.{Bytes, codes, equal, equal_iff}
use scrape_kdl.Common.{
  Bool, true, false, not, ◌&&◌, ◌||◌, List, [], ◌∷◌, ◌++◌, Option, none, some, any, if◌then◌else◌,
  ◌≡◌, refl, inl, inr, arith, if_rule, if_both, Bool-cases,
}
use scrape_kdl.Executor.Builtins.Arguments.{Result}
use scrape_kdl.Executor.Builtins.Library.{Library}
use scrape_kdl.Executor.Calls.{TransformRuntime}
use scrape_kdl.Executor.Expand.{expand_segment, expand_segments, expand_template, parses, not_web}
use scrape_kdl.Executor.Inputs.Resolved.{IsResolved, resolve_inputs-IsResolved}
use scrape_kdl.Executor.Inputs.Steps.{AllAnswered, Answered}
use scrape_kdl.Executor.Inputs.{
  ValueMap, value_at, string_input, bool_input, as_int64, int_input, input_float, finite_input,
  normalize_input, has_default, resolve_inputs, input_string,
}
use scrape_kdl.Executor.Template.{percent_encode}
use scrape_kdl.Executor.Value
use scrape_kdl.Executor.Value.{
  Value, text, boolean, integer, single, double, number, Floating, is_finite,
}
use scrape_kdl.Ir.{Input, TemplateSegment, literal_segment, input_segment, other_segment}

-- An input that is declared and gets a value: it is required or has a default.
abbrev pub always_given : List Input → Bytes → Bool
always_given ds name =
    any (λ (d : Input). equal d.name name && (d.required || has_default d.default)) ds

-- A template of texts and of such inputs.
abbrev pub Closed : List Input → List TemplateSegment → Type 0
Closed ds [] = Unit
Closed ds (literal_segment kind value ∷ segments) = Closed ds segments
Closed ds (input_segment kind name ∷ segments) = (always_given ds name ≡ true) × Closed ds segments
Closed ds (other_segment ∷ segments) = ⊥

module _ (runtime : TransformRuntime) (library : Library) where
  -- The text of a filled template: its texts, and the values of its inputs, percent-encoded.
  abbrev pub Fills : ValueMap → List TemplateSegment → Bytes → Type 0
  Fills r [] s = s ≡ []
  Fills r (literal_segment kind value ∷ segments) s =
      (rest : Bytes) × (s ≡ value ++ rest) × Fills r segments rest
  Fills r (input_segment kind name ∷ segments) s =
      (v : Value) × (t : Bytes) × (rest : Bytes) × (value_at r name ≡ some v)
      × (input_string runtime library v ≡ ok t)
      × (s ≡ percent_encode t ++ rest)
      × Fills r segments rest
  Fills r (other_segment ∷ segments) s = ⊥

  -- What `normalizeInput` returns can be written.
  abbrev Written : Result Value → Type 0
  Written (err e) = Unit
  Written (ok v) = (t : Bytes) × (input_string runtime library v ≡ ok t)

  as_int64-Written : (form : Bytes) (o : Option ℤ) → Written (as_int64 form o)
  unfolding input_string
  as_int64-Written form none = tt
  as_int64-Written form (some k) = (_, refl)

  int_input-Written : (v : Value) → Written (int_input runtime library v)
  unfolding int_input
  int_input-Written (integer Value.int k) = as_int64-Written [] (some k)
  int_input-Written (integer Value.int64 k) = as_int64-Written [] (some k)
  int_input-Written (number s) = as_int64-Written _ _
  int_input-Written (double f) = as_int64-Written _ _
  int_input-Written v = tt

  finite_input-Written : (o : Result Floating) → Written (finite_input o)
  unfolding input_string
  finite_input-Written (err e) = tt
  finite_input-Written (ok f) =
      if_rule Written (not (is_finite f)) (λ _. tt)
        λ finite. (runtime.numbers.format_double f, rw finite refl)

  string_input-Written : (v : Value) → Written (string_input v)
  unfolding input_string
  string_input-Written (text s) = (s, refl)
  string_input-Written v = tt

  bool_input-Written : (v : Value) → Written (bool_input v)
  unfolding input_string
  bool_input-Written (boolean b) = (_, refl)
  bool_input-Written v = tt

  normalize_input-Written :
      (name : Bytes) (v : Value) → Written (normalize_input runtime library name v)
  unfolding normalize_input
  normalize_input-Written name v =
      if_both Written (equal name (codes "string")) (string_input-Written v) (
        if_both Written (equal name (codes "bool")) (bool_input-Written v) (
          if_both Written (equal name (codes "int")) (int_input-Written v) (
            if_both Written (equal name (codes "float"))
              (finite_input-Written (input_float runtime library v)) tt)))

  ok-Written :
      (r : Result Value) (w : Value)
      → Written r
      → r ≡ ok w
      → (t : Bytes) × (input_string runtime library w ≡ ok t)
  ok-Written (err e) w h k = absurd cc
  ok-Written (ok v) w h k = let same : v ≡ w = cc in rw (← same) h

  -- Such an input has a value that can be written.
  abbrev Filled : ValueMap → Bytes → Type 0
  Filled r name =
      (v : Value) × (t : Bytes) × (value_at r name ≡ some v)
      × (input_string runtime library v ≡ ok t)

  Answered-Filled :
      (provided r : ValueMap) (d : Input) (o : Option Value)
      → value_at r d.name ≡ o
      → Answered runtime library provided d o
      → (d.required || has_default d.default) ≡ true
      → Filled r d.name
  Answered-Filled provided r d none at (optional, absent, no_default) h =
      absurd (no_value d.required d.default optional no_default h)
    where
      no_value :
          (required : Bool) (default : Option Bytes)
          → required ≡ false
          → default ≡ none
          → (required || has_default default) ≡ true
          → ⊥
      no_value true default k l m = cc
      no_value false none k l m = cc
      no_value false (some raw) k l m = cc
  Answered-Filled provided r d (some w) at (fits, v, supplied, normal) h =
      let (t, spelled) =
        ok-Written (normalize_input runtime library d.type_name v) w
          (normalize_input-Written d.type_name v) normal in
      (w, t, at, spelled)

  given-Filled :
      (provided r : ValueMap) (ds : List Input) (name : Bytes)
      → AllAnswered runtime library provided ds r
      → always_given ds name ≡ true
      → Filled r name
  given-Filled provided r [] name all h = absurd cc
  given-Filled provided r (d ∷ ds) name (first, others) h =
      elim (Bool-cases (equal d.name name && (d.required || has_default d.default))) [
        | inl e ↦
            let same : d.name ≡ name = (equal_iff d.name name).0 (ground (arith, e)) in
            rw (← same)
              (Answered-Filled provided r d (value_at r d.name) refl first (ground (arith, e)))
        | inr e ↦ given-Filled provided r ds name others (ground (arith, e, h))
      ]

  expand_segments-Fills :
      (provided r : ValueMap) (ds : List Input) (segments : List TemplateSegment)
      → AllAnswered runtime library provided ds r
      → Closed ds segments
      → (s : Bytes) × Fills r segments s × (expand_segments runtime library r segments ≡ ok s)
  unfolding expand_segments expand_segment
  expand_segments-Fills provided r ds [] all closed = ([], refl, refl)
  expand_segments-Fills provided r ds (literal_segment kind value ∷ segments) all closed =
      let (s, fills, e) = expand_segments-Fills provided r ds segments all closed in
      (value ++ s, (s, refl, fills), rw e refl)
  expand_segments-Fills provided r ds (input_segment kind name ∷ segments) all (known, closed) =
      let (s, fills, e) = expand_segments-Fills provided r ds segments all closed in
      let (v, t, at, spelled) = given-Filled provided r ds name all known in
      (percent_encode t ++ s, (v, t, s, at, spelled, refl, fills), rw (at, spelled, e) refl)
  expand_segments-Fills provided r ds (other_segment ∷ segments) all closed = absurd closed

  resolved_ok :
      (ds : List Input) (provided r : ValueMap) (result : Result ValueMap)
      → result ≡ ok r
      → IsResolved runtime library ds provided result
      → AllAnswered runtime library provided ds r
  resolved_ok ds provided r (err e) h resolved = absurd cc
  resolved_ok ds provided r (ok q) h resolved = let same : q ≡ r = cc in rw (← same) (resolved.0.0)

  -- With the inputs that resolveInputs returned, a template that uses only inputs that are required
  -- or have a default is always filled: expandTemplate never ends with an error of an input. It
  -- returns the texts of the template and the percent-encoded values in order, if that parses as an
  -- absolute URL of HTTP or HTTPS with a host, and E_URL_INVALID otherwise.
  pub expand_template-Fills :
      (definitions : List Input) (provided r : ValueMap) (segments : List TemplateSegment)
      → resolve_inputs runtime library definitions provided ≡ ok r
      → Closed definitions segments
      → (s : Bytes) × Fills r segments s
        × (expand_template runtime library segments r
            ≡ (if parses (library.parse_url s) then ok s else err (not_web s)))
  unfolding expand_template
  expand_template-Fills definitions provided r segments h closed =
      let answered =
        resolved_ok definitions provided r (resolve_inputs runtime library definitions provided) h
          (resolve_inputs-IsResolved runtime library definitions provided) in
      let (s, fills, e) = expand_segments-Fills provided r definitions segments answered closed in
      (s, fills, rw e (checked (parses (library.parse_url s)) s))
    where
      checked :
          (test : Bool) (s : Bytes)
          → (check test (not_web s) >> ok s) ≡ (if test then ok s else err (not_web s))
      checked true s = refl
      checked false s = refl
