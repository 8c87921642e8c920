-- ===== src/Executor/Inputs/Typed.antt =====
-- Values of the types of inputs.
use scrape_kdl.Common.Int.{ℤ}
use scrape_kdl.Common.Outcome.{ok, err}
use scrape_kdl.Common.Text.{Bytes, codes, equal, equal_iff}
use scrape_kdl.Common.{true, not, Option, none, some, ◌≡◌, refl, arith, if_rule}
use scrape_kdl.Executor.Builtins.Arguments.{Result}
use scrape_kdl.Executor.Builtins.Library.{Library}
use scrape_kdl.Executor.Calls.{TransformRuntime}
use scrape_kdl.Executor.Inputs.{
  string_input, bool_input, as_int64, int_input, input_float, finite_input, normalize_input,
}
use scrape_kdl.Executor.Value
use scrape_kdl.Executor.Value.{
  Value, text, boolean, integer, single, double, number, Floating, is_finite, matches_runtime_type,
  matches_primitive,
}
use scrape_kdl.Typesys.{primitive}

module _ (runtime : TransformRuntime) (library : Library) where
  -- Values have the types of their inputs.
  abbrev pub Typed : Bytes → Result Value → Type 0
  Typed name (err e) = Unit
  Typed name (ok v) = matches_runtime_type runtime.numbers v (primitive name) ≡ true

  string_input-Typed : (v : Value) → Typed (codes "string") (string_input v)
  unfolding matches_runtime_type matches_primitive equal
  string_input-Typed (text s) = refl
  string_input-Typed v = tt

  bool_input-Typed : (v : Value) → Typed (codes "bool") (bool_input v)
  unfolding matches_runtime_type matches_primitive equal
  bool_input-Typed (boolean b) = refl
  bool_input-Typed v = tt

  as_int64-Typed : (form : Bytes) (o : Option ℤ) → Typed (codes "int") (as_int64 form o)
  unfolding matches_runtime_type matches_primitive equal
  as_int64-Typed form none = tt
  as_int64-Typed form (some k) = refl

  int_input-Typed : (v : Value) → Typed (codes "int") (int_input runtime library v)
  unfolding int_input matches_runtime_type matches_primitive equal
  int_input-Typed (integer Value.int k) = refl
  int_input-Typed (integer Value.int64 k) = refl
  int_input-Typed (number s) = as_int64-Typed _ _
  int_input-Typed (double f) = as_int64-Typed _ _
  int_input-Typed v = tt

  finite_input-Typed : (o : Result Floating) → Typed (codes "float") (finite_input o)
  unfolding matches_runtime_type matches_primitive equal
  finite_input-Typed (err e) = tt
  finite_input-Typed (ok f) =
      if_rule (Typed (codes "float")) (not (is_finite f)) (λ _. tt) λ h. ground (arith, h)

  at_name : (name s : Bytes) (r : Result Value) → equal name s ≡ true → Typed s r → Typed name r
  at_name name s r h t = rw ((equal_iff name s).0 h) t

  pub normalize_input-Typed :
      (name : Bytes) (v : Value) → Typed name (normalize_input runtime library name v)
  unfolding normalize_input
  normalize_input-Typed name v =
      if_rule (Typed name) (equal name (codes "string"))
        (λ h. at_name name (codes "string") (string_input v) h (string_input-Typed v))
        λ _.
          if_rule (Typed name) (equal name (codes "bool"))
            (λ h. at_name name (codes "bool") (bool_input v) h (bool_input-Typed v))
            λ _.
              if_rule (Typed name) (equal name (codes "int"))
                (λ h.
                  at_name name (codes "int") (int_input runtime library v) h (int_input-Typed v))
                λ _.
                  if_rule (Typed name) (equal name (codes "float"))
                    (λ h.
                      at_name name (codes "float") (finite_input (input_float runtime library v)) h
                        (finite_input-Typed (input_float runtime library v)))
                    λ _. tt

  pub ok_typed :
      (name : Bytes) (r : Result Value) (w : Value)
      → Typed name r
      → r ≡ ok w
      → matches_runtime_type runtime.numbers w (primitive name) ≡ true
  ok_typed name (err e) w h k = absurd cc
  ok_typed name (ok v) w h k = let same : v ≡ w = cc in rw (← same) h
