-- ===== src/Executor/Output/Post.antt =====
-- Postconditions of the methods of the walker.
use scrape_kdl.Common.Outcome.{Outcome, ok, err}
use scrape_kdl.Common.Text.{Bytes, codes, equal}
use scrape_kdl.Common.{true, Option, none, some, ◌≡◌, refl, arith, inl, inr, if_rule}
use scrape_kdl.Executor.Conforms.{Conforms, normalize_json_result-Conforms}
use scrape_kdl.Executor.Normalize.{normalize_json_result}
use scrape_kdl.Executor.Output.Recovery.{
  OutputPath, Failure, execution, missing, other_error, Walk, Run, accepted_default,
  decoded_default, decode_default, decode_field_default, default_or_null, handle_missing_output,
  policy_of, marked_if_ok, recover_output_field,
}
use scrape_kdl.Executor.Output.Shape.{is_none, may_be_null, FieldFits}
use scrape_kdl.Executor.Output.Walker.{
  Services, after, recover, typed_value, transformed, execute_field,
}
use scrape_kdl.Executor.Value.{Value, Numbers, matches_runtime_type}
use scrape_kdl.Ir.{Field}
use scrape_kdl.Typesys.{Ty}

-- A postcondition on the value that a method returns, if it returns one.
abbrev pub Yields {ℓ} : {A : Type ℓ} → (A → Type 0) → Outcome Failure A × Walk → Type 0
Yields P (ok x, s) = P x
Yields P (err e, s) = Unit

pub always {ℓ} : {A : Type ℓ} (r : Outcome Failure A × Walk) → Yields (λ _. Unit) r
always (ok x, s) = tt
always (err e, s) = tt

pub Yields-imp {ℓ} :
    {A : Type ℓ} (P Q : A → Type 0) (r : Outcome Failure A × Walk)
    → ((x : A) → P x → Q x)
    → Yields P r
    → Yields Q r
Yields-imp P Q (ok x, s) f h = f x h
Yields-imp P Q (err e, s) f h = tt

pub after-Yields {ℓ κ} :
    {A : Type ℓ} {B : Type κ} (P : A → Type 0) (Q : B → Type 0) (r : Outcome Failure A × Walk)
    (next : A → Run B)
    → Yields P r
    → ((x : A) (s : Walk) → P x → Yields Q (next x s))
    → Yields Q (after r next)
after-Yields P Q (ok x, s) next h k = k x s h
after-Yields P Q (err e, s) next h k = tt

module _ (numbers : Numbers) (decode_json : Bytes → Outcome Bytes Value) where
  abbrev HasType : Ty → Value → Type 0
  HasType t v = matches_runtime_type numbers v t ≡ true

  accepted_default-HasType :
      (v : Value) (t : Ty) (path : OutputPath) (o : Option Value) (s : Walk)
      → Conforms numbers t o
      → Yields (HasType t) (accepted_default v t path o, s)
  accepted_default-HasType v t path none s h = tt
  accepted_default-HasType v t path (some w) s h = h.0

  decoded_default-HasType :
      (t : Ty) (path : OutputPath) (r : Outcome Bytes Value) (s : Walk)
      → Yields (HasType t) (decoded_default numbers decode_json t path r, s)
  decoded_default-HasType t path (err e) s = tt
  decoded_default-HasType t path (ok v) s =
      accepted_default-HasType v t path (normalize_json_result numbers v t) s
        (normalize_json_result-Conforms numbers v t)

  decode_default-HasType :
      (t : Ty) (path : OutputPath) (o : Option Bytes) (s : Walk)
      → Yields (HasType t) (decode_default numbers decode_json t path o, s)
  unfolding decode_default
  decode_default-HasType t path none s = tt
  decode_default-HasType t path (some raw) s = decoded_default-HasType t path (decode_json raw) s

  fits_of_type :
      (field : Field) (r : Outcome Failure Value) (s : Walk)
      → Yields (HasType field.successful_type) (r, s)
      → Yields (FieldFits numbers field) (r, s)
  fits_of_type field (ok v) s h = inl h
  fits_of_type field (err e) s h = tt

  marked_if_ok-Yields :
      (P : Value → Type 0) (r : Outcome Failure Value) (s : Walk)
      → Yields P (r, s)
      → Yields P (marked_if_ok r s)
  marked_if_ok-Yields P (ok v) s h = h
  marked_if_ok-Yields P (err e) s h = h

  decode_field_default-FieldFits :
      (field : Field) (path : OutputPath) (s : Walk)
      → Yields (FieldFits numbers field) (decode_field_default numbers decode_json field path, s)
  unfolding decode_field_default
  decode_field_default-FieldFits field path s =
      fits_of_type field _ s (decode_default-HasType field.successful_type path field.default s)

  default_or_null-FieldFits :
      (field : Field) (path : OutputPath) (o : Option Bytes) (s : Walk)
      → (is_none o ≡ true → may_be_null field ≡ true)
      → Yields (FieldFits numbers field) (default_or_null numbers decode_json field path o, s)
  default_or_null-FieldFits field path none s h = inr (refl, h refl)
  default_or_null-FieldFits field path (some raw) s h = decode_field_default-FieldFits field path s

  handle_missing_output-FieldFits :
      (field : Field) (path : OutputPath) (message : Bytes) (s : Walk)
      → Yields
          (FieldFits numbers field)
          (handle_missing_output numbers decode_json field path message, s)
  unfolding handle_missing_output
  handle_missing_output-FieldFits field path message s =
      if_rule (λ r. Yields (FieldFits numbers field) (r, s)) field.required (λ _. tt)
        (λ h. default_or_null-FieldFits field path field.default s (λ absent. ground arith))

  pub recover_output_field-FieldFits :
      (field : Field) (path : OutputPath) (cause : Failure) (s : Walk)
      → Yields
          (FieldFits numbers field)
          (recover_output_field numbers decode_json field path cause s)
  unfolding recover_output_field
  recover_output_field-FieldFits field path cause s =
      let P : Outcome Failure Value × Walk → Type 0 = Yields (FieldFits numbers field) in
      let policy = policy_of field in
      if_rule P (equal policy (codes "fail")) (λ _. tt)
        λ _.
          if_rule P (equal policy (codes "null")) (λ h. inr (refl, ground arith))
            λ _.
              if_rule P (equal policy (codes "warn")) (λ h. inr (refl, ground arith))
                λ _.
                  if_rule P (equal policy (codes "default"))
                    (λ _.
                      marked_if_ok-Yields (FieldFits numbers field) _ s
                        (decode_field_default-FieldFits field path s))
                    (λ _. tt)

module _ {Scope : Type 0} (services : Services Scope) where
  abbrev Fit : Field → Outcome Failure Value × Walk → Type 0
  Fit field = Yields (FieldFits services.numbers field)

  recover-Fit :
      (field : Field) (path : OutputPath) (cause : Failure) (s : Walk)
      → Fit field (recover services field path cause s)
  recover-Fit = recover_output_field-FieldFits services.numbers services.decode_json

  typed_value-Fit :
      (field : Field) (path : OutputPath) (r : Outcome Failure Value) (s : Walk)
      → Fit field (typed_value services field path r s)
  unfolding typed_value
  typed_value-Fit field path (err e) s = recover-Fit field path e s
  typed_value-Fit field path (ok v) s =
      if_rule (Fit field) (matches_runtime_type services.numbers v field.successful_type)
        (λ h. inl h) (λ _. recover-Fit field path _ s)

  transformed-Fit :
      (field : Field) (path : OutputPath) (r : Outcome Failure Value) (s : Walk)
      → Fit field (transformed services field path r s)
  unfolding transformed
  transformed-Fit field path (err (missing message)) s =
      handle_missing_output-FieldFits services.numbers services.decode_json field path message s
  transformed-Fit field path (err (execution code message place)) s =
      recover-Fit field path (execution code message place) s
  transformed-Fit field path (err (other_error message)) s =
      recover-Fit field path (other_error message) s
  transformed-Fit field path (ok v) s =
      typed_value-Fit field path (services.apply_calls v field.transforms path) s

  pub execute_field-Fit :
      (scope : Scope) (field : Field) (path : OutputPath) (s : Walk)
      → Yields (FieldFits services.numbers field) (execute_field services scope field path s)
  unfolding execute_field
  execute_field-Fit scope field path s =
      transformed-Fit field path (services.read_output_field scope field path) s
