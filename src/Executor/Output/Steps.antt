-- ===== src/Executor/Output/Steps.antt =====
-- What a walk does to the warnings and to the mark for partial results.
use scrape_kdl.Common.Outcome.{Outcome, ok, err}
use scrape_kdl.Common.Text.{codes, equal}
use scrape_kdl.Common.{ℕ, ◌+◌, not, ◌||◌, List, [], ◌∷◌, ◌++◌, if_both}
use scrape_kdl.Executor.Output.Recovery.{
  OutputPath, member_of, row_of, Failure, execution, missing, other_error, Warning, Walk, Run,
  mark_partial, warn, asked, validate_collection_minimum, validate_collection_maximum, policy_of,
  marked_if_ok, recover_output_field,
}
use scrape_kdl.Executor.Output.Walker.{
  Services, set_member, after, is_execution_canceled, recover, execution_context_error, typed_value,
  transformed, execute_field, after_row, execute_rows, execute_collection, execute_members,
  execute_object,
}
use scrape_kdl.Executor.Value
use scrape_kdl.Executor.Value.{Value, no_members, Numbers, matches_runtime_type}
use scrape_kdl.Ir.{
  Field, Collection, OutputObject, no_output, field_member, collection_member, nil_member,
}

-- The states that a walk from `s` can come to: it asks the context, it marks the result partial, or
-- it does so and appends a warning.
pub data Steps (s : Walk) : Walk → Type 0 where
  done : Steps s s
  ask : {t : Walk} → Steps s t → Steps s (asked t)
  mark : {t : Walk} → Steps s t → Steps s (mark_partial t)
  report : {t : Walk} (w : Warning) → Steps s t → Steps s (warn w (mark_partial t))

-- The state that a method leaves, with its result or its error.
abbrev Leads {ℓ} : {A : Type ℓ} → Walk → Outcome Failure A × Walk → Type 0
Leads s (ok x, t) = Steps s t
Leads s (err e, t) = Steps s t

module _ (s : Walk) where
  steps_of {ℓ} : {A : Type ℓ} (r : Outcome Failure A × Walk) → Leads s r → Steps s r.1
  steps_of (ok x, t) h = h
  steps_of (err e, t) h = h

  pair-Leads {ℓ} : {A : Type ℓ} (r : Outcome Failure A) (t : Walk) → Steps s t → Leads s (r, t)
  pair-Leads (ok x) t h = h
  pair-Leads (err e) t h = h

  after-Leads {ℓ κ} :
      {A : Type ℓ} {B : Type κ} (r : Outcome Failure A × Walk) (next : A → Run B)
      → Leads s r
      → ((x : A) (t : Walk) → Steps s t → Leads s (next x t))
      → Leads s (after r next)
  after-Leads (ok x, t) next h k = k x t h
  after-Leads (err e, t) next h k = h

  marked_if_ok-Leads :
      (r : Outcome Failure Value) (t : Walk) → Steps s t → Leads s (marked_if_ok r t)
  marked_if_ok-Leads (ok v) t h = mark h
  marked_if_ok-Leads (err e) t h = h

  module _ {Scope : Type 0} (services : Services Scope) where
    context-Leads :
        (path : OutputPath) (t : Walk)
        → Steps s t
        → Leads s (execution_context_error services path t)
    unfolding execution_context_error
    context-Leads path t h = pair-Leads _ (asked t) (ask h)

    recover-Leads :
        (field : Field) (path : OutputPath) (cause : Failure) (t : Walk)
        → Steps s t
        → Leads s (recover services field path cause t)
    unfolding recover_output_field
    recover-Leads field path cause t h =
        let P : Outcome Failure Value × Walk → Type 0 = λ r. Leads s r in
        let policy = policy_of field in
        if_both P (equal policy (codes "fail")) h (
          if_both P (equal policy (codes "null")) (mark h) (
            if_both P (equal policy (codes "warn")) (report _ h)
              (if_both P (equal policy (codes "default")) (marked_if_ok-Leads _ t h) h)))

    typed_value-Leads :
        (field : Field) (path : OutputPath) (r : Outcome Failure Value) (t : Walk)
        → Steps s t
        → Leads s (typed_value services field path r t)
    unfolding typed_value
    typed_value-Leads field path (err e) t h = recover-Leads field path e t h
    typed_value-Leads field path (ok v) t h =
        if_both (λ (r : Outcome Failure Value × Walk). Leads s r)
          (matches_runtime_type services.numbers v field.successful_type) h
          (recover-Leads field path _ t h)

    transformed-Leads :
        (field : Field) (path : OutputPath) (r : Outcome Failure Value) (t : Walk)
        → Steps s t
        → Leads s (transformed services field path r t)
    unfolding transformed
    transformed-Leads field path (err (missing message)) t h = pair-Leads _ t h
    transformed-Leads field path (err (execution code message place)) t h =
        recover-Leads field path (execution code message place) t h
    transformed-Leads field path (err (other_error message)) t h =
        recover-Leads field path (other_error message) t h
    transformed-Leads field path (ok v) t h = typed_value-Leads field path _ t h

    after_row-Leads :
        (c : Collection) (path : OutputPath) (index : ℕ) (result : List Value)
        (rest : List Value → Run Value) (r : Outcome Failure Value × Walk)
        → ((vs : List Value) (t : Walk) → Steps s t → Leads s (rest vs t))
        → Leads s r
        → Leads s (after_row services c path index result rest r)
    unfolding after_row
    after_row-Leads c path index result rest (err e, t) k h =
        if_both (λ (r : Outcome Failure Value × Walk). Leads s r)
          (is_execution_canceled e || not (equal c.on_row_error (codes "skip"))) h
          (k result _ (report _ h))
    after_row-Leads c path index result rest (ok v, t) k h =
        after-Leads (validate_collection_maximum c.max_items _ path, t) _ (pair-Leads _ t h)
          λ _ t' h'. k (result ++ v ∷ []) t' h'

    module _ (c : Collection) (run_row : Scope → OutputPath → Run Value)
        (runs : (inner : Scope) (place : OutputPath) (t : Walk)
          → Steps s t
          → Leads s (run_row inner place t)) where
      execute_rows-Leads :
          (path : OutputPath) (index : ℕ) (rows : List Scope) (result : List Value) (t : Walk)
          → Steps s t
          → Leads s (execute_rows services run_row c path index rows result t)
      unfolding execute_rows
      execute_rows-Leads path index [] result t h =
          after-Leads (validate_collection_minimum c.required c.min_items _ path, t) _
            (pair-Leads _ t h) λ _ t' h'. h'
      execute_rows-Leads path index (row ∷ rows) result t h =
          after-Leads _ _ (context-Leads _ t h) λ _ t' h'.
            after_row-Leads c path index result _ _
              (λ vs t'' h''. execute_rows-Leads path (index + 1) rows vs t'' h'')
              (runs row (row_of path index) t' h')

    members-Leads :
        (object : OutputObject) (scope : Scope) (path : OutputPath) (result : Value.Members)
        (t : Walk)
        → Steps s t
        → Leads s (execute_members services scope path object result t)
    unfolding execute_members execute_field execute_collection
    members-Leads no_output scope path result t h = h
    members-Leads (field_member field rest) scope path result t h =
        after-Leads _ _ (context-Leads _ t h) λ _ t' h'.
          after-Leads _ _ (transformed-Leads field (member_of path field.name) _ t' h')
            λ v t'' h''. members-Leads rest scope path (set_member field.name v result) t'' h''
    members-Leads (collection_member c row rest) scope path result t h =
        after-Leads _ _ (context-Leads _ t h) λ _ t' h'.
          after-Leads _ _
            (after-Leads _ _ (pair-Leads _ _ h') λ rows u k.
              execute_rows-Leads c _ (λ inner place. members-Leads row inner place no_members)
                (member_of path c.name) 0 rows [] u k)
            λ v t'' h''. members-Leads rest scope path (set_member c.name v result) t'' h''
    members-Leads (nil_member rest) scope path result t h =
        after-Leads (execution_context_error services path t) _ (context-Leads _ t h) λ _ t' h'. h'

    pub execute_object-Steps :
        (scope : Scope) (path : OutputPath) (object : OutputObject)
        → Steps s (execute_object services scope path object s).1
    unfolding execute_object
    execute_object-Steps scope path object =
        steps_of _ (members-Leads object scope path no_members s done)
