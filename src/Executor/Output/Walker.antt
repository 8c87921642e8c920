-- ===== src/Executor/Output/Walker.antt =====
-- internal/executor/output_walker.go.
use scrape_kdl.Common.Outcome.{Outcome, ok, err}
use scrape_kdl.Common.Text.{Bytes, codes, equal}
use scrape_kdl.Common.{
  ℕ, ◌+◌, Bool, false, not, ◌||◌, List, [], ◌∷◌, ◌++◌, length, Option, none, some, if◌then◌else◌,
}
use scrape_kdl.Executor.Output.Recovery.{
  OutputPath, member_of, row_of, Failure, execution, missing, saying, text_of, not_assignable,
  unknown_member, Walk, Run, mark_partial, warn, asked, validate_collection_minimum,
  validate_collection_maximum, handle_missing_output, recover_output_field,
}
use scrape_kdl.Executor.Value
use scrape_kdl.Executor.Value.{
  Value, null, items, Values, no_values, and_value, no_members, and_member, Numbers,
  matches_runtime_type,
}
use scrape_kdl.Ir.{
  TransformCall, Field, Collection, OutputObject, no_output, field_member, collection_member,
  nil_member,
}

-- What the walker calls: its reader, over the scopes of a document; `applyCalls` of the transforms;
-- `decodeJSON`; what Go does with numbers; and `ctx.Err()`, the n-th time it is asked.
pub record Services (Scope : Type 0) : Type 0 where
  pub read_output_field : Scope → Field → OutputPath → Outcome Failure Value
  pub query_output_rows : Scope → Collection → OutputPath → Outcome Failure (List Scope)
  pub apply_calls : Value → List TransformCall → OutputPath → Outcome Failure Value
  pub decode_json : Bytes → Outcome Bytes Value
  pub numbers : Numbers
  pub context_error : ℕ → Option Bytes

-- `result[name] = value`.
unfoldable pub set_member : Bytes → Value → Value.Members → Value.Members
unfolding equal
set_member name v no_members = and_member name v no_members
set_member name v (and_member other w ms) =
    let rest = set_member name v ms in
    if equal name other then and_member name v ms else and_member other w rest

-- The values of a `[]any` from a list.
abbrev pub values_of : List Value → Values
values_of [] = no_values
values_of (v ∷ vs) = and_value v (values_of vs)

-- A step that goes on with what the one before it returned.
abbrev pub after {ℓ κ} :
    {A : Type ℓ} {B : Type κ} → Outcome Failure A × Walk → (A → Run B) → Outcome Failure B × Walk
after (err e, s) next = (err e, s)
after (ok x, s) next = next x s

abbrev pub lift {ℓ} : {A : Type ℓ} → Outcome Failure A → Run A
lift r s = (r, s)

-- `isExecutionCanceled`; no error of another type wraps an `ExecutionError`.
unfoldable pub is_execution_canceled : Failure → Bool
unfolding equal
is_execution_canceled (execution code message path) = equal code (codes "E_EXECUTION_CANCELED")
is_execution_canceled _ = false

module _ {Scope : Type 0} (services : Services Scope) where
  abbrev pub context_failure : OutputPath → Option Bytes → Outcome Failure (Unit {0})
  context_failure path none = ok tt
  context_failure path (some e) = err (execution (codes "E_EXECUTION_CANCELED") (saying e) path)

  -- `executionContextError`.
  unfoldable pub execution_context_error : OutputPath → Run (Unit {0})
  execution_context_error path s = (context_failure path (services.context_error s.checks), asked s)

  abbrev pub recover : Field → OutputPath → Failure → Run Value
  recover = recover_output_field services.numbers services.decode_json

  -- The last test of `executeField`.
  unfoldable pub typed_value : Field → OutputPath → Outcome Failure Value → Run Value
  typed_value field path (err e) s = recover field path e s
  typed_value field path (ok v) s =
      if matches_runtime_type services.numbers v field.successful_type
      then (ok v, s)
      else recover field path
          (execution (codes "E_OUTPUT_TYPE") (not_assignable v field.successful_type) path) s

  unfoldable pub transformed : Field → OutputPath → Outcome Failure Value → Run Value
  transformed field path (err (missing message)) s =
      (handle_missing_output services.numbers services.decode_json field path message, s)
  transformed field path (err e) s = recover field path e s
  transformed field path (ok v) s =
      typed_value field path (services.apply_calls v field.transforms path) s

  -- `executeField`.
  unfoldable pub execute_field : Scope → Field → OutputPath → Run Value
  execute_field scope field path s =
      transformed field path (services.read_output_field scope field path) s

  -- The part of the loop of `executeCollection` behind a row, which goes on with `rest`.
  unfoldable pub after_row :
      Collection
      → OutputPath
      → ℕ
      → List Value
      → (List Value → Run Value)
      → Outcome Failure Value × Walk
      → Outcome Failure Value × Walk
  unfolding equal
  after_row c path index result rest (err e, s) =
      if is_execution_canceled e || not (equal c.on_row_error (codes "skip"))
      then (err e, s)
      else rest result (
          warn
            (record {
              code = codes "W_ROW_SKIPPED";
              message = text_of e;
              path = path;
              row = some index;
            })
            (mark_partial s))
  after_row c path index result rest (ok v, s) =
      after (lift (validate_collection_maximum c.max_items (length (result ++ v ∷ [])) path) s)
        λ _. rest (result ++ v ∷ [])

  abbrev pub finish_rows : Collection → OutputPath → List Value → Run Value
  finish_rows c path result s =
      after (lift (validate_collection_minimum c.required c.min_items (length result) path) s)
        λ _. lift (ok (items (values_of result)))

  -- The loop of `executeCollection`, on the run of a row.
  unfoldable pub execute_rows :
      (Scope → OutputPath → Run Value)
      → Collection
      → OutputPath
      → ℕ
      → List Scope
      → List Value
      → Run Value
  execute_rows run_row c path index [] result s = finish_rows c path result s
  execute_rows run_row c path index (row ∷ rows) result s =
      after (execution_context_error (row_of path index) s) λ _ s'.
        after_row c path index result (execute_rows run_row c path (index + 1) rows)
          (run_row row (row_of path index) s')

  -- `executeCollection`.
  unfoldable pub execute_collection :
      (Scope → OutputPath → Run Value) → Scope → Collection → OutputPath → Run Value
  execute_collection run_row scope c path s =
      after (lift (services.query_output_rows scope c path) s)
        λ rows. execute_rows run_row c path 0 rows []

  -- The loop of `executeObject`, with the members that it has set.
  unfoldable pub execute_members : Scope → OutputPath → OutputObject → Value.Members → Run Value
  execute_members scope path no_output result s = (ok (Value.object result), s)
  execute_members scope path (field_member field rest) result s =
      after (execution_context_error path s) λ _ s'.
        after (execute_field scope field (member_of path field.name) s')
          λ v. execute_members scope path rest (set_member field.name v result)
  execute_members scope path (collection_member c row rest) result s =
      after (execution_context_error path s) λ _ s'.
        after
          (execute_collection (λ inner place. execute_members inner place row no_members) scope c
            (member_of path c.name) s')
          λ v. execute_members scope path rest (set_member c.name v result)
  execute_members scope path (nil_member rest) result s =
      after (execution_context_error path s)
        λ _. lift (err (execution (codes "E_IR_INVALID") unknown_member path))

  -- `executeObject`.
  unfoldable pub execute_object : Scope → OutputPath → OutputObject → Run Value
  execute_object scope path object = execute_members scope path object no_members
