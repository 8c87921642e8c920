-- ===== src/Executor/Output/Skips.antt =====
-- What a collection that skips the rows with errors returns.
use scrape_kdl.Common.Int.{pos}
use scrape_kdl.Common.Outcome.{Outcome, ok, err}
use scrape_kdl.Common.Text.{Bytes, codes, equal}
use scrape_kdl.Common.{
  ℕ, ◌+◌, true, false, List, [], ◌∷◌, ◌++◌, length, Option, none, some, ◌≡◌, ◌⊎◌, inl, inr, refl,
  ap, append_assoc, append-nil, Bool-cases,
}
use scrape_kdl.Executor.Output.Recovery.{
  OutputPath, row_of, Failure, Walk, Run, asked, less_ℤ, minimum_of, exceeds,
  validate_collection_minimum, validate_collection_maximum,
}
use scrape_kdl.Executor.Output.Walker.{
  Services, values_of, after, context_failure, execution_context_error, after_row, finish_rows,
  execute_rows, execute_collection,
}
use scrape_kdl.Executor.Value.{Value, items}
use scrape_kdl.Ir.{Collection}
use scrape_kdl.Executor.Output.Ran.{
  TooFew, TooMany, has_code, skipping, Ran, none_left, kept, skipped, cancelled,
  is_execution_canceled-has_code, minimum-TooFew, minimum-enough, exceeds-TooMany, not-TooMany,
}

module _ {Scope : Type 0} (services : Services Scope) (run_row : Scope → OutputPath → Run Value)
    (c : Collection) (path : OutputPath) where
  -- The bounds of a collection, where a maximum does not concern a collection without rows.
  abbrev pub IsWithin : List Value → Type 0
  IsWithin vs = ¬ TooFew c (length vs) × ((length vs ≡ 0) ⊎ ¬ TooMany c (length vs))

  -- How the loop over `rows` ends, with the values `result` collected before.
  abbrev pub EndsFrom : ℕ → List Scope → List Value → Walk → Outcome Failure Value × Walk → Type 0
  EndsFrom index rows result s (ok v, t) =
      (vs : List Value) × Ran services run_row path index rows vs s t
      × (v ≡ items (values_of (result ++ vs)))
      × IsWithin (result ++ vs)
  EndsFrom index rows result s (err e, t) =
      (has_code cancelled e ≡ true)
      ⊎ (has_code (codes "E_COLLECTION_CARDINALITY") e ≡ true)
        × (before : List Scope) × (behind : List Scope) × (vs : List Value) × (rows
            ≡ before ++ behind)
        × Ran services run_row path index before vs s t
        × ((behind ≡ []) × TooFew c (length (result ++ vs)) ⊎ TooMany c (length (result ++ vs)))

  append_row :
      (result : List Value) (v : Value) (vs : List Value)
      → (result ++ v ∷ []) ++ vs ≡ result ++ v ∷ vs
  append_row result v vs = append_assoc result (v ∷ []) vs

  kept-EndsFrom :
      (index : ℕ) (row : Scope) (rows : List Scope) (v : Value) (result : List Value) (s m : Walk)
      (r : Outcome Failure Value × Walk)
      → services.context_error s.checks ≡ none
      → run_row row (row_of path index) (asked s) ≡ (ok v, m)
      → EndsFrom (index + 1) rows (result ++ v ∷ []) m r
      → EndsFrom index (row ∷ rows) result s r
  kept-EndsFrom index row rows v result s m (ok w, t) asks runs (vs, ran, e, within) =
      let same = append_row result v vs in
      (v ∷ vs, kept asks runs ran, rw (← same) e, rw (← same) within)
  kept-EndsFrom index row rows v result s m (err e, t) asks runs (inl h) = inl h
  kept-EndsFrom index row rows v result s m (err e, t) asks runs
        (inr (code, before, behind, vs, split, ran, bounds)) =
      inr (
        code,
        row ∷ before,
        behind,
        v ∷ vs,
        ap (◌∷◌ row) split,
        kept asks runs ran,
        rw (← append_row result v vs) bounds,
      )

  skipped-EndsFrom :
      (index : ℕ) (row : Scope) (rows : List Scope) (e : Failure) (result : List Value) (s m : Walk)
      (r : Outcome Failure Value × Walk)
      → services.context_error s.checks ≡ none
      → run_row row (row_of path index) (asked s) ≡ (err e, m)
      → has_code cancelled e ≡ false
      → EndsFrom (index + 1) rows result (skipping path index e m) r
      → EndsFrom index (row ∷ rows) result s r
  skipped-EndsFrom index row rows e result s m (ok w, t) asks runs on (vs, ran, same, within) =
      (vs, skipped asks runs on ran, same, within)
  skipped-EndsFrom index row rows e result s m (err f, t) asks runs on (inl h) = inl h
  skipped-EndsFrom index row rows e result s m (err f, t) asks runs on
        (inr (code, before, behind, vs, split, ran, bounds)) =
      inr (code, row ∷ before, behind, vs, ap (◌∷◌ row) split, skipped asks runs on ran, bounds)

  finish_rows-EndsFrom :
      (index : ℕ) (result : List Value) (s : Walk)
      → (length result ≡ 0) ⊎ ¬ TooMany c (length result)
      → EndsFrom index [] result s (finish_rows services c path result s)
  unfolding validate_collection_minimum has_code equal
  finish_rows-EndsFrom index result s few =
      let n = length result in
      let whole : result ++ [] ≡ result = append-nil result in
      elim (Bool-cases (less_ℤ (pos n) (minimum_of c.required c.min_items))) [
        | inl e ↦ rw e (
            inr (
              refl,
              [],
              [],
              [],
              refl,
              none_left,
              inl (refl, rw whole (minimum-TooFew c.required c.min_items n e)),
            ))
        | inr e ↦ rw e (
          [],
          none_left,
          rw whole refl,
          rw whole (minimum-enough c.required c.min_items n e, few),
        )
      ]

  module _ (skips : equal c.on_row_error (codes "skip") ≡ true) where
    after_row-EndsFrom :
        (index : ℕ) (row : Scope) (rows : List Scope) (result : List Value) (s : Walk)
        (rest : List Value → Run Value) (r : Outcome Failure Value × Walk)
        → services.context_error s.checks ≡ none
        → run_row row (row_of path index) (asked s) ≡ r
        → (length result ≡ 0) ⊎ ¬ TooMany c (length result)
        → ((vs : List Value) (m : Walk)
            → (length vs ≡ 0) ⊎ ¬ TooMany c (length vs)
            → EndsFrom (index + 1) rows vs m (rest vs m))
        → EndsFrom index (row ∷ rows) result s (after_row services c path index result rest r)
    unfolding after_row validate_collection_maximum has_code equal
    after_row-EndsFrom index row rows result s rest (err e, m) asks runs few k =
        let same = is_execution_canceled-has_code e in
        elim (Bool-cases (has_code cancelled e)) [
          | inl stop ↦ rw (same, stop) (inl stop)
          | inr on ↦
              rw (same, on, skips)
                (skipped-EndsFrom index row rows e result s m _ asks runs on
                  (k result (skipping path index e m) few))
        ]
    after_row-EndsFrom index row rows result s rest (ok v, m) asks runs few k =
        let vs = result ++ v ∷ [] in
        elim (Bool-cases (exceeds (length vs) c.max_items)) [
          | inl over ↦ rw over (
              inr (
                refl,
                row ∷ [],
                rows,
                v ∷ [],
                refl,
                kept asks runs none_left,
                inr (exceeds-TooMany c (length vs) c.max_items refl over),
              ))
          | inr below ↦ rw below (
              kept-EndsFrom index row rows v result s m _ asks runs
                (k vs m (inr (not-TooMany c (length vs) c.max_items refl below))))
        ]

    execute_rows-EndsFrom :
        (index : ℕ) (rows : List Scope) (result : List Value) (s : Walk)
        → (length result ≡ 0) ⊎ ¬ TooMany c (length result)
        → EndsFrom index rows result s (execute_rows services run_row c path index rows result s)
    unfolding execute_rows execution_context_error has_code equal
    execute_rows-EndsFrom index [] result s few = finish_rows-EndsFrom index result s few
    execute_rows-EndsFrom index (row ∷ rows) result s few =
        asking (services.context_error s.checks) refl
          (λ vs m few'. execute_rows-EndsFrom (index + 1) rows vs m few')
      where
        asking :
            (o : Option Bytes)
            → services.context_error s.checks ≡ o
            → ((vs : List Value) (m : Walk)
                → (length vs ≡ 0) ⊎ ¬ TooMany c (length vs)
                → EndsFrom
                    (index + 1)
                    rows
                    vs
                    m
                    (execute_rows services run_row c path (index + 1) rows vs m))
            → EndsFrom index (row ∷ rows) result s (
                after
                  (context_failure services (row_of path index) o, asked s)
                  λ _ s'.
                    after_row services c path index result
                      (execute_rows services run_row c path (index + 1) rows)
                      (run_row row (row_of path index) s'))
        asking (some e) at k = inl refl
        asking none at k =
            after_row-EndsFrom index row rows result s _ (run_row row (row_of path index) (asked s))
              at refl few k

  -- How `executeCollection` ends on its rows.
  abbrev pub Ends : List Scope → Walk → Outcome Failure Value × Walk → Type 0
  Ends rows = EndsFrom 0 rows []

-- Where a collection skips the rows with errors and its rows are found, whatever the runs of its
-- rows do, executeCollection ends in one of three ways. It returns the values of the rows that
-- returned one, in order, with a warning and the mark of a partial result for each other row, and
-- their number is within the bounds of the collection. Or the error says that the run was
-- cancelled. Or it is E_COLLECTION_CARDINALITY, and the values of all rows are fewer than the
-- minimum, or none for a required collection, or those of the rows up to one are more than the
-- maximum.
pub execute_collection-Ends :
    {Scope : Type 0} (services : Services Scope) (run_row : Scope → OutputPath → Run Value)
    (scope : Scope) (c : Collection) (path : OutputPath) (rows : List Scope) (s : Walk)
    → equal c.on_row_error (codes "skip") ≡ true
    → services.query_output_rows scope c path ≡ ok rows
    → Ends services run_row c path rows s (execute_collection services run_row scope c path s)
unfolding execute_collection
execute_collection-Ends services run_row scope c path rows s skips found =
    rw found (execute_rows-EndsFrom services run_row c path skips 0 rows [] s (inl refl))
