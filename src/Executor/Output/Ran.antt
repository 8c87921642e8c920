-- ===== src/Executor/Output/Ran.antt =====
-- Runs of the rows of a collection that skips those with errors, and the bounds of a collection.
use scrape_kdl.Common.Int.{ℤ, pos, negsuc}
use scrape_kdl.Common.Outcome.{ok, err}
use scrape_kdl.Common.Text.{Bytes, codes, equal}
use scrape_kdl.Common.{
  ℕ, ◌+◌, Bool, true, false, List, [], ◌∷◌, Option, none, some, ◌≡◌, ◌⊎◌, inl, inr, refl, arith,
  Bool-cases,
}
use scrape_kdl.Executor.Output.Recovery.{
  OutputPath, row_of, Failure, execution, text_of, Walk, Run, asked, warn, mark_partial, less_ℤ,
  minimum_of, exceeds,
}
use scrape_kdl.Executor.Output.Walker.{Services, is_execution_canceled}
use scrape_kdl.Executor.Value.{Value}
use scrape_kdl.Ir.{Collection}

-- The rows are fewer than the collection's minimum, or a required collection has none.
abbrev pub TooFew : Collection → ℕ → Type 0
TooFew c n = (less_ℤ (pos n) c.min_items ≡ true) ⊎ (c.required ≡ true) × (n ≡ 0)

-- They are more than its maximum, if it has one.
abbrev pub TooMany : Collection → ℕ → Type 0
TooMany c n = (limit : ℤ) × (c.max_items ≡ some limit) × (less_ℤ limit (pos n) ≡ true)

unfoldable pub has_code : Bytes → Failure → Bool
has_code name (execution code message path) = equal code name
has_code name _ = false

-- The warning of the row `index` that ended with `e`, and the mark of a partial result.
abbrev pub skipping : OutputPath → ℕ → Failure → Walk → Walk
skipping path index e s =
    warn
      (record { code = codes "W_ROW_SKIPPED"; message = text_of e; path = path; row = some index })
      (mark_partial s)

-- `Ran index rows vs s t`: from the state `s` to `t`, the rows, the first of which has that index, ran
-- one by one, each behind a question to the context; `vs` are the values of those that returned
-- one, in order, and each of the others, which were not cancelled, left its warning.
pub data Ran {Scope : Type 0} (services : Services Scope) (run_row : Scope → OutputPath → Run Value)
    (path : OutputPath) : ℕ → List Scope → List Value → Walk → Walk → Type 0 where
  none_left : {index : ℕ} {s : Walk} → Ran services run_row path index [] [] s s
  kept :
      {index : ℕ} {row : Scope} {rows : List Scope} {v : Value} {vs : List Value} {s m t : Walk}
      → services.context_error s.checks ≡ none
      → run_row row (row_of path index) (asked s) ≡ (ok v, m)
      → Ran services run_row path (index + 1) rows vs m t
      → Ran services run_row path index (row ∷ rows) (v ∷ vs) s t
  skipped :
      {index : ℕ} {row : Scope} {rows : List Scope} {e : Failure} {vs : List Value} {s m t : Walk}
      → services.context_error s.checks ≡ none
      → run_row row (row_of path index) (asked s) ≡ (err e, m)
      → has_code (codes "E_EXECUTION_CANCELED") e ≡ false
      → Ran services run_row path (index + 1) rows vs (skipping path index e m) t
      → Ran services run_row path index (row ∷ rows) vs s t

abbrev pub cancelled : Bytes
cancelled = codes "E_EXECUTION_CANCELED"

pub is_execution_canceled-has_code : (e : Failure) → is_execution_canceled e ≡ has_code cancelled e
unfolding is_execution_canceled has_code
is_execution_canceled-has_code (execution code message path) = refl
is_execution_canceled-has_code _ = refl

pub minimum-TooFew :
    (required : Bool) (min_items : ℤ) (n : ℕ)
    → less_ℤ (pos n) (minimum_of required min_items) ≡ true
    → (less_ℤ (pos n) min_items ≡ true) ⊎ (required ≡ true) × (n ≡ 0)
unfolding minimum_of
minimum-TooFew true (pos m) n h = elim (Bool-cases (less_ℤ (pos m) (pos 1))) [
  | inl e ↦ inr (refl, ground (arith, h, e))
  | inr e ↦ inl (ground (arith, h, e))
]
minimum-TooFew true (negsuc m) n h = inr (refl, ground (arith, h))
minimum-TooFew false m n h = inl h

pub minimum-enough :
    (required : Bool) (min_items : ℤ) (n : ℕ)
    → less_ℤ (pos n) (minimum_of required min_items) ≡ false
    → (less_ℤ (pos n) min_items ≡ true) ⊎ (required ≡ true) × (n ≡ 0)
    → ⊥
unfolding minimum_of
minimum-enough true (pos m) n h (inl k) = ground (arith, h, k)
minimum-enough true (pos m) n h (inr (r, k)) = ground (arith, h, k)
minimum-enough true (negsuc m) n h (inl k) = cc
minimum-enough true (negsuc m) n h (inr (r, k)) = ground (arith, h, k)
minimum-enough false m n h (inl k) = cc
minimum-enough false m n h (inr (r, k)) = cc

pub exceeds-TooMany :
    (c : Collection) (n : ℕ) (o : Option ℤ) → c.max_items ≡ o → exceeds n o ≡ true → TooMany c n
unfolding exceeds
exceeds-TooMany c n none e h = absurd cc
exceeds-TooMany c n (some limit) e h = (limit, e, h)

pub not-TooMany :
    (c : Collection) (n : ℕ) (o : Option ℤ) → c.max_items ≡ o → exceeds n o ≡ false → ¬ TooMany c n
unfolding exceeds
not-TooMany c n none e h (limit, k, over) = cc
not-TooMany c n (some bound) e h (limit, k, over) =
    let same : limit ≡ bound = cc in let below : less_ℤ limit (pos n) ≡ false = rw same h in cc
