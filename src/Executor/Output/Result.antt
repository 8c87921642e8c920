-- ===== src/Executor/Output/Result.antt =====
-- internal/executor/types.go: `Result` with `finalizeResult`; executor.go: `executeDocument`.
use scrape_kdl.Common.Outcome.{Outcome, ok, err}
use scrape_kdl.Common.Text.{codes}
use scrape_kdl.Common.{
  ℕ, Bool, true, false, List, [], ◌∷◌, ◌++◌, none, ◌≡◌, ◌⊎◌, refl, sym, inl, inr, Bool-cases,
  if◌then◌else◌,
}
use scrape_kdl.Executor.Output.Recovery.{no_path, output, Failure, saying, Warning, Walk}
use scrape_kdl.Executor.Output.Steps.{Steps, done, ask, mark, report, execute_object-Steps}
use scrape_kdl.Executor.Output.Walker.{Services, execute_object}
use scrape_kdl.Executor.Value.{Value}
use scrape_kdl.Ir.{OutputObject}

pub record ExecutionResult : Type 0 where
  pub value : Value
  pub warnings : List Warning
  pub partial : Bool

-- The warning that stands for the whole result.
abbrev partial_warning : Warning
partial_warning = record {
  code = codes "W_PARTIAL_EXTRACTION";
  message = saying (codes "extraction completed with one or more recovered errors");
  path = no_path;
  row = none;
}

-- `finalizeResult`.
unfoldable pub finalize_result : Value → List Warning → Bool → ExecutionResult
finalize_result value warnings partial = record {
  value = value;
  warnings = if partial then warnings ++ partial_warning ∷ [] else warnings;
  partial = partial;
}

abbrev finished : Outcome Failure Value × Walk → Outcome Failure ExecutionResult
finished (err e, s) = err e
finished (ok v, s) = ok (finalize_result v s.warnings s.partial)

-- `executeDocument`, where the context was asked `checks` times before.
unfoldable pub execute_document :
    {Scope : Type 0}
    → Services Scope
    → Scope
    → OutputObject
    → (checks : ℕ) → Outcome Failure ExecutionResult
execute_document services document object checks = finished (
    execute_object services document output object
      (record { warnings = []; partial = false; checks = checks }))

-- No warning without the mark.
abbrev Marked : Walk → Type 0
Marked s = (s.warnings ≡ []) ⊎ (s.partial ≡ true)

Steps-Marked : (s t : Walk) → Marked s → Steps s t → Marked t
Steps-Marked s t h done = h
Steps-Marked s t h (ask {t = u} steps) = Steps-Marked s u h steps
Steps-Marked s t h (mark steps) = inr refl
Steps-Marked s t h (report w steps) = inr refl

abbrev pub any_warning : List Warning → Bool
any_warning [] = false
any_warning (w ∷ ws) = true

any_warning-append : (ws : List Warning) (w : Warning) → any_warning (ws ++ w ∷ []) ≡ true
any_warning-append [] w = refl
any_warning-append (v ∷ ws) w = refl

abbrev pub IsReported : Outcome Failure ExecutionResult → Type 0
IsReported (ok r) = r.partial ≡ any_warning r.warnings
IsReported (err e) = Unit

finished-IsReported : (r : Outcome Failure Value × Walk) → Marked r.1 → IsReported (finished r)
unfolding finalize_result
finished-IsReported (err e, s) h = tt
finished-IsReported (ok v, s) h = elim (Bool-cases s.partial) [
  | inl marked ↦ rw marked (sym (any_warning-append s.warnings partial_warning))
  | inr unmarked ↦ rw unmarked (elim h [ inl empty ↦ rw empty refl | inr marked ↦ absurd cc ])
]

-- A result of executeDocument is marked partial exactly if it has a warning: every warning of the
-- walk comes with the mark, and a marked result gets a warning of its own.
pub execute_document-IsReported :
    {Scope : Type 0} (services : Services Scope) (document : Scope) (object : OutputObject)
    (checks : ℕ)
    → IsReported (execute_document services document object checks)
unfolding execute_document
execute_document-IsReported services document object checks =
    let start : Walk = record { warnings = []; partial = false; checks = checks } in
    finished-IsReported _
      (Steps-Marked start _ (inl refl) (execute_object-Steps start services document output object))
