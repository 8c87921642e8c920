-- ===== src/Executor/ValidType.antt =====
-- internal/executor/executor.go: `validRuntimeType`.
use scrape_kdl.Common.Outcome.{Outcome, ok, err}
use scrape_kdl.Common.{Bool, true, false, ◌≡◌, ◌↔◌, sym}
use scrape_kdl.Typesys.Assign.{equal_type-eq, equal_type_refl}
use scrape_kdl.Typesys.Print.{well_formed}
use scrape_kdl.Typesys.RoundTrip.{parse-to_text}
use scrape_kdl.Typesys.Syntax.{Parsed, parse-Parsed}
use scrape_kdl.Typesys.{Ty, ParseError, parse, to_text, equal_type}

abbrev agrees : Outcome ParseError Ty → Ty → Bool
agrees (err e) t = false
agrees (ok parsed) t = equal_type parsed t

unfoldable pub valid_runtime_type : Ty → Bool
valid_runtime_type t = agrees (parse (to_text t)) t

agrees-well_formed :
    (r : Outcome ParseError Ty) (t : Ty) → Parsed r → agrees r t ≡ true → well_formed t ≡ true
agrees-well_formed (err e) t h k = absurd cc
agrees-well_formed (ok parsed) t h k = rw (sym (equal_type-eq parsed t k)) h

-- validRuntimeType, which prints a type and parses the text, accepts exactly the well-formed types.
pub valid_runtime_type_iff : (t : Ty) → (valid_runtime_type t ≡ true) ↔ (well_formed t ≡ true)
unfolding valid_runtime_type
valid_runtime_type_iff t = (
  agrees-well_formed (parse (to_text t)) t (parse-Parsed (to_text t)),
  λ wf. rw (parse-to_text t wf) (equal_type_refl t wf),
)
