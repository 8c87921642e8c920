-- ===== src/Diagnostic.antt =====
-- internal/diagnostic/diagnostic.go: diagnostics and the lists of them. `WriteText` and `WriteJSON`,
-- which only print a sorted list, are not modelled.
pub mod Order
use scrape_kdl.Common.Sort.{slice_stable}
use scrape_kdl.Common.Text.{Bytes, equal, less}
use scrape_kdl.Common.{Bool, true, false, not, List, [], ◌∷◌, ◌++◌, ltb, ◌==◌, if◌then◌else◌, any}
use scrape_kdl.Source.{Span}

pub data Severity : Type 0 where
  error warning : Severity

-- A message: a fixed text, or a format of `fmt.Sprintf` with its arguments, not rendered.
pub data Message : Type 0 where
  plain : Bytes → Message
  formatted : Bytes → List Bytes → Message

pub record Diagnostic : Type 0 where
  pub code : Bytes
  pub severity : Severity
  pub message : Message
  pub span : Span
  pub path : Bytes

-- The method `Add` of `List`.
abbrev pub add : List Diagnostic → Bytes → Severity → Message → Span → Bytes → List Diagnostic
add l c sev m s p = l ++ record { code = c; severity = sev; message = m; span = s; path = p } ∷ []

abbrev is_error : Severity → Bool
is_error error = true
is_error warning = false

unfoldable pub has_errors : List Diagnostic → Bool
has_errors l = any (λ d. is_error d.severity) l

-- The comparison that `Sorted` hands to the sort: by file, then offset, then code.
unfoldable pub before : Diagnostic → Diagnostic → Bool
before a b =
    if not (equal a.span.file b.span.file)
    then less a.span.file b.span.file
    else if not (a.span.start.offset == b.span.start.offset)
    then ltb a.span.start.offset b.span.start.offset
    else less a.code b.code

unfoldable pub sorted : List Diagnostic → List Diagnostic
unfolding slice_stable
sorted l = slice_stable before l
