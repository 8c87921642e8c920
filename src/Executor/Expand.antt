-- ===== src/Executor/Expand.antt =====
-- internal/executor/template.go: `expandTemplate`.
pub mod Closed
use scrape_kdl.Common.Outcome.{Outcome, ok, err, ◌>>=◌, ◌>>◌, check}
use scrape_kdl.Common.Text.{Bytes, codes, equal}
use scrape_kdl.Common.{
  Bool, true, false, not, ◌&&◌, ◌||◌, List, [], ◌∷◌, ◌++◌, Option, none, some, if◌then◌else◌,
}
use scrape_kdl.Diagnostic.{plain, formatted}
use scrape_kdl.Executor.Builtins.Arguments.{Result}
use scrape_kdl.Executor.Builtins.Library.{Library, Url}
use scrape_kdl.Executor.Builtins.Urls.{is_abs}
use scrape_kdl.Executor.Calls.{TransformRuntime}
use scrape_kdl.Executor.Inputs.{ValueMap, value_at, input_path, coded, input_string}
use scrape_kdl.Executor.Output.Recovery.{no_path, Failure, execution, telling}
use scrape_kdl.Executor.Template.{percent_encode}
use scrape_kdl.Executor.Value.{Value}
use scrape_kdl.Ir.{TemplateSegment, literal_segment, input_segment, other_segment}

abbrev pub missing_input : Bytes → Failure
missing_input name =
    execution (codes "E_INPUT_REQUIRED")
      (telling (formatted (codes "URL template input %q is missing") (name ∷ []))) (input_path name)

-- The test of the expanded URL behind `url.Parse`.
unfoldable pub is_web_url : Url → Bool
unfolding is_abs equal
is_web_url u =
    is_abs u
    && not (equal u.host [])
    && (equal u.scheme (codes "http") || equal u.scheme (codes "https"))

abbrev pub parses : Outcome Bytes Url → Bool
parses (err e) = false
parses (ok u) = is_web_url u

abbrev pub not_web : Bytes → Failure
not_web expanded =
    execution (codes "E_URL_INVALID")
      (telling
        (formatted (codes "expanded URL is not an absolute HTTP(S) URL: %q") (expanded ∷ [])))
      no_path

module _ (runtime : TransformRuntime) (library : Library) where
  -- What is written for an input.
  abbrev pub written : Bytes → Option Value → Result Bytes
  written name none = err (missing_input name)
  written name (some v) =
      coded (codes "E_INPUT_TYPE") name (input_string runtime library v) >>= λ s.
      ok (percent_encode s)

  -- The switch of the loop.
  unfoldable pub expand_segment : ValueMap → TemplateSegment → Result Bytes
  unfolding value_at percent_encode
  expand_segment inputs (literal_segment kind value) = ok value
  expand_segment inputs (input_segment kind name) = written name (value_at inputs name)
  expand_segment inputs other_segment = err (
      execution (codes "E_IR_INVALID") (telling (plain (codes "unknown URL template segment %T")))
        no_path)

  unfoldable pub expand_segments : ValueMap → List TemplateSegment → Result Bytes
  unfolding expand_segment
  expand_segments inputs [] = ok []
  expand_segments inputs (segment ∷ segments) = do
    text ← expand_segment inputs segment
    rest ← expand_segments inputs segments
    ok (text ++ rest)

  unfoldable pub expand_template : List TemplateSegment → ValueMap → Result Bytes
  unfolding expand_segments
  expand_template segments inputs = do
    expanded ← expand_segments inputs segments
    check (parses (library.parse_url expanded)) (not_web expanded)
    ok expanded
