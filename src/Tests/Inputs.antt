-- ===== src/Tests/Inputs.antt =====
-- Inputs of a run, and a URL with one of them.
use scrape_kdl.Common.Outcome.{ok, err}
use scrape_kdl.Common.Text.{Bytes, codes, equal}
use scrape_kdl.Common.{true, false, List, [], ◌∷◌, none, some, ◌≡◌, refl, if◌then◌else◌}
use scrape_kdl.Executor.Expand.Closed.{Fills, expand_template-Fills}
use scrape_kdl.Executor.Expand.{expand_template, parses, not_web}
use scrape_kdl.Executor.Inputs.Resolved.{IsResolved, resolve_inputs-IsResolved}
use scrape_kdl.Executor.Inputs.{
  ValueMap, value_at, normalize_input, check_declarations, least_unknown, resolve_each,
  resolve_inputs,
}
use scrape_kdl.Executor.Value.{text}
use scrape_kdl.Ir.{Input, TemplateSegment, literal_segment, input_segment}
use scrape_kdl.Tests.Builtins.{plain_runtime, plain_library, nowhere}

-- `input "id"`, and an optional input with a default.
abbrev two_inputs : List Input
two_inputs =
    record {
      name = codes "id";
      type_name = codes "string";
      required = true;
      default = none;
      span = nowhere;
    }
    ∷ record {
      name = codes "tag";
      type_name = codes "string";
      required = false;
      default = some (codes "new");
      span = nowhere;
    }
    ∷ []

abbrev only_id : ValueMap
only_id = (codes "id", text (codes "a b")) ∷ []

abbrev id_and_tag : ValueMap
id_and_tag = (codes "id", text (codes "a b")) ∷ (codes "tag", text (codes "new")) ∷ []

resolve_inputs-IsResolved_example :
    IsResolved plain_runtime plain_library two_inputs only_id
      (resolve_inputs plain_runtime plain_library two_inputs only_id)
resolve_inputs-IsResolved_example =
    resolve_inputs-IsResolved plain_runtime plain_library two_inputs only_id

abbrev item_template : List TemplateSegment
item_template =
    literal_segment (codes "literal") (codes "https://example.com/")
    ∷ input_segment (codes "input") (codes "id")
    ∷ []

expand_template-Fills_example :
    (s : Bytes) × Fills plain_runtime plain_library id_and_tag item_template s
    × (expand_template plain_runtime plain_library item_template id_and_tag
        ≡ (if parses (plain_library.parse_url s) then ok s else err (not_web s)))
unfolding resolve_inputs check_declarations least_unknown resolve_each value_at normalize_input
    equal
expand_template-Fills_example =
    expand_template-Fills plain_runtime plain_library two_inputs only_id id_and_tag item_template
      refl (refl, tt)
