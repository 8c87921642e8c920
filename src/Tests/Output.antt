-- ===== src/Tests/Output.antt =====
-- A walk over the rows of a list, where one of two rows has no title.
use scrape_kdl.Common.Int.{pos}
use scrape_kdl.Common.Outcome.{Outcome, ok, err}
use scrape_kdl.Common.Text.{codes, equal}
use scrape_kdl.Common.{ℕ, zero, suc, true, false, List, [], ◌∷◌, none, some, ◌≡◌, refl}
use scrape_kdl.Executor.Output.Fits.{execute_object-IsObject}
use scrape_kdl.Executor.Output.Post.{Yields}
use scrape_kdl.Executor.Output.Recovery.{
  output, Failure, missing, Walk, handle_missing_output, validate_collection_maximum,
  validate_collection_minimum,
}
use scrape_kdl.Executor.Output.Result.{execute_document, IsReported, execute_document-IsReported}
use scrape_kdl.Executor.Output.Shape.{IsObject, Fits}
use scrape_kdl.Executor.Output.Skips.{Ends, execute_collection-Ends}
use scrape_kdl.Executor.Output.Walker.{
  Services, execute_object, execute_members, execute_collection, execute_rows, after_row,
  execute_field, transformed, typed_value, execution_context_error, set_member,
  is_execution_canceled,
}
use scrape_kdl.Executor.Value
use scrape_kdl.Executor.Value.{
  Value, text, null, items, object, no_values, and_value, no_members, and_member, Numbers,
  matches_runtime_type, matches_primitive,
}
use scrape_kdl.Ir
use scrape_kdl.Ir.{Field, Collection, OutputObject, no_output, field_member, collection_member}
use scrape_kdl.Source.{Span}
use scrape_kdl.Typesys.{primitive}

abbrev nowhere : Span
nowhere = record {
  file = [];
  start = record { offset = 0; line = 0; column = 0 };
  stop = record { offset = 0; line = 0; column = 0 };
}

abbrev no_numbers : Numbers
no_numbers = record {
  marshals = λ s. false;
  float_of = λ s. none;
  integer_of = λ s. none;
  format_single = λ f. [];
  format_double = λ f. [];
  double_of = λ k. Value.finite 0;
  widen = λ f. f;
  narrow = λ f. f;
}

-- A document with the rows 1 and 2, where only row 1 has a text.
abbrev rows_of : ℕ → List ℕ
rows_of zero = 1 ∷ 2 ∷ []
rows_of (suc i) = []

abbrev text_in : ℕ → Outcome Failure Value
text_in (suc zero) = ok (text (codes "first"))
text_in i = err (missing (codes "no element"))

abbrev list_services : Services ℕ
list_services = record {
  read_output_field = λ scope field path. text_in scope;
  query_output_rows = λ scope c path. ok (rows_of scope);
  apply_calls = λ v calls path. ok v;
  decode_json = λ raw. err (codes "no JSON");
  numbers = no_numbers;
  context_error = λ n. none;
}

abbrev title : Field
title = record {
  kind = codes "field";
  id = codes "title";
  name = codes "title";
  successful_type = primitive (codes "string");
  effective_type = primitive (codes "string");
  required = true;
  default = none;
  selection = none;
  value_source = Ir.text_source (codes "text") (primitive (codes "string")) nowhere;
  transforms = [];
  on_error = [];
  span = nowhere;
}

abbrev entries : Collection
entries = record {
  kind = codes "collection";
  id = codes "entries";
  name = codes "entries";
  selector = codes "li";
  required = true;
  min_items = pos 0;
  max_items = some (pos 5);
  on_row_error = codes "skip";
  span = nowhere;
}

abbrev titles : OutputObject
titles = field_member title no_output

abbrev listing : OutputObject
listing = collection_member entries titles no_output

abbrev start : Walk
start = record { warnings = []; partial = false; checks = 0 }

-- The second row is skipped.
execute_object-listing :
    (execute_object list_services 0 output listing start).0
    ≡ ok (
        object (
          and_member
            (codes "entries")
            (items (
              and_value
                (object (and_member (codes "title") (text (codes "first")) no_members))
                no_values))
            no_members))
unfolding execute_object execute_members execute_collection execute_rows after_row execute_field
    transformed typed_value execution_context_error set_member is_execution_canceled
    handle_missing_output validate_collection_maximum validate_collection_minimum
    matches_runtime_type matches_primitive equal
execute_object-listing = refl

execute_object-IsObject_example :
    Yields
      (IsObject listing (Fits no_numbers listing))
      (execute_object list_services 0 output listing start)
execute_object-IsObject_example = execute_object-IsObject list_services 0 output listing start

execute_document-IsReported_example : IsReported (execute_document list_services 0 listing 0)
execute_document-IsReported_example = execute_document-IsReported list_services 0 listing 0

execute_collection-Ends_example :
    Ends list_services
      (λ inner place. execute_members list_services inner place titles no_members)
      entries
      output
      (1 ∷ 2 ∷ [])
      start
      (execute_collection list_services
        (λ inner place. execute_members list_services inner place titles no_members)
        0
        entries
        output
        start)
unfolding equal
execute_collection-Ends_example =
    execute_collection-Ends list_services
      (λ inner place. execute_members list_services inner place titles no_members) 0 entries output
      (1 ∷ 2 ∷ []) start refl refl
