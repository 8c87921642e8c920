-- ===== src/Tests/Typesys.antt =====
-- Types on small examples.
use scrape_kdl.Common.Outcome.{ok}
use scrape_kdl.Common.Text.{codes, equal}
use scrape_kdl.Common.{true, ◌≡◌, ◌↔◌, refl}
use scrape_kdl.Typesys.Assign.{equal_type_iff, is_assignable_refl, is_assignable_trans}
use scrape_kdl.Typesys.Print.{well_formed}
use scrape_kdl.Typesys.RoundTrip.{parse-to_text}
use scrape_kdl.Typesys.Syntax.{Parsed, parse-Parsed}
use scrape_kdl.Typesys.{
  Ty, primitive, array, nullable, to_text, equal_type, is_assignable, parse, is_primitive,
  strip_nullable, is_unknown,
}

abbrev number : Ty
number = primitive (codes "int")

-- `int[]?[]`
abbrev rows : Ty
rows = array (nullable (array number))

abbrev numbers : Ty
numbers = array number

-- `unknown?[]`
abbrev loose : Ty
loose = array (nullable (primitive (codes "unknown")))

rows-well_formed : well_formed rows ≡ true
unfolding is_primitive equal
rows-well_formed = refl

parse-to_text_example : parse (to_text rows) ≡ ok rows
parse-to_text_example = parse-to_text rows rows-well_formed

parse-Parsed_example : Parsed (parse (codes " (int?)[] "))
parse-Parsed_example = parse-Parsed (codes " (int?)[] ")

equal_type_iff_example : (equal_type rows rows ≡ true) ↔ (rows ≡ rows)
equal_type_iff_example = equal_type_iff rows rows rows-well_formed

is_assignable_refl_example : is_assignable rows rows ≡ true
is_assignable_refl_example = is_assignable_refl rows rows-well_formed

numbers-lifted : is_assignable numbers (array (nullable number)) ≡ true
unfolding is_assignable equal_type strip_nullable
numbers-lifted = refl

lifted-loose : is_assignable (array (nullable number)) loose ≡ true
unfolding is_assignable equal_type strip_nullable is_unknown
lifted-loose = refl

is_assignable_trans_example : is_assignable numbers loose ≡ true
is_assignable_trans_example =
    is_assignable_trans numbers (array (nullable number)) loose numbers-lifted lifted-loose
