-- ===== src/Tests/Values.antt =====
-- Values of a run against types.
use scrape_kdl.Common.Int.{ℤ, pos}
use scrape_kdl.Common.Text.{Bytes, codes, equal}
use scrape_kdl.Common.{true, Option, none, some, ◌≡◌, ◌↔◌, refl, if◌then◌else◌}
use scrape_kdl.Limits.{millisecond, milliseconds, milliseconds-eq-fits_signed}
use scrape_kdl.Common.{◌*◌, ◌&&◌, ltb}
use scrape_kdl.Executor.Assignable.{is_assignable-matches}
use scrape_kdl.Executor.Conforms.{Conforms, normalize_json_result-Conforms}
use scrape_kdl.Executor.Integer.{holds, held_in, spelled, normalize_json_integer-eq-holds}
use scrape_kdl.Executor.Integer
use scrape_kdl.Executor.Normalize.{
  fits_signed, two_63, json_integer, normalize_json_integer, normalize_json_result,
}
use scrape_kdl.Executor.ValidType.{valid_runtime_type, valid_runtime_type_iff}
use scrape_kdl.Executor.Value
use scrape_kdl.Executor.Value.{
  Floating, Value, Values, Numbers, integer, number, items, no_values, and_value, null,
  matches_runtime_type, matches_primitive, is_json_compatible,
}
use scrape_kdl.Typesys.Print.{well_formed}
use scrape_kdl.Typesys.{
  Ty, primitive, array, nullable, is_assignable, equal_type, is_unknown, strip_nullable,
}

-- Numbers where `json.Number` stands for one of two integers.
abbrev read_integer : Bytes → Option ℤ
read_integer s =
    if equal s (codes "300")
    then some (pos 300)
    else if equal s (codes "7")
    then some (pos 7)
    else none

abbrev some_zero : Option ℤ → Option Floating
some_zero none = none
some_zero (some k) = some (Value.finite 0)

abbrev two_numbers : Numbers
two_numbers = record {
  marshals = λ s. true;
  float_of = λ s. some_zero (read_integer s);
  integer_of = read_integer;
  format_single = λ f. codes "7";
  format_double = λ f. codes "7";
  double_of = λ k. Value.finite 0;
  widen = λ f. f;
  narrow = λ f. f;
}

normalize_json_integer-eq-holds_example :
    normalize_json_integer two_numbers (number (codes "300")) (codes "i16")
    ≡ (if holds Value.int16 (pos 300) then some (integer Value.int16 (pos 300)) else none)
unfolding json_integer equal
normalize_json_integer-eq-holds_example =
    normalize_json_integer-eq-holds two_numbers Integer.i16 (number (codes "300")) (pos 300) refl

-- `[null, 7]` for `u8?[]`.
abbrev seven_and_null : Value
seven_and_null = items (and_value null (and_value (number (codes "7")) no_values))

abbrev bytes_type : Ty
bytes_type = array (nullable (primitive (codes "u8")))

normalize_json_result-Conforms_example :
    Conforms two_numbers bytes_type (normalize_json_result two_numbers seven_and_null bytes_type)
normalize_json_result-Conforms_example =
    normalize_json_result-Conforms two_numbers seven_and_null bytes_type

abbrev counts : Value
counts = items (and_value (integer Value.uint8 (pos 7)) no_values)

is_assignable-matches_example :
    matches_runtime_type two_numbers counts (array (nullable (primitive (codes "unknown")))) ≡ true
unfolding is_assignable equal_type equal is_unknown is_json_compatible matches_runtime_type
    matches_primitive strip_nullable
is_assignable-matches_example =
    is_assignable-matches two_numbers counts (array (primitive (codes "u8")))
      (array (nullable (primitive (codes "unknown")))) refl refl refl

valid_runtime_type_iff_example :
    (valid_runtime_type bytes_type ≡ true) ↔ (well_formed bytes_type ≡ true)
valid_runtime_type_iff_example = valid_runtime_type_iff bytes_type

milliseconds-eq-fits_signed_example : milliseconds (pos 1500) ≡ (
    if ltb 0 1500 && fits_signed two_63 (pos (1500 * millisecond))
    then some (pos (1500 * millisecond))
    else none)
milliseconds-eq-fits_signed_example = milliseconds-eq-fits_signed 1500
