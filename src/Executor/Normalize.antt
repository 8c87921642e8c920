-- ===== src/Executor/Normalize.antt =====
-- internal/executor/browser.go: `normalizeJSONResult`, with `none` for a result that is not ok; no
-- caller uses the value beside it.
use scrape_kdl.Common.Int.{ℤ, pos, negsuc}
use scrape_kdl.Common.Text.{Bytes, codes, equal, has_prefix}
use scrape_kdl.Common.{
  ℕ, ◌+◌, ◌-◌, ◌%◌, Bool, false, ◌||◌, List, [], ◌∷◌, Option, none, some, ltb, if◌then◌else◌,
}
use scrape_kdl.Executor.Value.{
  int8, int16, int32, int64, uint8, uint16, uint32, uint64, Floating, Value, null, text, integer,
  single, double, number, strings, items, Values, no_values, and_value, Numbers, is_finite,
  is_object, is_text, is_boolean, float32_is_invalid, is_json_compatible,
}
use scrape_kdl.Typesys.{Ty, primitive, array, nullable, array_nil, nullable_nil, other}

-- The tests on `big.Int` and on the 64-bit integers; -(n + 1) is at least -half if n < half.
unfoldable pub fits_unsigned : ℕ → ℤ → Bool
fits_unsigned size (pos n) = ltb n size
fits_unsigned size (negsuc n) = false

unfoldable pub fits_signed : ℕ → ℤ → Bool
fits_signed half (pos n) = ltb n half
fits_signed half (negsuc n) = ltb n half

abbrev pub two_63 : ℕ
two_63 = 9223372036854775808

-- A conversion to fewer bits keeps the lowest ones, in two's complement.
unfoldable pub to_unsigned : ℕ → ℤ → ℤ
to_unsigned size (pos n) = pos (n % size)
to_unsigned size (negsuc n) = pos (size - 1 - n % size)

abbrev centred : ℕ → ℤ → ℤ
centred half (pos n) = if ltb n half then pos n else negsuc (half + half - 1 - n)
centred half (negsuc n) = negsuc n

unfoldable pub to_signed : ℕ → ℤ → ℤ
unfolding to_unsigned
to_signed half k = centred half (to_unsigned (half + half) k)

-- The two switches of `normalizeJSONInteger`.
unfoldable pub narrow_unsigned : Bytes → ℤ → Option Value
unfolding equal fits_unsigned to_unsigned
narrow_unsigned name k =
    if equal name (codes "u8")
    then (if fits_unsigned 256 k then some (integer uint8 (to_unsigned 256 k)) else none)
    else if equal name (codes "u16")
    then (if fits_unsigned 65536 k then some (integer uint16 (to_unsigned 65536 k)) else none)
    else if equal name (codes "u32")
    then (if fits_unsigned 4294967296 k
        then some (integer uint32 (to_unsigned 4294967296 k))
        else none)
    else none

unfoldable pub narrow_signed : Bytes → ℤ → Option Value
unfolding equal fits_signed to_signed
narrow_signed name k =
    if equal name (codes "int") || equal name (codes "i64")
    then some (integer int64 k)
    else if equal name (codes "i8")
    then (if fits_signed 128 k then some (integer int8 (to_signed 128 k)) else none)
    else if equal name (codes "i16")
    then (if fits_signed 32768 k then some (integer int16 (to_signed 32768 k)) else none)
    else if equal name (codes "i32")
    then (if fits_signed 2147483648 k then some (integer int32 (to_signed 2147483648 k)) else none)
    else none

-- `normalizeJSONInteger` behind `jsonInteger`.
unfoldable pub convert_integer : Bytes → ℤ → Option Value
unfolding equal has_prefix fits_unsigned fits_signed narrow_unsigned narrow_signed
convert_integer name k =
    if equal name (codes "u64")
    then (if fits_unsigned (two_63 + two_63) k then some (integer uint64 k) else none)
    else if has_prefix name (codes "u")
    then (if fits_unsigned (two_63 + two_63) k then narrow_unsigned name k else none)
    else (if fits_signed two_63 k then narrow_signed name k else none)

abbrev pub converted : Bytes → Option ℤ → Option Value
converted name none = none
converted name (some k) = convert_integer name k

abbrev pub kept_if : Bool → Value → Option Value
kept_if test v = if test then some v else none

abbrev pub is_integer_name : Bytes → Bool
is_integer_name name =
    equal name (codes "int")
    || equal name (codes "i8")
    || equal name (codes "i16")
    || equal name (codes "i32")
    || equal name (codes "i64")
    || equal name (codes "u8")
    || equal name (codes "u16")
    || equal name (codes "u32")
    || equal name (codes "u64")

abbrev pub is_float_name : Bytes → Bool
is_float_name name =
    equal name (codes "float") || equal name (codes "f32") || equal name (codes "f64")

-- The loop over the values of an array, where one that is not ok ends it.
abbrev pub and_normalized : Option Value → Option Values → Option Values
and_normalized (some v) (some vs) = some (and_value v vs)
and_normalized _ _ = none

abbrev pub normalize_each : (Value → Option Value) → Values → Option Values
normalize_each f no_values = some no_values
normalize_each f (and_value v vs) = and_normalized (f v) (normalize_each f vs)

-- The copy of a `[]string` into a `[]any`.
abbrev pub texts : List Bytes → Values
texts [] = no_values
texts (s ∷ ss) = and_value (text s) (texts ss)

abbrev pub as_items : Option Values → Option Value
as_items none = none
as_items (some vs) = some (items vs)

module _ (numbers : Numbers) where
  -- `jsonInteger`.
  unfoldable pub json_integer : Value → Option ℤ
  json_integer (integer t k) = some k
  json_integer (single f) = numbers.integer_of (numbers.format_single f)
  json_integer (double f) = numbers.integer_of (numbers.format_double f)
  json_integer (number s) = numbers.integer_of s
  json_integer v = none

  unfoldable pub normalize_json_integer : Value → Bytes → Option Value
  normalize_json_integer v name = converted name (json_integer v)

  -- The float that `normalizeJSONFloat` goes on with.
  unfoldable pub json_float : Value → Option Floating
  json_float (integer t k) = some (numbers.double_of k)
  json_float (single f) = some (numbers.widen f)
  json_float (double f) = some f
  json_float (number s) = numbers.float_of s
  json_float v = none

  unfoldable pub convert_float : Bytes → Option Floating → Option Value
  unfolding equal
  convert_float name none = none
  convert_float name (some f) =
      if is_finite f
      then (if equal name (codes "f32")
          then (if float32_is_invalid numbers (numbers.narrow f)
              then none
              else some (single (numbers.narrow f)))
          else some (double f))
      else none

  unfoldable pub normalize_json_float : Value → Bytes → Option Value
  normalize_json_float v name = convert_float name (json_float v)

  -- The switch over the name of a primitive.
  unfoldable pub normalize_primitive : Value → Bytes → Option Value
  unfolding equal
  normalize_primitive v name =
      if equal name (codes "unknown")
      then some v
      else if equal name (codes "object")
      then kept_if (is_object v) v
      else if equal name (codes "string")
      then kept_if (is_text v) v
      else if equal name (codes "bool")
      then kept_if (is_boolean v) v
      else if is_integer_name name
      then normalize_json_integer v name
      else if is_float_name name
      then normalize_json_float v name
      else none

  abbrev pub kept_if_compatible : Value → Option Value → Option Value
  kept_if_compatible v result = if is_json_compatible numbers v then result else none

  -- `normalizeJSONResult`, by the shape of the target, each case behind its first test.
  unfoldable pub normalize_json_result : Value → Ty → Option Value
  unfolding equal
  normalize_json_result null (nullable t) = some null
  normalize_json_result v (nullable t) = kept_if_compatible v (normalize_json_result v t)
  normalize_json_result null nullable_nil = some null
  normalize_json_result v nullable_nil = none
  normalize_json_result (strings ss) (array t) =
      as_items (normalize_each (λ v. normalize_json_result v t) (texts ss))
  normalize_json_result (items vs) (array t) =
      kept_if_compatible (items vs) (as_items (normalize_each (λ v. normalize_json_result v t) vs))
  normalize_json_result v (array t) = none
  normalize_json_result v array_nil = none
  normalize_json_result null (primitive name) = kept_if (equal name (codes "unknown")) null
  normalize_json_result v (primitive name) = kept_if_compatible v (normalize_primitive v name)
  normalize_json_result v (other kind) = none
