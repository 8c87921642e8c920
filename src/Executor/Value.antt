-- ===== src/Executor/Value.antt =====
-- internal/executor/executor.go: the values that the executor passes on, and the tests on them.
use scrape_kdl.Common.Int.{ℤ}
use scrape_kdl.Common.Text.{Bytes, codes, equal}
use scrape_kdl.Common.{
  ℕ, Bool, true, false, not, ◌&&◌, ◌||◌, List, Option, none, some, all, if◌then◌else◌,
}
use scrape_kdl.Typesys.{Ty, primitive, array, nullable, array_nil, nullable_nil, other}

-- Go's types of integers; `int` has 64 bits.
pub data IntType : Type 0 where
  int int8 int16 int32 int64 uint uint8 uint16 uint32 uint64 : IntType

-- A float by its bits, split by what `math.IsNaN` and `math.IsInf` ask.
pub data Floating : Type 0 where
  finite : (bits : ℕ) → Floating
  infinite nan : Floating

-- The dynamic types behind `any` that the executor asks for: `number` is `json.Number`, `strings`
-- is `[]string`, `items` is `[]any`, `object` is `map[string]any`, `foreign` any other type.
mutual
  pub data Value : Type 0 where
    null : Value
    text : Bytes → Value
    boolean : Bool → Value
    integer : IntType → ℤ → Value
    single double : Floating → Value
    number : Bytes → Value
    strings : List Bytes → Value
    items : Values → Value
    object : Members → Value
    foreign : Value

  pub data Values : Type 0 where
    no_values : Values
    and_value : Value → Values → Values

  pub data Members : Type 0 where
    no_members : Members
    and_member : (name : Bytes) → Value → Members → Members

-- What the code asks of Go's packages for numbers: whether `json.Marshal` takes a `json.Number`,
-- `Number.Float64`, the integer that `big.Rat.SetString` reads if it reads one, `FormatFloat`, and
-- the conversions of an integer and between the two types of floats.
pub record Numbers : Type 0 where
  pub marshals : Bytes → Bool
  pub float_of : Bytes → Option Floating
  pub integer_of : Bytes → Option ℤ
  pub format_single : Floating → Bytes
  pub format_double : Floating → Bytes
  pub double_of : ℤ → Floating
  pub widen : Floating → Floating
  pub narrow : Floating → Floating

abbrev pub is_finite : Floating → Bool
is_finite (finite bits) = true
is_finite _ = false

abbrev pub is_finite_some : Option Floating → Bool
is_finite_some none = false
is_finite_some (some f) = is_finite f

abbrev pub is_null : Value → Bool
is_null null = true
is_null _ = false

abbrev pub all_values : (Value → Bool) → Values → Bool
all_values p no_values = true
all_values p (and_value v vs) = p v && all_values p vs

abbrev pub is_object : Value → Bool
is_object (object ms) = true
is_object _ = false

abbrev pub is_text : Value → Bool
is_text (text s) = true
is_text _ = false

abbrev pub is_boolean : Value → Bool
is_boolean (boolean b) = true
is_boolean _ = false

abbrev pub same_type : IntType → IntType → Bool
same_type int int = true
same_type int8 int8 = true
same_type int16 int16 = true
same_type int32 int32 = true
same_type int64 int64 = true
same_type uint uint = true
same_type uint8 uint8 = true
same_type uint16 uint16 = true
same_type uint32 uint32 = true
same_type uint64 uint64 = true
same_type _ _ = false

abbrev pub has_int_type : IntType → Value → Bool
has_int_type t (integer u k) = same_type t u
has_int_type t _ = false

abbrev pub is_valid_double : Value → Bool
is_valid_double (double f) = is_finite f
is_valid_double _ = false

module _ (numbers : Numbers) where
  unfoldable pub float32_is_invalid : Floating → Bool
  float32_is_invalid f = not (is_finite (numbers.widen f))

  -- `isJSONCompatible`.
  unfoldable mutual
    pub is_json_compatible : Value → Bool
    is_json_compatible null = true
    is_json_compatible (text s) = true
    is_json_compatible (boolean b) = true
    is_json_compatible (integer t k) = true
    is_json_compatible (single f) = not (float32_is_invalid f)
    is_json_compatible (double f) = is_finite f
    is_json_compatible (number s) = numbers.marshals s && is_finite_some (numbers.float_of s)
    is_json_compatible (strings ss) = true
    is_json_compatible (items vs) = are_json_compatible vs
    is_json_compatible (object ms) = members_json_compatible ms
    is_json_compatible foreign = false

    pub are_json_compatible : Values → Bool
    are_json_compatible no_values = true
    are_json_compatible (and_value v vs) = is_json_compatible v && are_json_compatible vs

    pub members_json_compatible : Members → Bool
    members_json_compatible no_members = true
    members_json_compatible (and_member name v ms) =
        is_json_compatible v && members_json_compatible ms

  abbrev pub is_valid_single : Value → Bool
  is_valid_single (single f) = not (float32_is_invalid f)
  is_valid_single _ = false

  -- The switch over the name of a primitive.
  unfoldable pub matches_primitive : Value → Bytes → Bool
  unfolding equal
  matches_primitive v name =
      if equal name (codes "unknown")
      then is_json_compatible v
      else if equal name (codes "object")
      then is_object v
      else if equal name (codes "string")
      then is_text v
      else if equal name (codes "bool")
      then is_boolean v
      else if equal name (codes "int") || equal name (codes "i64")
      then has_int_type int64 v
      else if equal name (codes "i8")
      then has_int_type int8 v
      else if equal name (codes "i16")
      then has_int_type int16 v
      else if equal name (codes "i32")
      then has_int_type int32 v
      else if equal name (codes "u8")
      then has_int_type uint8 v
      else if equal name (codes "u16")
      then has_int_type uint16 v
      else if equal name (codes "u32")
      then has_int_type uint32 v
      else if equal name (codes "u64")
      then has_int_type uint64 v
      else if equal name (codes "float") || equal name (codes "f64")
      then is_valid_double v
      else if equal name (codes "f32")
      then is_valid_single v
      else false

  -- `matchesRuntimeType`, by the shape of the target.
  unfoldable pub matches_runtime_type : Value → Ty → Bool
  unfolding equal
  matches_runtime_type v (nullable t) = is_null v || matches_runtime_type v t
  matches_runtime_type v nullable_nil = is_null v
  matches_runtime_type (strings ss) (array t) = all (λ s. matches_runtime_type (text s) t) ss
  matches_runtime_type (items vs) (array t) = all_values (λ v. matches_runtime_type v t) vs
  matches_runtime_type _ (array t) = false
  matches_runtime_type v array_nil = false
  matches_runtime_type null (primitive name) = equal name (codes "unknown")
  matches_runtime_type v (primitive name) = matches_primitive v name
  matches_runtime_type v (other kind) = false
