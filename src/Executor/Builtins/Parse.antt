-- ===== src/Executor/Builtins/Parse.antt =====
-- internal/executor/builtins.go: the built-ins that read and write numbers and truth values.
use scrape_kdl.Common.Int.{ℤ, pos, negsuc}
use scrape_kdl.Common.Outcome.{ok, ◌>>=◌, ◌>>◌, check}
use scrape_kdl.Common.Space.{trim_space}
use scrape_kdl.Common.Strings.{contains}
use scrape_kdl.Common.Text.{Bytes, codes, equal, has_prefix}
use scrape_kdl.Common.{
  ℕ, zero, suc, ◌+◌, ◌/◌, ◌%◌, ◌^◌, Bool, true, false, not, ◌&&◌, ◌||◌, List, [], ◌∷◌, Option, none,
  some, ltb, leb, ◌==◌, if◌then◌else◌,
}
use scrape_kdl.Dom.{to_lower}
use scrape_kdl.Executor.Builtins.Arguments.{
  Result, fails, require_string, required_string, optional_int, optional_bool, optional_string,
}
use scrape_kdl.Executor.Builtins.Library.{Library}
use scrape_kdl.Executor.Calls.{TransformRuntime}
use scrape_kdl.Executor.Output.Recovery.{other_error}
use scrape_kdl.Executor.Value.{
  IntType, int8, int16, int32, int64, uint8, uint16, uint32, uint64, Floating, Value, text, boolean,
  integer, single, double, Numbers, is_finite, float32_is_invalid,
}
use scrape_kdl.Ir.{NamedArgument}
use scrape_kdl.Kdl.Literal.{read_magnitude, read_prefixed, parse_signed}

-- `strconv.ParseUint` without the check of the range: base 0 reads a prefix, the other bases are 2
-- to 36.
unfoldable pub read_radix : ℤ → Bytes → Option ℕ
unfolding read_magnitude read_prefixed
read_radix (negsuc n) s = none
read_radix (pos zero) s = read_prefixed s
read_radix (pos (suc n)) s = if leb 1 n && leb n 35 then read_magnitude (suc n) s else none

-- The two maps of bits, with the type that the switches behind them convert to.
abbrev pub IntSize : Type 0
IntSize = Option (ℕ × IntType)

unfoldable pub signed_bits : Bytes → IntSize
unfolding equal
signed_bits name =
    if equal name (codes "int") || equal name (codes "i64")
    then some (64, int64)
    else if equal name (codes "i8")
    then some (8, int8)
    else if equal name (codes "i16")
    then some (16, int16)
    else if equal name (codes "i32")
    then some (32, int32)
    else none

unfoldable pub unsigned_bits : Bytes → IntSize
unfolding equal
unsigned_bits name =
    if equal name (codes "u8")
    then some (8, uint8)
    else if equal name (codes "u16")
    then some (16, uint16)
    else if equal name (codes "u32")
    then some (32, uint32)
    else if equal name (codes "u64")
    then some (64, uint64)
    else none

-- `strconv.ParseUint`.
abbrev pub in_bits : ℕ → Option ℕ → Option ℤ
in_bits bits none = none
in_bits bits (some n) = if ltb n (2 ^ bits) then some (pos n) else none

-- `strings.TrimPrefix value "+"`.
abbrev pub without_plus : Bytes → Bytes
without_plus [] = []
without_plus (c ∷ s) = if c == b'+' then s else c ∷ s

abbrev pub as_integer : IntType → Option ℤ → Result Value
as_integer t none = fails (codes "parse %s: %w")
as_integer t (some k) = ok (integer t k)

abbrev pub parse_unsigned : Bytes → ℤ → IntSize → Result Value
parse_unsigned value radix none = fails (codes "unsupported integer target %q")
parse_unsigned value radix (some (bits, t)) =
    if has_prefix value (codes "-")
    then fails (codes "unsigned integer rejects negative input")
    else as_integer t (in_bits bits (read_radix radix (without_plus value)))

abbrev pub parse_sized : Bytes → ℤ → Bytes → IntSize → Result Value
parse_sized value radix name none = parse_unsigned value radix (unsigned_bits name)
parse_sized value radix name (some (bits, t)) =
    as_integer t (parse_signed (read_radix radix) bits value)

-- `builtinParseInt` behind the arguments. The conversion to the type of the target changes nothing
-- on the numbers that the bits allow.
unfoldable pub parse_integer : Bytes → (name : Bytes) → (radix : ℤ) → Result Value
unfolding read_radix signed_bits unsigned_bits contains equal has_prefix parse_signed
parse_integer value name radix =
    if contains value (codes "_") || equal value []
    then fails (codes "invalid integer %q")
    else parse_sized value radix name (signed_bits name)

-- `strings.EqualFold value "nan"`: no other letters than these fold to `n` or `a`.
unfoldable pub is_refused_float : Library → Bytes → Bool
unfolding equal contains trim_space to_lower
is_refused_float library value =
    equal (to_lower value) (codes "nan")
    || contains (library.to_lower value) (codes "inf")
    || contains (library.to_lower value) (codes "0x")
    || not (equal (trim_space value) value)

unfoldable pub float_bits : Bytes → Option ℕ
unfolding equal
float_bits name =
    if equal name (codes "f32")
    then some 32
    else if equal name (codes "float") || equal name (codes "f64")
    then some 64
    else none

-- `strconv.FormatUint` in base 10; a number has fewer digits than its value plus one.
unfoldable pub digits_fuel : ℕ → ℕ → Bytes → Bytes
digits_fuel zero n behind = behind
digits_fuel (suc f) n behind =
    let shown = (b'0' + n % 10) ∷ behind in
    let rest = digits_fuel f (n / 10) shown in if ltb n 10 then shown else rest

unfoldable pub format_natural : ℕ → Bytes
unfolding digits_fuel
format_natural n = digits_fuel (suc n) n []

-- `strconv.FormatInt`.
unfoldable pub format_int : ℤ → Bytes
unfolding format_natural
format_int (pos n) = format_natural n
format_int (negsuc n) = b'-' ∷ format_natural (suc n)

abbrev pub format_bool : Bool → Bytes
format_bool b = if b then codes "true" else codes "false"

unfoldable pub builtin_to_string : Numbers → Value → Result Value
unfolding format_int float32_is_invalid
builtin_to_string numbers (text s) = ok (text s)
builtin_to_string numbers (boolean b) = ok (text (format_bool b))
builtin_to_string numbers (integer t k) = ok (text (format_int k))
builtin_to_string numbers (single f) =
    if float32_is_invalid numbers f
    then fails (codes "float must be finite")
    else ok (text (numbers.format_single f))
builtin_to_string numbers (double f) =
    if not (is_finite f)
    then fails (codes "float must be finite")
    else ok (text (numbers.format_double f))
builtin_to_string numbers v = fails (codes "cannot convert %T to string")

unfoldable pub read_bool : Bytes → (true_value false_value : Bytes) → Result Value
unfolding equal
read_bool value true_value false_value =
    if equal value true_value
    then ok (boolean true)
    else if equal value false_value
    then ok (boolean false)
    else fails (codes "%q is neither configured true nor false value")

module _ (runtime : TransformRuntime) (library : Library) where
  abbrev pub finite_float : ℕ → Option Floating → Result Value
  finite_float bits none = fails (codes "parse %s: %w")
  finite_float bits (some f) =
      if not (is_finite f)
      then fails (codes "parse %s: %w")
      else ok (if bits == 32 then single (runtime.numbers.narrow f) else double f)

  abbrev pub parse_float_bits : Bytes → Option ℕ → Result Value
  parse_float_bits value none = fails (codes "unsupported float target %q")
  parse_float_bits value (some bits) = finite_float bits (library.parse_float bits value)

module _ (runtime : TransformRuntime) (library : Library) (arguments : List NamedArgument) where
  unfoldable pub builtin_parse_int : Value → Result Value
  unfolding require_string required_string optional_int parse_integer
  builtin_parse_int input = do
    value ← require_string input
    name ← required_string runtime library arguments (codes "as")
    radix ← optional_int runtime library arguments (codes "radix") (pos 10)
    parse_integer value name radix

  unfoldable pub builtin_parse_float : Value → Result Value
  unfolding require_string required_string is_refused_float float_bits
  builtin_parse_float input = do
    value ← require_string input
    name ← required_string runtime library arguments (codes "as")
    check (not (is_refused_float library value))
        (other_error (codes "invalid finite decimal float %q"))
    parse_float_bits runtime library value (float_bits name)

  unfoldable pub builtin_parse_bool : Value → Result Value
  unfolding require_string optional_bool optional_string read_bool
  builtin_parse_bool input = do
    value ← require_string input
    case_sensitive ← optional_bool runtime library arguments (codes "case-sensitive") false
    true_value ← optional_string runtime library arguments (codes "true") (codes "true")
    false_value ← optional_string runtime library arguments (codes "false") (codes "false")
    let fold = λ (s : Bytes). if case_sensitive then s else library.to_lower s
    read_bool (fold value) (fold true_value) (fold false_value)
