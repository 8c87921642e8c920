-- ===== src/Kdl/Literal.antt =====
-- The number syntax of Go's `strconv` as the lexer uses it: `ParseInt` with a range check, and the
-- range check of `ParseFloat` on decimal digits.
use scrape_kdl.Common.Int.{ℤ, pos, negsuc}
use scrape_kdl.Common.Text.{Bytes}
use scrape_kdl.Common.{
  ℕ, zero, suc, ◌+◌, ◌-◌, ◌*◌, ◌^◌, Bool, true, false, not, ◌&&◌, ◌||◌, Option, none, some, [], ◌∷◌,
  leb, ltb, ◌==◌, if◌then◌else◌,
}

unfoldable pub digit_value : ℕ → ℕ
digit_value c =
    if leb b'0' c && leb c b'9'
    then c - b'0'
    else if leb b'a' c && leb c b'z'
    then c - b'a' + 10
    else if leb b'A' c && leb c b'Z'
    then c - b'A' + 10
    else 99

-- The digits of a number in `base`, after those read into `acc`.
unfoldable pub read_digits : ℕ → ℕ → Bytes → Option ℕ
unfolding digit_value
read_digits base acc [] = some acc
read_digits base acc (c ∷ s) =
    let rest = read_digits base (acc * base + digit_value c) s in
    if ltb (digit_value c) base then rest else none

-- `strconv.ParseUint` with a base of its own, before the range check; no digits is an error.
unfoldable pub read_magnitude : ℕ → Bytes → Option ℕ
unfolding read_digits
read_magnitude base [] = none
read_magnitude base (c ∷ s) = read_digits base 0 (c ∷ s)

-- Base 0 of `strconv.ParseUint`: the prefix names the base.
unfoldable pub read_prefixed : Bytes → Option ℕ
unfolding read_magnitude
read_prefixed (z ∷ c ∷ d ∷ s) =
    if z == b'0' && (c == b'x' || c == b'X')
    then read_magnitude 16 (d ∷ s)
    else if z == b'0' && (c == b'o' || c == b'O')
    then read_magnitude 8 (d ∷ s)
    else if z == b'0' && (c == b'b' || c == b'B')
    then read_magnitude 2 (d ∷ s)
    else if z == b'0'
    then read_magnitude 8 (c ∷ d ∷ s)
    else read_magnitude 10 (z ∷ c ∷ d ∷ s)
read_prefixed (z ∷ c ∷ []) =
    if z == b'0' then read_magnitude 8 (c ∷ []) else read_magnitude 10 (z ∷ c ∷ [])
read_prefixed s = read_magnitude 10 s

-- The range check of `ParseInt` for `bits` bits in two's complement.
unfoldable pub signed : ℕ → Bool → Option ℕ → Option ℤ
signed bits minus none = none
signed bits false (some n) = if ltb n (2 ^ (bits - 1)) then some (pos n) else none
signed bits true (some zero) = some (pos 0)
signed bits true (some (suc n)) = if leb (suc n) (2 ^ (bits - 1)) then some (negsuc n) else none

-- `strconv.ParseInt`, with the way to read the digits behind the sign.
unfoldable pub parse_signed : (Bytes → Option ℕ) → ℕ → Bytes → Option ℤ
unfolding signed
parse_signed read bits [] = none
parse_signed read bits (c ∷ s) =
    if c == b'-'
    then signed bits true (read s)
    else if c == b'+'
    then signed bits false (read s)
    else signed bits false (read (c ∷ s))

abbrev pub parse_int : ℕ → ℕ → Bytes → Option ℤ
parse_int base = parse_signed (read_magnitude base)

abbrev pub parse_int_prefixed : ℕ → Bytes → Option ℤ
parse_int_prefixed = parse_signed read_prefixed

abbrev pub is_digit : ℕ → Bool
is_digit c = leb b'0' c && leb c b'9'

-- The mantissa of a decimal float: its digits as a number, how many there are, how many of them
-- stand behind the point, and the text that is left.
pub record Mantissa : Type 0 where
  pub digits : ℕ
  pub size : ℕ
  pub fraction : ℕ
  pub left : Bytes

unfoldable pub read_mantissa : Bool → Mantissa → Bytes → Mantissa
read_mantissa dotted m [] = record m { left = [] }
read_mantissa dotted m (c ∷ s) =
    let dot = read_mantissa true m s in
    let more =
      read_mantissa dotted
        (record m {
          digits = m.digits * 10 + (c - b'0');
          size = m.size + 1;
          fraction = if dotted then m.fraction + 1 else m.fraction;
        })
        s in
    if is_digit c then more else if c == b'.' && not dotted then dot else record m { left = c ∷ s }

-- The exponent stops growing at five digits, as in Go.
unfoldable pub read_exponent : ℕ → Bytes → Option ℕ
read_exponent e [] = some e
read_exponent e (c ∷ s) =
    let rest = read_exponent (if ltb e 10000 then e * 10 + (c - b'0') else e) s in
    if is_digit c then rest else none

unfoldable pub read_exponent_digits : Bytes → Option ℕ
unfolding read_exponent
read_exponent_digits [] = none
read_exponent_digits (c ∷ s) = read_exponent 0 (c ∷ s)

-- From this value on `float64` rounds to infinity, which `ParseFloat` reports as an error.
abbrev overflow : ℕ
overflow = (2 ^ 54 - 1) * 2 ^ 970

abbrev finite : Mantissa → ℕ → ℕ → Bool
finite m up down =
    ltb (m.digits * 10 ^ (up - (m.fraction + down))) (overflow * 10 ^ (m.fraction + down - up))

unfoldable finite_with : Mantissa → Bool → Option ℕ → Bool
finite_with m minus none = false
finite_with m false (some e) = finite m e 0
finite_with m true (some e) = finite m 0 e

unfoldable float_tail : Mantissa → Bytes → Bool
unfolding finite_with read_exponent_digits
float_tail m [] = finite m 0 0
float_tail m (c ∷ []) = false
float_tail m (c ∷ d ∷ s) =
    if not (c == b'e' || c == b'E')
    then false
    else if d == b'-'
    then finite_with m true (read_exponent_digits s)
    else if d == b'+'
    then finite_with m false (read_exponent_digits s)
    else finite_with m false (read_exponent_digits (d ∷ s))

abbrev no_mantissa : Mantissa
no_mantissa = record { digits = 0; size = 0; fraction = 0; left = [] }

unfoldable unsigned_float : Bytes → Bool
unfolding float_tail read_mantissa
unsigned_float s =
    let m = read_mantissa false no_mantissa s in if m.size == 0 then false else float_tail m m.left

-- Whether `strconv.ParseFloat(s, 64)` succeeds on a text of decimal digits with a sign, a point
-- and an exponent, all that the lexer hands it.
unfoldable pub parse_float : Bytes → Bool
unfolding unsigned_float
parse_float [] = false
parse_float (c ∷ s) = if c == b'+' || c == b'-' then unsigned_float s else unsigned_float (c ∷ s)
