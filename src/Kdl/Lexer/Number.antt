-- ===== src/Kdl/Lexer/Number.antt =====
-- `scanNumber`.
use scrape_kdl.Common.Int.{ℤ}
use scrape_kdl.Common.Text.{Bytes, codes}
use scrape_kdl.Common.{
  ℕ, Bool, true, false, not, ◌&&◌, ◌||◌, [], ◌∷◌, any, length, leb, Option, none, some, ◌==◌,
  if◌then◌else◌,
}
use scrape_kdl.Diagnostic.{plain}
use scrape_kdl.Kdl.Lexer.{
  Lexer, peek, skip, skip_while, slice, make_token, fail, is_digit, is_hex_digit,
}
use scrape_kdl.Kdl.Literal.{parse_int, parse_int_prefixed, parse_float}
use scrape_kdl.Kdl.Token
use scrape_kdl.Kdl.Token.{Token, int_value, float_value}
use scrape_kdl.Source.{Position}

-- `strings.ReplaceAll(s, "_", "")`.
unfoldable pub without_underscores : Bytes → Bytes
without_underscores [] = []
without_underscores (c ∷ s) =
    let rest = without_underscores s in if c == b'_' then rest else c ∷ rest

-- `for valid(l.peekByte(0)) || l.peekByte(0) == '_' { l.advance() }`.
unfoldable pub skip_digits : (ℕ → Bool) → Lexer → Lexer
skip_digits valid l = skip_while (λ m. valid (peek m 0) || peek m 0 == b'_') (length l.rest) l

unfoldable pub skip_sign : Lexer → Lexer
skip_sign l = if peek l 0 == b'+' || peek l 0 == b'-' then skip l else l

unfoldable pub is_octal_digit : ℕ → Bool
is_octal_digit c = leb b'0' c && leb c b'7'

unfoldable pub is_binary_digit : ℕ → Bool
is_binary_digit c = c == b'0' || c == b'1'

unfoldable pub int_token : Bytes → Position → Lexer → Option ℤ → Token × Lexer
int_token raw start l (some v) = make_token Token.int raw (int_value v) start l
int_token raw start l none = fail (plain (codes "invalid integer literal")) raw start l

-- An integer behind the prefix of its base. `begin` is the offset of the sign or the prefix.
unfoldable pub scan_prefixed : (ℕ → Bool) → ℕ → Position → Lexer → Token × Lexer
scan_prefixed valid begin start l =
    let first = skip (skip l) in
    let last = skip_digits valid first in
    let raw = slice last begin in
    if any (λ c. not (c == b'_')) (slice last first.offset)
    then int_token raw start last (parse_int_prefixed 64 (without_underscores raw))
    else fail (plain (codes "integer base prefix must be followed by a digit")) raw start last

unfoldable pub skip_fraction : Lexer → Lexer
skip_fraction l = if peek l 0 == b'.' then skip_digits is_digit (skip l) else l

unfoldable pub is_exponent : Lexer → Bool
is_exponent l = peek l 0 == b'e' || peek l 0 == b'E'

unfoldable pub skip_exponent : Lexer → Lexer
skip_exponent l = if is_exponent l then skip_digits is_digit (skip_sign (skip l)) else l

unfoldable pub decimal_token : Bool → Bytes → Position → Lexer → Token × Lexer
decimal_token true raw start l =
    if parse_float (without_underscores raw)
    then make_token Token.float raw (float_value (without_underscores raw)) start l
    else fail (plain (codes "invalid float literal")) raw start l
decimal_token false raw start l = int_token raw start l (parse_int 10 64 (without_underscores raw))

unfoldable pub scan_decimal : ℕ → Position → Lexer → Token × Lexer
scan_decimal begin start l =
    let whole = skip_digits is_digit l in
    let fraction = skip_fraction whole in
    let last = skip_exponent fraction in
    decimal_token (peek whole 0 == b'.' || is_exponent fraction) (slice last begin) start last

unfoldable pub scan_number : Position → Lexer → Token × Lexer
scan_number start l =
    let body = skip_sign l in
    let prefix = peek body 1 in
    if not (peek body 0 == b'0')
    then scan_decimal l.offset start body
    else if prefix == b'x' || prefix == b'X'
    then scan_prefixed is_hex_digit l.offset start body
    else if prefix == b'o' || prefix == b'O'
    then scan_prefixed is_octal_digit l.offset start body
    else if prefix == b'b' || prefix == b'B'
    then scan_prefixed is_binary_digit l.offset start body
    else scan_decimal l.offset start body
