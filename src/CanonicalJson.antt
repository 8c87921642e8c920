-- ===== src/CanonicalJson.antt =====
-- internal/canonicaljson/canonical.go: `appendString`, which returns here what it appends.
pub mod Reader
pub mod RoundTrip
use scrape_kdl.Common.Outcome.{Outcome, ok, err}
use scrape_kdl.Common.Space.{Rune, runes}
use scrape_kdl.Common.Text.{Bytes, codes}
use scrape_kdl.Common.Utf8.{valid, encode_rune}
use scrape_kdl.Common.{
  ℕ, ◌/◌, ◌%◌, Bool, not, ◌||◌, List, [], ◌∷◌, ◌++◌, get_or, ltb, ◌==◌, if◌then◌else◌,
}

-- `hexadecimal[n]`.
unfoldable pub lower_hexadecimal : ℕ → ℕ
lower_hexadecimal n = get_or (codes "0123456789abcdef") n 0

abbrev pub control_escape : ℕ → Bytes
control_escape r = codes "\\u00" ++ lower_hexadecimal (r / 16) ∷ lower_hexadecimal (r % 16) ∷ []

-- The `switch` on a character; `character>>4` and `character&0xf` are the quotient and the rest by 16.
unfoldable pub append_character : ℕ → Bytes
unfolding lower_hexadecimal
append_character r =
    if r == b'"' || r == b'\\'
    then b'\\' ∷ encode_rune r
    else if r == 8
    then codes "\\b"
    else if r == 12
    then codes "\\f"
    else if r == b'\n'
    then codes "\\n"
    else if r == b'\r'
    then codes "\\r"
    else if r == b'\t'
    then codes "\\t"
    else if ltb r 0x20
    then control_escape r
    else encode_rune r

-- The loop over the characters.
unfoldable pub append_characters : List Rune → Bytes
unfolding append_character
append_characters [] = []
append_characters ((r, bs) ∷ rs) = append_character r ++ append_characters rs

unfoldable pub append_string : Bytes → Outcome Bytes Bytes
unfolding append_characters
append_string value =
    if not (valid value)
    then err (codes "canonical JSON string requires valid UTF-8")
    else ok (b'"' ∷ append_characters (runes value) ++ b'"' ∷ [])
