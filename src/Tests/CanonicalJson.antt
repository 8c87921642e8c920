-- ===== src/Tests/CanonicalJson.antt =====
-- Texts that canonical JSON writes as strings.
use scrape_kdl.CanonicalJson.RoundTrip.{IsStringOf, append_string-IsStringOf}
use scrape_kdl.CanonicalJson.{append_string}
use scrape_kdl.Common.Outcome.{ok}
use scrape_kdl.Common.Space.{runes}
use scrape_kdl.Common.Text.{Bytes, codes}
use scrape_kdl.Common.Utf8.{valid, decode2, encode_rune}
use scrape_kdl.Common.{[], ◌∷◌, ◌++◌, ◌≡◌, refl}

-- A quotation mark, a line feed, a control character and `é`.
abbrev awkward : Bytes
awkward = b'"' ∷ b'\n' ∷ 0x1F ∷ 0xC3 ∷ 0xA9 ∷ []

append_string_test :
    append_string awkward ≡ ok (codes "\"\\\"\\n\\u001f" ++ 0xC3 ∷ 0xA9 ∷ b'"' ∷ [])
unfolding append_string valid decode2 runes encode_rune
append_string_test = refl

append_string-IsStringOf_example : IsStringOf awkward (append_string awkward)
append_string-IsStringOf_example = append_string-IsStringOf awkward
