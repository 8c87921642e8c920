-- ===== src/Executor/Template.antt =====
-- internal/executor/template.go: `percentEncode`.
use scrape_kdl.Common.Text.{Bytes, codes}
use scrape_kdl.Common.{
  ℕ, ◌/◌, ◌%◌, Bool, ◌&&◌, ◌||◌, [], ◌∷◌, ◌++◌, get_or, leb, ◌==◌, if◌then◌else◌,
}

unfoldable pub is_unreserved : ℕ → Bool
is_unreserved b =
    leb b'a' b && leb b b'z'
    || leb b'A' b && leb b b'Z'
    || leb b'0' b && leb b b'9'
    || b == b'-'
    || b == b'.'
    || b == b'_'
    || b == b'~'

-- `hexadecimal[n]`.
unfoldable pub hexadecimal : ℕ → ℕ
hexadecimal n = get_or (codes "0123456789ABCDEF") n 0

-- The body of the loop of `percentEncode`; `b>>4` and `b&15` are the quotient and the rest by 16.
unfoldable pub encode_byte : ℕ → Bytes
unfolding is_unreserved hexadecimal
encode_byte b =
    if is_unreserved b then b ∷ [] else b'%' ∷ hexadecimal (b / 16) ∷ hexadecimal (b % 16) ∷ []

unfoldable pub percent_encode : Bytes → Bytes
unfolding encode_byte
percent_encode [] = []
percent_encode (b ∷ s) = encode_byte b ++ percent_encode s
