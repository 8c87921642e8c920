-- ===== src/Dom/Parser/Nth.antt =====
-- `parseNth`. `strings.ToLower` is written out for ASCII: no letter that it makes from others
-- stands in a text that is accepted.
use scrape_kdl.Common.Int.{ℤ, pos, negsuc}
use scrape_kdl.Common.Outcome.{Outcome, ok, err, ◌>>=◌}
use scrape_kdl.Common.Space.{trim_space}
use scrape_kdl.Common.Text.{Bytes, codes, equal}
use scrape_kdl.Common.{◌||◌, List, [], ◌∷◌, Option, none, some, ◌==◌, if◌then◌else◌}
use scrape_kdl.Dom.Parser.Cursor.{NthError, not_a_number, invalid_form}
use scrape_kdl.Dom.Selector.{NthExpression}
use scrape_kdl.Dom.{to_lower}
use scrape_kdl.Kdl.Literal.{parse_signed, read_magnitude}

-- `strings.ReplaceAll(s, " ", "")`.
unfoldable pub without_blanks : Bytes → Bytes
without_blanks [] = []
without_blanks (b ∷ s) = let rest = without_blanks s in if b == b' ' then rest else b ∷ rest

abbrev parsed : Bytes → Option ℤ → Outcome NthError ℤ
parsed s none = err (not_a_number s)
parsed s (some v) = ok v

-- `strconv.Atoi`.
unfoldable pub atoi : Bytes → Outcome NthError ℤ
atoi s = parsed s (parse_signed (read_magnitude 10) 64 s)

-- `strings.Split(s, "n")`: the text in front of the first `n`, and the parts behind it.
unfoldable pub split_n : Bytes → Bytes × List Bytes
split_n [] = ([], [])
split_n (b ∷ s) =
    let (part, parts) = split_n s in if b == b'n' then ([], part ∷ parts) else (b ∷ part, parts)

unfoldable pub coefficient : Bytes → Outcome NthError ℤ
coefficient s =
    if equal s [] || equal s (codes "+")
    then ok (pos 1)
    else if equal s (codes "-")
    then ok (negsuc 0)
    else atoi s

unfoldable pub constant : Bytes → Outcome NthError ℤ
constant s = if equal s [] then ok (pos 0) else atoi s

-- The parts of `An+B`.
unfoldable pub nth_parts : Bytes × List Bytes → Outcome NthError NthExpression
nth_parts (whole, []) = do b ← atoi whole; ok (record { a = pos 0; b = b })
nth_parts (first, second ∷ []) = do
  a ← coefficient first
  b ← constant second
  ok (record { a = a; b = b })
nth_parts (first, second ∷ third ∷ rest) = err invalid_form

unfoldable pub parse_nth : Bytes → Outcome NthError NthExpression
parse_nth input =
    let value = to_lower (without_blanks (trim_space input)) in
    if equal value (codes "odd")
    then ok (record { a = pos 2; b = pos 1 })
    else if equal value (codes "even")
    then ok (record { a = pos 2; b = pos 0 })
    else nth_parts (split_n value)
