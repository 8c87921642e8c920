-- ===== src/Dom/Parser/Pseudo.antt =====
-- `parsePseudo`. The parser of the argument of `:not` is `nested`.
use scrape_kdl.Common.Outcome.{Outcome, ok, err, ◌>>=◌}
use scrape_kdl.Common.Space.{trim_space}
use scrape_kdl.Common.Text.{Bytes, codes, equal}
use scrape_kdl.Common.{
  ℕ, ◌+◌, ◌-◌, Bool, ◌||◌, List, [], ◌∷◌, Option, none, some, any, ◌==◌, if◌then◌else◌,
}
use scrape_kdl.Diagnostic.{plain, formatted}
use scrape_kdl.Dom.Parser.Cursor.{
  Cursor, failed, invalid_nth, invalid_not, NthError, Parsing, fail_with, at_end, next_is, step,
  skip_whitespace, parse_identifier, with_byte,
}
use scrape_kdl.Dom.Parser.Nth.{parse_nth}
use scrape_kdl.Dom.Selector.{CompoundSelector, Negation, absent, negation, NthExpression}
use scrape_kdl.Dom.{to_lower}

-- `PseudoSelector`.
pub record PseudoSelector : Type 0 where
  pub name : Bytes
  pub nth : Option NthExpression
  pub negated : Negation

-- The local `quote` of the loop over the argument; `escaped` is a quote in which the byte behind
-- a backslash is still to be passed.
pub data Mode : Type 0 where
  outside : Mode
  inside : (quote : ℕ) → Mode
  escaped : (quote : ℕ) → Mode

abbrev unterminated : ℕ → Parsing Bytes
unterminated i = fail_with (record { i = i; rest = [] }) (plain (codes "unterminated pseudo-class"))

abbrev pub next_mode : ℕ → Mode
next_mode b = if b == b'\'' || b == b'"' then inside b else outside

abbrev pub next_depth : ℕ → ℕ → ℕ
next_depth b depth = if b == b'(' then depth + 1 else if b == b')' then depth - 1 else depth

-- The loop, from the byte behind the opening parenthesis to the closing one, which the text in
-- between stops at.
unfoldable pub scan_argument : Mode → (depth i : ℕ) → Bytes → Parsing Bytes
scan_argument (escaped q) depth i [] = unterminated (i + 1)
scan_argument _ depth i [] = unterminated i
scan_argument (escaped q) depth i (b ∷ s) = with_byte b (scan_argument (inside q) depth (i + 1) s)
scan_argument (inside q) depth i (b ∷ s) =
    let mode : Mode = if b == b'\\' then escaped q else if b == q then outside else inside q in
    with_byte b (scan_argument mode depth (i + 1) s)
scan_argument outside depth i (b ∷ s) =
    let next = with_byte b (scan_argument (next_mode b) (next_depth b depth) (i + 1) s) in
    if next_depth b depth == 0 then ok ([], record { i = i; rest = b ∷ s }) else next

abbrev simple_names : List Bytes
simple_names =
    codes "first-child"
    ∷ codes "last-child"
    ∷ codes "only-child"
    ∷ codes "empty"
    ∷ codes "first-of-type"
    ∷ codes "last-of-type"
    ∷ codes "only-of-type"
    ∷ []

abbrev nth_names : List Bytes
nth_names =
    codes "nth-child" ∷ codes "nth-last-child" ∷ codes "nth-of-type" ∷ codes "nth-last-of-type" ∷ []

unfoldable pub is_simple : Bytes → Bool
is_simple name = any (equal name) simple_names

unfoldable pub is_nth : Bytes → Bool
is_nth name = any (equal name) nth_names

abbrev unsupported : Bytes → Cursor → Parsing PseudoSelector
unsupported name c = fail_with c (formatted (codes "unsupported pseudo-class %q") (name ∷ []))

-- The case of the four counting classes.
unfoldable pub nth_argument :
    Bytes → Cursor → Outcome NthError NthExpression → Parsing PseudoSelector
nth_argument name c (ok e) = ok (record { name = name; nth = some e; negated = absent }, c)
nth_argument name c (err e) = err (failed c.i (invalid_nth name e))

-- The case of `:not`.
unfoldable pub not_argument : Bytes → Cursor → Parsing CompoundSelector → Parsing PseudoSelector
not_argument name c (err e) = err (failed c.i (invalid_not e))
not_argument name c (ok (s, d)) =
    if at_end (skip_whitespace d)
    then ok (record { name = name; nth = none; negated = negation s }, c)
    else fail_with c (plain (codes ":not only accepts a compound selector"))

-- The switch over the name; `c` stands behind the closing parenthesis.
unfoldable pub apply_argument :
    (Bytes → Parsing CompoundSelector) → Bytes → Bytes → Cursor → Parsing PseudoSelector
apply_argument nested name argument c =
    let negated = nested argument in
    if is_nth name
    then nth_argument name c (parse_nth argument)
    else if equal name (codes "not")
    then not_argument name c negated
    else unsupported name c

-- What follows the name of a pseudo-class.
unfoldable pub after_pseudo_name :
    (Bytes → Parsing CompoundSelector) → Bytes → Cursor → Parsing PseudoSelector
after_pseudo_name nested name c =
    if is_simple name
    then ok (record { name = name; nth = none; negated = absent }, c)
    else if next_is b'(' c
    then (scan_argument outside 1 (step c).i (step c).rest >>= λ (text, d).
        apply_argument nested name (trim_space text) (step d))
    else unsupported name c

-- `parsePseudo`, at the colon.
unfoldable pub parse_pseudo : (Bytes → Parsing CompoundSelector) → Cursor → Parsing PseudoSelector
parse_pseudo nested c =
    if next_is b':' (step c)
    then fail_with (step c) (plain (codes "pseudo-elements are unsupported"))
    else do (name, d) ← parse_identifier (step c); after_pseudo_name nested (to_lower name) d
