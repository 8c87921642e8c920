-- ===== src/Dom/Parser/Attribute.antt =====
-- `parseAttribute` and `parseAttributeValue`.
use scrape_kdl.Common.Outcome.{ok, ◌>>=◌}
use scrape_kdl.Common.Space.{is_space}
use scrape_kdl.Common.Text.{Bytes, codes, has_prefix}
use scrape_kdl.Common.{
  ℕ, ◌+◌, Bool, not, ◌&&◌, ◌||◌, List, [], ◌∷◌, drop, length, ◌==◌, if◌then◌else◌,
}
use scrape_kdl.Diagnostic.{plain, formatted}
use scrape_kdl.Dom.Parser.Cursor.{
  Cursor, Parsing, fail_with, at_end, next_is, step, skip_whitespace, moved, read_while,
  parse_identifier, with_byte,
}
use scrape_kdl.Dom.Selector.{AttributeSelector}
use scrape_kdl.Dom.{to_lower}

-- A quoted value, from behind its quote on: a backslash keeps the byte behind it.
unfoldable pub quoted_value : ℕ → ℕ → Bytes → Parsing Bytes
quoted_value quote i [] =
    fail_with (record { i = i; rest = [] }) (plain (codes "unterminated quoted attribute value"))
quoted_value quote i (b ∷ []) =
    if b == quote
    then ok ([], record { i = i + 1; rest = [] })
    else if b == b'\\'
    then fail_with (record { i = i + 1; rest = [] }) (plain (codes "unterminated escape"))
    else fail_with (record { i = i + 1; rest = [] })
        (plain (codes "unterminated quoted attribute value"))
quoted_value quote i (b ∷ d ∷ s) =
    let escaped = with_byte d (quoted_value quote (i + 2) s) in
    let other = with_byte b (quoted_value quote (i + 1) (d ∷ s)) in
    if b == quote
    then ok ([], record { i = i + 1; rest = d ∷ s })
    else if b == b'\\'
    then escaped
    else other

abbrev pub is_value_byte : ℕ → Bool
is_value_byte b = not (is_space b) && not (b == b']')

abbrev pub some_value : Cursor → Bytes × Cursor → Parsing Bytes
some_value start ([], c) = fail_with start (plain (codes "missing attribute value"))
some_value start (b ∷ text, c) = ok (b ∷ text, c)

-- `parseAttributeValue`, on the text at the cursor.
unfoldable pub value_at : ℕ → Bytes → Parsing Bytes
unfolding quoted_value read_while
value_at i [] = fail_with (record { i = i; rest = [] }) (plain (codes "missing attribute value"))
value_at i (b ∷ s) =
    if b == b'\'' || b == b'"'
    then quoted_value b (i + 1) s
    else some_value (record { i = i; rest = b ∷ s }) (read_while is_value_byte i (b ∷ s))

unfoldable pub parse_attribute_value : Cursor → Parsing Bytes
parse_attribute_value c = value_at c.i c.rest

-- The operators in the order in which they are tried.
abbrev pub operators : List Bytes
operators = codes "~=" ∷ codes "|=" ∷ codes "^=" ∷ codes "$=" ∷ codes "*=" ∷ codes "=" ∷ []

unfoldable pub find_operator : List Bytes → Bytes → Bytes
find_operator [] s = []
find_operator (o ∷ os) s = let rest = find_operator os s in if has_prefix s o then o else rest

abbrev pub is_flag : Cursor → Bool
is_flag c = next_is b'i' c || next_is b'I' c || next_is b's' c || next_is b'S' c

abbrev flag_byte : Bytes → Bytes
flag_byte [] = []
flag_byte (b ∷ s) = b ∷ []

-- What stands behind the value: a flag, which is refused, and the closing bracket.
unfoldable pub close_attribute : AttributeSelector → Cursor → Parsing AttributeSelector
close_attribute a c =
    if next_is b']' c
    then ok (a, step c)
    else fail_with c (plain (codes "unterminated attribute selector"))

unfoldable pub close_value : AttributeSelector → Cursor → Parsing AttributeSelector
close_value a behind =
    let c = skip_whitespace behind in
    let d = skip_whitespace (step c) in
    if moved behind c && is_flag c
    then (if next_is b']' d
        then fail_with d (
            formatted (codes "attribute selector case-sensitivity flag %q is unsupported")
              (flag_byte c.rest ∷ []))
        else close_attribute a d)
    else close_attribute a c

-- The operator and the value; `c` stands behind the name and white space.
unfoldable pub operator_and_value : Bytes → Cursor → Parsing AttributeSelector
operator_and_value name c =
    let op = find_operator operators c.rest in
    let behind : Cursor = record { i = c.i + length op; rest = drop (length op) c.rest } in
    if length op == 0 then fail_with c (plain (codes "invalid attribute operator")) else do
      (text, d) ← parse_attribute_value (skip_whitespace behind)
      close_value (record { name = name; operator = op; value = text }) d

-- What follows the name of an attribute.
unfoldable pub after_name : Bytes → Cursor → Parsing AttributeSelector
after_name name c =
    if at_end c
    then fail_with c (plain (codes "unterminated attribute selector"))
    else if next_is b']' c
    then ok (record { name = name; operator = []; value = [] }, step c)
    else operator_and_value name c

-- `parseAttribute`, at the opening bracket.
unfoldable pub parse_attribute : Cursor → Parsing AttributeSelector
parse_attribute c = do
  (name, d) ← parse_identifier (skip_whitespace (step c))
  after_name (to_lower name) (skip_whitespace d)
