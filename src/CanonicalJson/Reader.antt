-- ===== src/CanonicalJson/Reader.antt =====
-- Reading a string of JSON, as RFC 8259 says.
use scrape_kdl.Common.Text.{Bytes}
use scrape_kdl.Common.Utf8.{encode_rune}
use scrape_kdl.Common.{
  ℕ, zero, suc, ◌+◌, ◌*◌, ◌||◌, [], ◌∷◌, ◌++◌, Option, none, some, ltb, ◌==◌, if◌then◌else◌,
}
use scrape_kdl.Kdl.Literal.{digit_value}

-- Where a reader of a string of RFC 8259, section 7, stands: among its characters, behind a
-- backslash, or within the four digits of `\u`, with those that are left and the value so far.
-- Two escapes of surrogates are not read as a pair.
pub data Mode : Type 0 where
  among_characters escaped : Mode
  digits : (left value : ℕ) → Mode

abbrev pub push : Bytes → Option Bytes → Option Bytes
push bs none = none
push bs (some s) = some (bs ++ s)

-- The character that an escape of one character stands for.
abbrev pub short_escape : ℕ → Option ℕ
short_escape c =
    if c == b'"' || c == b'\\' || c == b'/'
    then some c
    else if c == b'b'
    then some 8
    else if c == b'f'
    then some 12
    else if c == b'n'
    then some b'\n'
    else if c == b'r'
    then some b'\r'
    else if c == b't'
    then some b'\t'
    else none

abbrev pub push_escape : Option ℕ → Option Bytes → Option Bytes
push_escape none rest = none
push_escape (some c) rest = push (c ∷ []) rest

abbrev pub closing : Bytes → Option Bytes
closing [] = some []
closing (c ∷ s) = none

-- The text that a string of JSON stands for, behind its opening quotation mark; a control character
-- must be escaped, and nothing follows the closing quotation mark.
unfoldable pub read_string : Mode → Bytes → Option Bytes
read_string mode [] = none
read_string among_characters (c ∷ s) =
    let plain = read_string among_characters s in
    let escape = read_string escaped s in
    if c == b'"'
    then closing s
    else if c == b'\\'
    then escape
    else if ltb c 0x20
    then none
    else push (c ∷ []) plain
read_string escaped (c ∷ s) =
    let plain = read_string among_characters s in
    let code = read_string (digits 3 0) s in
    if c == b'u' then code else push_escape (short_escape c) plain
read_string (digits zero value) (c ∷ s) =
    let plain = read_string among_characters s in
    if ltb (digit_value c) 16 then push (encode_rune (value * 16 + digit_value c)) plain else none
read_string (digits (suc left) value) (c ∷ s) =
    let code = read_string (digits left (value * 16 + digit_value c)) s in
    if ltb (digit_value c) 16 then code else none

unfoldable pub read_text : Bytes → Option Bytes
unfolding read_string
read_text [] = none
read_text (c ∷ s) = let text = read_string among_characters s in if c == b'"' then text else none
