-- ===== src/Kdl/Lexer/Next.antt =====
-- The method `next`: the next token, behind white space and comments.
use scrape_kdl.Common.Text.{codes}
use scrape_kdl.Common.Utf8.{encode_rune}
use scrape_kdl.Common.{ℕ, zero, suc, ◌||◌, [], ◌∷◌, length, ◌==◌, if◌then◌else◌}
use scrape_kdl.Diagnostic.{formatted}
use scrape_kdl.Kdl.Lexer.Number.{scan_number}
use scrape_kdl.Kdl.Lexer.Raw.{scan_hash_token}
use scrape_kdl.Kdl.Lexer.Scan.{
  skip_line_comment, skip_block_comment, scan_identifier, scan_quoted_string,
}
use scrape_kdl.Kdl.Lexer.{
  Lexer, position, at_end, peek, advance, skip, make_token, fail, is_identifier_start,
  is_number_start,
}
use scrape_kdl.Kdl.Token
use scrape_kdl.Kdl.Token.{TokenKind, Token, nil_value}

abbrev pub eof_token : Lexer → Token × Lexer
eof_token l = make_token Token.eof [] nil_value (position l) l

-- A token of one character.
abbrev pub punctuation : TokenKind → Lexer → Token × Lexer
punctuation k l = make_token k (peek l 0 ∷ []) nil_value (position l) (skip l)

unfoldable pub slashdash_token : Lexer → Token × Lexer
slashdash_token l = make_token Token.slashdash (codes "/-") nil_value (position l) (skip (skip l))

unfoldable pub unexpected : Lexer → Token × Lexer
unexpected l =
    let (bad, m) = advance l in
    fail (formatted (codes "unexpected character %q") (encode_rune bad ∷ [])) (encode_rune bad)
      (position l) m

-- What the `switch` leaves to the tests behind it.
unfoldable pub scan_word : Lexer → Token × Lexer
scan_word l =
    if is_number_start (peek l 0) (peek l 1)
    then scan_number (position l) l
    else if is_identifier_start (peek l 0)
    then scan_identifier (position l) l
    else unexpected l

-- `case '/'`. `again` is the loop of `next`, where the source says `continue`.
unfoldable pub scan_slash : (Lexer → Token × Lexer) → Lexer → Token × Lexer
scan_slash again l =
    if peek l 1 == b'/'
    then again (skip_line_comment l)
    else if peek l 1 == b'*'
    then again (skip_block_comment (position l) l)
    else if peek l 1 == b'-'
    then slashdash_token l
    else scan_word l

unfoldable pub next_round : (Lexer → Token × Lexer) → Lexer → Token × Lexer
next_round again l =
    let ch = peek l 0 in
    if at_end l
    then eof_token l
    else if ch == b' ' || ch == b'\t' || ch == b'\r'
    then again (skip l)
    else if ch == b'\n'
    then punctuation Token.newline l
    else if ch == b';'
    then punctuation Token.semicolon l
    else if ch == b'{'
    then punctuation Token.lbrace l
    else if ch == b'}'
    then punctuation Token.rbrace l
    else if ch == b'='
    then punctuation Token.equals l
    else if ch == b'('
    then punctuation Token.lparen l
    else if ch == b')'
    then punctuation Token.rparen l
    else if ch == b'/'
    then scan_slash again l
    else if ch == b'"'
    then scan_quoted_string (position l) l
    else if ch == b'#'
    then scan_hash_token (position l) l
    else scan_word l

unfoldable pub next_loop : ℕ → Lexer → Token × Lexer
next_loop zero l = eof_token l
next_loop (suc f) l = next_round (next_loop f) l

-- Each `continue` takes a byte at least, so the bytes that are left are enough fuel.
unfoldable pub next : Lexer → Token × Lexer
next l = next_loop (suc (length l.rest)) l
