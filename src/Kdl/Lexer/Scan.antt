-- ===== src/Kdl/Lexer/Scan.antt =====
-- The methods of the lexer that read one token or comment, and `next`.
use scrape_kdl.Common.Int.{ℤ, pos}
use scrape_kdl.Common.Outcome.{Outcome, ok, err}
use scrape_kdl.Common.Text.{Bytes, codes}
use scrape_kdl.Common.Utf8.{encode_rune, valid_rune}
use scrape_kdl.Common.{
  ℕ, zero, suc, ◌+◌, ◌-◌, not, ◌&&◌, ◌||◌, [], ◌∷◌, ◌++◌, length, Option, some, ◌==◌, if◌then◌else◌,
}
use scrape_kdl.Diagnostic.{Message, plain, formatted}
use scrape_kdl.Kdl.Lexer.{
  Lexer, at_end, peek, advance, skip, skip_while, slice, report, make_token, fail,
  is_identifier_continue,
}
use scrape_kdl.Kdl.Literal.{parse_int}
use scrape_kdl.Kdl.Token
use scrape_kdl.Kdl.Token.{
  TokenKind, TokenValue, Token, nil_value, text_value, int_value, float_value, bool_value,
}
use scrape_kdl.Source.{Position}

abbrev pub left : Lexer → ℕ
left l = length l.rest

unfoldable pub skip_line_comment : Lexer → Lexer
skip_line_comment l = skip_while (λ m. not (at_end m) && not (peek m 0 == b'\n')) (left l) l

-- The loop of `skipBlockComment`. It ends at the end of the text, with the diagnostic, or behind
-- the `*/` that closes the outermost comment.
unfoldable pub block_comment_loop : ℕ → Position → ℕ → Lexer → Lexer
block_comment_loop zero start depth l = report l start (plain (codes "unterminated block comment"))
block_comment_loop (suc f) start depth l =
    let opened = block_comment_loop f start (depth + 1) (skip (skip l)) in
    let closed = block_comment_loop f start (depth - 1) (skip (skip l)) in
    let other = block_comment_loop f start depth (skip l) in
    if at_end l
    then report l start (plain (codes "unterminated block comment"))
    else if peek l 0 == b'/' && peek l 1 == b'*'
    then opened
    else if peek l 0 == b'*' && peek l 1 == b'/'
    then (if depth == 1 then skip (skip l) else closed)
    else other

unfoldable pub skip_block_comment : Position → Lexer → Lexer
skip_block_comment start l =
    let body = skip (skip l) in block_comment_loop (suc (left body)) start 1 body

unfoldable pub scan_identifier : Position → Lexer → Token × Lexer
scan_identifier start l =
    let m = skip_while (λ k. not (at_end k) && is_identifier_continue (peek k 0)) (left l) l in
    let text = slice m l.offset in make_token Token.identifier text (text_value text) start m

-- What an escape ends with: the bytes that it stands for, or the message of its error.
abbrev pub Escaped : Type 0
Escaped = Outcome (Message × Lexer) (Bytes × Lexer)

unfoldable pub written : Option ℤ → Lexer → Escaped
written (some (pos v)) l =
    if valid_rune v then ok (encode_rune v, l) else err (plain (codes "invalid Unicode escape"), l)
written _ l = err (plain (codes "invalid Unicode escape"), l)

-- The closing brace of `\\u{...}`, or the end of the text, from the opening brace on.
abbrev pub brace_end : Lexer → Lexer
brace_end l = skip_while (λ k. not (at_end k) && not (peek k 0 == b'}')) (left (skip l)) (skip l)

unfoldable pub unicode_escape : Lexer → Escaped
unicode_escape l =
    if not (peek l 0 == b'{')
    then err (plain (codes "KDL 2 Unicode escapes must use \\u{...}"), l)
    else if at_end (brace_end l)
    then err (plain (codes "unterminated Unicode escape"), brace_end l)
    else written (parse_int 16 32 (slice (brace_end l) (skip l).offset)) (skip (brace_end l))

-- The inner `switch`, on the character behind the backslash.
unfoldable pub scan_escape : Lexer → Escaped
scan_escape l =
    let (esc, m) = advance l in
    if esc == b'n'
    then ok (b'\n' ∷ [], m)
    else if esc == b'r'
    then ok (b'\r' ∷ [], m)
    else if esc == b't'
    then ok (b'\t' ∷ [], m)
    else if esc == b'b'
    then ok (8 ∷ [], m)
    else if esc == b'f'
    then ok (12 ∷ [], m)
    else if esc == b'\\'
    then ok (b'\\' ∷ [], m)
    else if esc == b'"'
    then ok (b'"' ∷ [], m)
    else if esc == b'u'
    then unicode_escape m
    else err (formatted (codes "invalid string escape \\%c") (encode_rune esc ∷ []), m)

-- One round of a loop that scans a token: a bytes buffer to go on with, or the token.
pub data Round : Type 0 where
  more : Bytes → Lexer → Round
  done : Token × Lexer → Round

unfoldable pub escape_round : Bytes → Position → Escaped → Round
escape_round b start (ok (w, l)) = more (b ++ w) l
escape_round b start (err (m, l)) = done (fail m [] start l)

-- The body of the loop of `scanQuotedString`.
unfoldable pub quoted_round : Position → Bytes → Lexer → Round
quoted_round start b l =
    let (r, m) = advance l in
    if r == b'"'
    then done (make_token Token.string (slice m start.offset) (text_value b) start m)
    else if r == b'\\'
    then (if at_end m then more b m else escape_round b start (scan_escape m))
    else if r == b'\n' || r == b'\r'
    then done (fail (plain (codes "newline in quoted string")) [] start m)
    else more (b ++ encode_rune r) m

unfoldable pub unterminated_string : Position → Lexer → Token × Lexer
unterminated_string start l = fail (plain (codes "unterminated quoted string")) [] start l

-- Goes on with the loop, or ends it.
unfoldable pub run_round : (Bytes → Lexer → Token × Lexer) → Round → Token × Lexer
run_round loop (more b l) = loop b l
run_round loop (done t) = t

unfoldable pub quoted_loop : ℕ → Position → Bytes → Lexer → Token × Lexer
quoted_loop zero start b l = unterminated_string start l
quoted_loop (suc f) start b l =
    let next = run_round (quoted_loop f start) (quoted_round start b l) in
    if at_end l then unterminated_string start l else next

unfoldable pub scan_quoted_string : Position → Lexer → Token × Lexer
unfolding quoted_loop quoted_round unterminated_string run_round
scan_quoted_string start l = let m = skip l in quoted_loop (left m) start [] m
