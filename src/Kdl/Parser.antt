-- ===== src/Kdl/Parser.antt =====
-- internal/kdl/parser.go. A method of the parser takes its state and returns the new one. The
-- methods that call one another take fuel, and `none` says that it ran out.
pub mod Document
pub mod Entries
pub mod Runs
pub mod Shrink
pub mod Size
pub mod Total
use scrape_kdl.Common.Text.{Bytes, codes}
use scrape_kdl.Common.{
  ℕ, zero, suc, ◌+◌, ◌-◌, Bool, true, false, not, ◌&&◌, ◌||◌, List, length, [], if◌then◌else◌, leb,
}
use scrape_kdl.Diagnostic.{Diagnostic, Message, plain, formatted, error, add}
use scrape_kdl.Kdl.Lexer.Next.{next}
use scrape_kdl.Kdl.Lexer.{Lexer}
use scrape_kdl.Kdl.Token.{
  TokenKind, invalid, eof, newline, semicolon, slashdash, lbrace, rbrace, equals, lparen, rparen,
  identifier, string, int, float, bool, null, Token,
}
use scrape_kdl.Source.{Span}

pub record Parser : Type 0 where
  pub lex : Lexer
  pub cur : Token
  pub peek : Token
  pub diags : List Diagnostic

abbrev pub kind_of : Parser → TokenKind
kind_of p = p.cur.kind

unfoldable pub advance : Parser → Parser
advance p = let (t, l) = next p.lex in record p { lex = l; cur = p.peek; peek = t }

abbrev pub report : Parser → Bytes → Message → Span → Parser
report p code m s = record p { diags = add p.diags code error m s [] }

abbrev pub syntax_error : Parser → Message → Span → Parser
syntax_error p = report p (codes "E_KDL_SYNTAX")

abbrev pub is_eof : TokenKind → Bool
is_eof eof = true
is_eof _ = false

abbrev pub is_newline : TokenKind → Bool
is_newline newline = true
is_newline _ = false

abbrev pub is_separator : TokenKind → Bool
is_separator newline = true
is_separator semicolon = true
is_separator _ = false

abbrev pub is_rbrace : TokenKind → Bool
is_rbrace rbrace = true
is_rbrace _ = false

abbrev pub is_lbrace : TokenKind → Bool
is_lbrace lbrace = true
is_lbrace _ = false

abbrev pub is_slashdash : TokenKind → Bool
is_slashdash slashdash = true
is_slashdash _ = false

abbrev pub is_lparen : TokenKind → Bool
is_lparen lparen = true
is_lparen _ = false

abbrev pub is_rparen : TokenKind → Bool
is_rparen rparen = true
is_rparen _ = false

abbrev pub is_equals : TokenKind → Bool
is_equals equals = true
is_equals _ = false

abbrev pub is_identifier : TokenKind → Bool
is_identifier identifier = true
is_identifier _ = false

-- A node's name is an identifier or a string.
abbrev pub is_name : TokenKind → Bool
is_name identifier = true
is_name string = true
is_name _ = false

-- What ends the entries of a node.
abbrev pub ends_node : TokenKind → Bool
ends_node eof = true
ends_node newline = true
ends_node semicolon = true
ends_node rbrace = true
ends_node _ = false

-- The tokens that the parser has not passed yet, counting a byte of unread text as a token.
abbrev pub weight : TokenKind → ℕ
weight eof = 0
weight _ = 1

abbrev pub size : Parser → ℕ
size p = weight p.cur.kind + weight p.peek.kind + length p.lex.rest

-- `for test(p.cur.kind) { p.advance() }`.
unfoldable pub skip_while : (TokenKind → Bool) → ℕ → Parser → Parser
skip_while test zero p = p
skip_while test (suc f) p =
    let next_round = skip_while test f (advance p) in if test (kind_of p) then next_round else p

abbrev pub skip_separator : Parser → Parser
skip_separator p = if is_separator (kind_of p) then advance p else p

unfoldable pub skip_slashdash_line_space : Parser → Parser
unfolding skip_while
skip_slashdash_line_space p = skip_while is_newline (size p) p

unfoldable pub recover_node : Parser → Parser
unfolding skip_while
recover_node p = skip_separator (skip_while (λ k. not (ends_node k)) (size p) p)

-- The loop of `skipTypeAnnotation`; the source's depth stays at 0 or above here, since the loop
-- begins at an opening parenthesis and returns when the depth is back at 0.
unfoldable pub annotation_loop : ℕ → ℕ → Parser → Parser
annotation_loop zero depth p = p
annotation_loop (suc f) depth p =
    let deeper = annotation_loop f (depth + 1) (advance p) in
    let outer = annotation_loop f (depth - 1) (advance p) in
    let other = annotation_loop f depth (advance p) in
    if is_eof (kind_of p)
    then p
    else if is_lparen (kind_of p)
    then deeper
    else if is_rparen (kind_of p)
    then (if leb depth 1 then advance p else outer)
    else other

unfoldable pub skip_type_annotation : Parser → Parser
unfolding annotation_loop
skip_type_annotation p = annotation_loop (size p) 0 p

-- A type annotation that is skipped and reported.
unfoldable pub reject_annotation : Parser → Parser
reject_annotation p =
    report (skip_type_annotation p) (codes "E_TYPE_ANNOTATION_UNSUPPORTED")
      (plain (codes "KDL type annotations are not supported")) p.cur.span
