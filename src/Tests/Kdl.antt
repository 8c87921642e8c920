-- ===== src/Tests/Kdl.antt =====
-- The lexer and the parser of KDL on small texts.
use scrape_kdl.Common.Int.{pos, negsuc}
use scrape_kdl.Common.Text.{Bytes, codes}
use scrape_kdl.Common.Utf8.{decode_rune}
use scrape_kdl.Common.{ℕ, zero, suc, List, [], ◌∷◌, ◌≡◌, refl, Bool, true, false, some}
use scrape_kdl.Common.Sort.Laws.{is_sorted}
use scrape_kdl.Diagnostic.{Diagnostic, before}
use scrape_kdl.Kdl.Ast
use scrape_kdl.Kdl.Ast.Lookup.{last_value, property-eq-last_value}
use scrape_kdl.Kdl.Ast.{Property, Node, node, nil, Document, property, properties_named}
use scrape_kdl.Kdl.Lexer.Emits.{Emits, next-Emits}
use scrape_kdl.Kdl.Parser.Document.{parse}
use scrape_kdl.Kdl.Parser.Total.{parse-total}
use scrape_kdl.Source.{Span}
use scrape_kdl.Kdl.Lexer.Next.{next, next_loop, next_round, scan_slash, scan_word}
use scrape_kdl.Kdl.Lexer.Number.{
  scan_number, scan_decimal, scan_prefixed, decimal_token, skip_digits, skip_sign, skip_fraction,
  skip_exponent, is_exponent, int_token, without_underscores,
}
use scrape_kdl.Kdl.Lexer.Scan.{scan_identifier, skip_block_comment, block_comment_loop}
use scrape_kdl.Kdl.Lexer.{
  Lexer, new_lexer, advance, skip_n, skip_while, is_identifier_start, is_identifier_continue,
  is_number_start, is_hex_digit,
}
use scrape_kdl.Kdl.Literal.{parse_signed, read_magnitude, read_prefixed, signed}
use scrape_kdl.Kdl.Token
use scrape_kdl.Kdl.Token.{
  TokenKind, TokenValue, Token, nil_value, text_value, int_value, float_value, bool_value,
}

-- The kinds and values of the first tokens of a text.
abbrev tokens : ℕ → Lexer → List (TokenKind × TokenValue)
tokens zero l = []
tokens (suc n) l = ((next l).0.kind, (next l).0.value) ∷ tokens n (next l).1

abbrev lex : ℕ → Bytes → List (TokenKind × TokenValue)
lex n s = tokens n (new_lexer (codes "x.kdl") s)

words :
    lex 4 (codes "a-b /* c /* d */ */ 0x1F -12")
    ≡ (Token.identifier, text_value (codes "a-b"))
      ∷ (Token.int, int_value (pos 31))
      ∷ (Token.int, int_value (negsuc 11))
      ∷ (Token.eof, nil_value)
      ∷ []
unfolding next next_loop next_round scan_slash scan_word new_lexer advance skip_n skip_while
    is_identifier_start is_identifier_continue is_number_start scan_identifier skip_block_comment
    block_comment_loop scan_number scan_decimal scan_prefixed decimal_token skip_digits skip_sign
    skip_fraction skip_exponent is_exponent int_token without_underscores is_hex_digit decode_rune
    parse_signed read_magnitude read_prefixed signed
words = refl

abbrev example_lexer : Lexer
example_lexer = new_lexer (codes "x.kdl") (codes " // note\nsource \"a\"")

next-Emits_example : Emits example_lexer (next example_lexer)
next-Emits_example = next-Emits example_lexer

abbrev example_text : Bytes
example_text = codes "a 1 { b k=#true } } /- c"

parse-total_example :
    (r : Document × List Diagnostic) × (parse (codes "x.kdl") example_text ≡ some r)
    × (is_sorted before r.1 ≡ true)
parse-total_example = parse-total (codes "x.kdl") example_text

abbrev origin : Span
origin = record {
  file = codes "x.kdl";
  start = record { offset = 0; line = 1; column = 1 };
  stop = record { offset = 0; line = 1; column = 1 };
}

abbrev flag : Bool → Property
flag b = record {
  name = codes "k";
  value = record { kind = Ast.bool; raw = []; value = bool_value b; span = origin };
  span = origin;
}

-- `n k=#true k=#false`
abbrev twice : Node
twice = node (codes "n") [] (flag true ∷ flag false ∷ []) nil origin

property-eq-last_value_example :
    property twice (codes "k") ≡ last_value (properties_named twice (codes "k"))
property-eq-last_value_example = property-eq-last_value twice (codes "k")
