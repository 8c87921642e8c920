-- ===== src/Kdl/Lexer.antt =====
-- internal/kdl/lexer.go. The field `rest` holds `l.input[l.offset:]`; a loop of `advance` takes
-- the number of bytes that are left as fuel.
pub mod Ahead
pub mod Gap
pub mod Progress
pub mod Marks
pub mod Emits
pub mod Scan
pub mod Raw
pub mod Number
pub mod Next
use scrape_kdl.Common.Text.{Bytes, codes}
use scrape_kdl.Common.Utf8.{decode_rune}
use scrape_kdl.Common.{
  ℕ, zero, suc, ◌+◌, ◌-◌, Bool, true, false, not, ◌&&◌, ◌||◌, List, [], ◌∷◌, ◌++◌, take, drop,
  get_or, leb, ◌==◌, if◌then◌else◌,
}
use scrape_kdl.Diagnostic.{Diagnostic, Message, error, add}
use scrape_kdl.Kdl.Token.{TokenKind, invalid, TokenValue, nil_value, Token}
use scrape_kdl.Source.{Position, Span}

pub record Lexer : Type 0 where
  pub path : Bytes
  pub input : Bytes
  pub rest : Bytes
  pub offset : ℕ
  pub line : ℕ
  pub column : ℕ
  pub diags : List Diagnostic

unfoldable pub new_lexer : Bytes → Bytes → Lexer
new_lexer p s = record {
  path = p;
  input = s;
  rest = s;
  offset = 0;
  line = 1;
  column = 1;
  diags = [];
}

abbrev pub position : Lexer → Position
position l = record { offset = l.offset; line = l.line; column = l.column }

-- The method `span`.
abbrev pub span_from : Lexer → Position → Span
span_from l from = record { file = l.path; start = from; stop = position l }

abbrev pub is_nil : Bytes → Bool
is_nil [] = true
is_nil (c ∷ s) = false

-- The method `eof`.
abbrev pub at_end : Lexer → Bool
at_end l = is_nil l.rest

-- The method `peekByte`: 0 behind the end.
abbrev pub peek : Lexer → ℕ → ℕ
peek l n = get_or l.rest n 0

-- `advance` on the text that is left.
unfoldable pub advance_over : Lexer → Bytes → ℕ × Lexer
advance_over l [] = (0, l)
advance_over l (b ∷ s) =
    let (r, size) = decode_rune (b ∷ s) in
    (
      r,
      record l {
        rest = drop size (b ∷ s);
        offset = l.offset + size;
        line = if r == b'\n' then l.line + 1 else l.line;
        column = if r == b'\n' then 1 else l.column + 1;
      },
    )

unfoldable pub advance : Lexer → ℕ × Lexer
unfolding advance_over
advance l = advance_over l l.rest

abbrev pub skip : Lexer → Lexer
skip l = (advance l).1

-- `for range n { l.advance() }`.
unfoldable pub skip_n : ℕ → Lexer → Lexer
skip_n zero l = l
skip_n (suc n) l = skip_n n (skip l)

-- `for test(l) { l.advance() }`.
unfoldable pub skip_while : (Lexer → Bool) → ℕ → Lexer → Lexer
skip_while test zero l = l
skip_while test (suc f) l = let next = skip_while test f (skip l) in if test l then next else l

-- `l.input[begin:l.offset]`.
abbrev pub slice : Lexer → ℕ → Bytes
slice l begin = take (l.offset - begin) (drop begin l.input)

-- A diagnostic `E_KDL_SYNTAX` from `start` on.
abbrev pub report : Lexer → Position → Message → Lexer
report l from m = record l {
  diags = add l.diags (codes "E_KDL_SYNTAX") error m (span_from l from) [];
}

abbrev pub make_token : TokenKind → Bytes → TokenValue → Position → Lexer → Token × Lexer
make_token k t v from l = (record { kind = k; text = t; value = v; span = span_from l from }, l)

-- A diagnostic and the invalid token that stands for what was read.
abbrev pub fail : Message → Bytes → Position → Lexer → Token × Lexer
fail m t from l = make_token invalid t nil_value from (report l from m)

abbrev pub is_letter : ℕ → Bool
is_letter c = leb b'A' c && leb c b'Z' || leb b'a' c && leb c b'z'

abbrev pub is_digit : ℕ → Bool
is_digit c = leb b'0' c && leb c b'9'

unfoldable pub is_hex_digit : ℕ → Bool
is_hex_digit c = is_digit c || leb b'a' c && leb c b'f' || leb b'A' c && leb c b'F'

unfoldable pub is_identifier_start : ℕ → Bool
is_identifier_start c = c == b'_' || c == b'-' || is_letter c

unfoldable pub is_identifier_continue : ℕ → Bool
unfolding is_identifier_start
is_identifier_continue c = is_identifier_start c || is_digit c || c == b'.' || c == b'/'

unfoldable pub is_number_start : ℕ → ℕ → Bool
is_number_start c next = is_digit c || (c == b'+' || c == b'-') && is_digit next

unfoldable pub is_boundary : ℕ → Bool
is_boundary c =
    c == 0
    || c == b' '
    || c == b'\t'
    || c == b'\r'
    || c == b'\n'
    || c == b';'
    || c == b'}'
    || c == b'{'
