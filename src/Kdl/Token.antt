-- ===== src/Kdl/Token.antt =====
-- internal/kdl/token.go.
use scrape_kdl.Common.Int.{ℤ}
use scrape_kdl.Common.Text.{Bytes}
use scrape_kdl.Common.{Bool}
use scrape_kdl.Source.{Span}

pub data TokenKind : Type 0 where
  invalid eof newline semicolon slashdash lbrace rbrace equals lparen rparen : TokenKind
  identifier string int float bool null : TokenKind

-- The dynamic values of the field `value`. `float_value` holds the decimal digits that the number
-- was read from: the value is the nearest `float64`.
pub data TokenValue : Type 0 where
  nil_value : TokenValue
  text_value : Bytes → TokenValue
  int_value : ℤ → TokenValue
  float_value : Bytes → TokenValue
  bool_value : Bool → TokenValue

pub record Token : Type 0 where
  pub kind : TokenKind
  pub text : Bytes
  pub value : TokenValue
  pub span : Span
