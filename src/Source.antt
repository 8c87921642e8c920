-- ===== src/Source.antt =====
-- internal/source/span.go: positions and spans of a source file.
use scrape_kdl.Common.Text.{Bytes, equal}
use scrape_kdl.Common.{ℕ, if◌then◌else◌, []}

pub record Position : Type 0 where
  pub offset : ℕ
  pub line : ℕ
  pub column : ℕ

pub record Span : Type 0 where
  pub file : Bytes
  pub start : Position
  pub stop : Position

-- The function `Merge`: a span with no file yields to the other one.
unfoldable pub merge : Span → Span → Span
unfolding equal
merge a b =
    if equal a.file []
    then b
    else if equal b.file []
    then a
    else record { file = a.file; start = a.start; stop = b.stop }
