-- ===== src/Kdl/Parser/Shrink.antt =====
-- Each method of the parser passes tokens and brings none back.
use scrape_kdl.Common.Text.{Bytes}
use scrape_kdl.Common.{
  ◌≤◌, ◌<◌, false, ◌&&◌, ◌⊎◌, ap, ◌≡◌, arith, Bool-cases, inl, inr, if_both, if◌then◌else◌, Option,
  none, some,
}
use scrape_kdl.Kdl.Ast.{Value, ValueKind, Node, Nodes}
use scrape_kdl.Kdl.Parser.Entries.{
  value_kind, parse_value_as, parse_value, Draft, parse_property, add_argument, parse_entry,
  close_children, end_node, require_value, skip_suppressed_value, double_slashdash,
  skip_suppressed_annotation, close_skipped_block,
}
use scrape_kdl.Kdl.Parser.Size.{
  size-advance, size-advance_lt, size-skip_separator, size-skip_slashdash_line_space,
  size-skip_type_annotation, size-reject_annotation_lt,
}
use scrape_kdl.Kdl.Parser.{
  Parser, advance, syntax_error, kind_of, is_eof, is_rbrace, is_lparen, is_equals, is_identifier,
  is_name, size, skip_slashdash_line_space, skip_type_annotation, reject_annotation,
}
use scrape_kdl.Source.{Span}
use scrape_kdl.Kdl.Parser.Runs.{lparen-real}

parse_value_as-le : (p : Parser) (k : Option ValueKind) → size (parse_value_as p k).1 ≤ size p
parse_value_as-le p none = omega arith
parse_value_as-le p (some k) = size-advance p

parse_value-le : (p : Parser) → size (parse_value p).1 ≤ size p
unfolding parse_value
parse_value-le p = parse_value_as-le p (value_kind (kind_of p))

parse_property-lt :
    (d : Draft) (p : Parser) → is_eof (kind_of p) ≡ false → size (parse_property d p).1 < size p
unfolding parse_property
parse_property-lt d p h =
    omega
      (arith, parse_value-le (advance (advance p)), size-advance (advance p), size-advance_lt p h)

add_argument-lt :
    (d : Draft) (p : Parser) (k : Option ValueKind)
    → is_eof (kind_of p) ≡ false
    → size (add_argument d (parse_value_as p k)).1 < size p
add_argument-lt d p none h = size-advance_lt (syntax_error p _ p.cur.span) h
add_argument-lt d p (some k) h = size-advance_lt p h

pub parse_entry-lt :
    (d : Draft) (p : Parser) → is_eof (kind_of p) ≡ false → size (parse_entry d p).1 < size p
unfolding parse_entry parse_value
parse_entry-lt d p h =
    if_both (λ (r : Draft × Parser). size r.1 < size p)
      (is_identifier (kind_of p) && is_equals p.peek.kind) (parse_property-lt d p h)
      (add_argument-lt d p (value_kind (kind_of p)) h)

pub close_children-le :
    (start : Span) (d : Draft) (s : Span) (ns : Nodes) (p : Parser)
    → size (close_children start d s ns p).1 ≤ size p
unfolding close_children
close_children-le start d s ns p =
    if_both (λ (r : Node × Parser). size r.1 ≤ size p) (is_rbrace (kind_of p))
      (omega (arith, size-skip_separator (advance p), size-advance p))
      (size-skip_separator (syntax_error p _ s))

pub end_node-le : (start : Span) (d : Draft) (p : Parser) → size (end_node start d p).1 ≤ size p
unfolding end_node
end_node-le start d p = size-skip_separator p

require_value-le :
    (marker : Span) (p q : Parser) (text : Bytes) (v : Option Value)
    → size q ≤ size p
    → size (require_value marker p text (v, q)) ≤ size p
require_value-le marker p q text none h = h
require_value-le marker p q text (some v) h = h

pub skip_suppressed_value-le :
    (marker : Span) (p : Parser) → size (skip_suppressed_value marker p) ≤ size p
unfolding skip_suppressed_value
skip_suppressed_value-le marker p =
    let q = advance (advance p) in
    let r = if is_lparen (kind_of q) then skip_type_annotation q else q in
    let shorter : size r ≤ size p =
      if_both (λ x. size x ≤ size p) (is_lparen (kind_of q))
        (omega (arith, size-skip_type_annotation q, size-advance p, size-advance (advance p)))
        (omega (arith, size-advance p, size-advance (advance p))) in
    if_both (λ x. size x ≤ size p) (is_name (kind_of p) && is_equals p.peek.kind)
      (omega (
        arith,
        shorter,
        require_value-le marker r (parse_value r).1 _ (parse_value r).0 (parse_value-le r),
      ))
      (require_value-le marker p (parse_value p).1 _ (parse_value p).0 (parse_value-le p))

pub double_slashdash-le : (p : Parser) → size (double_slashdash p) ≤ size p
unfolding double_slashdash
double_slashdash-le p = size-advance (syntax_error p _ p.cur.span)

pub skip_suppressed_annotation-le : (p : Parser) → size (skip_suppressed_annotation p) ≤ size p
unfolding skip_suppressed_annotation
skip_suppressed_annotation-le p =
    if_both (λ x. size x ≤ size p) (is_lparen (kind_of p))
      (omega (
        arith,
        size-skip_type_annotation p,
        size-skip_slashdash_line_space (skip_type_annotation p),
      ))
      (omega arith)

pub close_skipped_block-le : (s : Span) (p : Parser) → size (close_skipped_block s p) ≤ size p
unfolding close_skipped_block
close_skipped_block-le s p =
    if_both (λ x. size x ≤ size p) (is_rbrace (kind_of p)) (size-advance p) (omega arith)

-- What a slashdash suppresses begins behind at least one token.
pub suppressed-lt :
    (p : Parser)
    → is_eof (kind_of p) ≡ false
    → size (skip_slashdash_line_space (advance p)) < size p
suppressed-lt p h = omega (arith, size-skip_slashdash_line_space (advance p), size-advance_lt p h)

-- The state in which `parseNode` looks for a name.
abbrev pub named_at : Parser → Parser
named_at p = if is_lparen (kind_of p) then reject_annotation p else p

-- Looking for a name passes nothing, or an annotation.
pub named_at-cases : (p : Parser) → (named_at p ≡ p) ⊎ (size (named_at p) < size p)
named_at-cases p = elim (Bool-cases (is_lparen (kind_of p))) [
  | inl opens ↦ inr (rw opens (size-reject_annotation_lt p (lparen-real (kind_of p) opens)))
  | inr closed ↦ inl (rw closed)
]

pub named_at-le : (p : Parser) → size (named_at p) ≤ size p
named_at-le p = elim (named_at-cases p) [
  | inl same ↦ omega (arith, ap size same)
  | inr less ↦ omega arith
]
