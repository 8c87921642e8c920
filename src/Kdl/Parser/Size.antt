-- ===== src/Kdl/Parser/Size.antt =====
-- How the methods of the parser lower the number of tokens that are left.
use scrape_kdl.Common.{
  ℕ, zero, suc, ◌+◌, ◌-◌, ◌≤◌, ◌<◌, Bool, true, false, not, ◌≡◌, refl, arith, inl, inr, length,
  if_both,
}
use scrape_kdl.Kdl.Lexer.Emits.{next-Emits}
use scrape_kdl.Kdl.Lexer.Next.{next}
use scrape_kdl.Kdl.Lexer.{Lexer}
use scrape_kdl.Kdl.Lexer.Ahead.{Ahead-le, Ahead-trans}
use scrape_kdl.Kdl.Parser.{
  Parser, advance, kind_of, is_eof, is_newline, is_separator, ends_node, weight, size, skip_while,
  skip_separator, skip_slashdash_line_space, recover_node, annotation_loop, skip_type_annotation,
  reject_annotation,
}
use scrape_kdl.Kdl.Token
use scrape_kdl.Kdl.Token.{TokenKind, Token}

weight-le : (k : TokenKind) → weight k ≤ 1
weight-le Token.eof = omega arith
weight-le _ = omega arith

weight-eof : (k : TokenKind) → k ≡ Token.eof → weight k ≡ 0
weight-eof k e = rw e

weight-real : (k : TokenKind) → is_eof k ≡ false → weight k ≡ 1
weight-real Token.eof h = cc
weight-real _ h = refl

-- A token is worth no more than the text that it was read from.
next-weight : (l : Lexer) → weight (next l).0.kind + length (next l).1.rest ≤ length l.rest
next-weight l =
    let e = next-Emits l in
    elim e.outcome [
      | inl (ended, _) ↦ omega (arith, weight-eof _ ended, Ahead-le (Ahead-trans e.before e.after))
      | inr (_, lt) ↦ omega (arith, weight-le (next l).0.kind)
    ]

pub size-advance : (p : Parser) → size (advance p) ≤ size p
unfolding advance
size-advance p = omega (arith, next-weight p.lex)

-- Where the text has not ended, a step leaves less.
pub size-advance_lt : (p : Parser) → is_eof (kind_of p) ≡ false → size (advance p) < size p
unfolding advance
size-advance_lt p h = omega (arith, next-weight p.lex, weight-real (kind_of p) h)

pub not-eof : (k : TokenKind) → ends_node k ≡ false → is_eof k ≡ false
not-eof Token.eof h = cc
not-eof _ h = refl

pub size-skip_while :
    (test : TokenKind → Bool) (f : ℕ) (p : Parser) → size (skip_while test f p) ≤ size p
unfolding skip_while
size-skip_while test zero p = omega arith
size-skip_while test (suc f) p =
    if_both (λ q. size q ≤ size p) (test (kind_of p))
      (omega (arith, size-advance p, size-skip_while test f (advance p))) (omega arith)

pub size-skip_separator : (p : Parser) → size (skip_separator p) ≤ size p
size-skip_separator p =
    if_both (λ q. size q ≤ size p) (is_separator (kind_of p)) (size-advance p) (omega arith)

pub size-skip_slashdash_line_space : (p : Parser) → size (skip_slashdash_line_space p) ≤ size p
unfolding skip_slashdash_line_space
size-skip_slashdash_line_space p = size-skip_while is_newline (size p) p

annotation_loop-le : (f depth : ℕ) (p : Parser) → size (annotation_loop f depth p) ≤ size p
unfolding annotation_loop
annotation_loop-le zero depth p = omega arith
annotation_loop-le (suc f) depth p = ground (
  arith,
  size-advance p,
  annotation_loop-le f (depth + 1) (advance p),
  annotation_loop-le f (depth - 1) (advance p),
  annotation_loop-le f depth (advance p),
)

annotation_loop-lt :
    (f depth : ℕ) (p : Parser)
    → is_eof (kind_of p) ≡ false
    → 0 < f
    → size (annotation_loop f depth p) < size p
unfolding annotation_loop
annotation_loop-lt zero depth p h pos = absurd (omega arith)
annotation_loop-lt (suc f) depth p h pos = ground (
  arith,
  size-advance_lt p h,
  annotation_loop-le f (depth + 1) (advance p),
  annotation_loop-le f (depth - 1) (advance p),
  annotation_loop-le f depth (advance p),
)

pub size-skip_type_annotation : (p : Parser) → size (skip_type_annotation p) ≤ size p
unfolding skip_type_annotation
size-skip_type_annotation p = annotation_loop-le (size p) 0 p

pub size-reject_annotation_lt :
    (p : Parser) → is_eof (kind_of p) ≡ false → size (reject_annotation p) < size p
unfolding reject_annotation skip_type_annotation
size-reject_annotation_lt p h =
    annotation_loop-lt (size p) 0 p h (omega (arith, size-advance_lt p h))

pub size-recover_node : (p : Parser) → size (recover_node p) ≤ size p
unfolding recover_node
size-recover_node p =
    let q = skip_while (λ k. not (ends_node k)) (size p) p in
    omega (arith, size-skip_separator q, size-skip_while (λ k. not (ends_node k)) (size p) p)

size-skip_while_lt :
    (test : TokenKind → Bool) (f : ℕ) (p : Parser)
    → test (kind_of p) ≡ true
    → is_eof (kind_of p) ≡ false
    → 0 < f
    → size (skip_while test f p) < size p
unfolding skip_while
size-skip_while_lt test zero p on h pos = absurd (omega arith)
size-skip_while_lt test (suc f) p on h pos =
    rw on (omega (arith, size-advance_lt p h, size-skip_while test f (advance p)))

pub size-recover_node_lt :
    (p : Parser) → ends_node (kind_of p) ≡ false → size (recover_node p) < size p
unfolding recover_node
size-recover_node_lt p h =
    let test = λ (k : TokenKind). not (ends_node k) in
    let real = not-eof (kind_of p) h in
    omega (
      arith,
      size-skip_separator (skip_while test (size p) p),
      size-skip_while_lt test (size p) p (ground arith) real
          (omega (arith, size-advance_lt p real)),
    )
