-- ===== src/Kdl/Lexer/Emits.antt =====
-- `next` returns on every text, moves forward, and gives each token its place.
use scrape_kdl.Common.Text.{Bytes}
use scrape_kdl.Common.Utf8.{encode_rune}
use scrape_kdl.Common.{
  ℕ, zero, suc, ◌<◌, true, false, not, ◌&&◌, ◌||◌, ◌≡◌, ◌≢◌, ◌⊎◌, refl, arith, length, inl, inr,
  if_both, if_rule, ◌==◌,
}
use scrape_kdl.Kdl.Lexer.Ahead.{
  Ahead, Ahead-refl, Ahead-trans, Ahead-le, skip-Ahead, skip-lt, skip_while-lt,
}
use scrape_kdl.Kdl.Lexer.Gap.Skips.{no_gap_at_end, blank_first, line_first, block_first}
use scrape_kdl.Kdl.Lexer.Gap.{Gap, stop, starts_gap}
use scrape_kdl.Kdl.Lexer.Marks.{scan_hash_token-Scanned, scan_number-Scanned, scan_number-lt}
use scrape_kdl.Kdl.Lexer.Next.{
  eof_token, punctuation, slashdash_token, unexpected, scan_word, scan_slash, next_round, next_loop,
  next,
}
use scrape_kdl.Kdl.Lexer.Progress.{
  Scanned, Scanned-trans, made, failed, skip_line_comment-Ahead, skip_block_comment-Ahead,
  skip_block_comment-lt, scan_identifier-Scanned, scan_quoted_string-Scanned,
}
use scrape_kdl.Kdl.Lexer.Scan.{skip_line_comment, scan_identifier}
use scrape_kdl.Kdl.Lexer.{
  Lexer, position, span_from, at_end, peek, advance, skip, is_identifier_start,
  is_identifier_continue, is_number_start,
}
use scrape_kdl.Kdl.Token
use scrape_kdl.Kdl.Token.{TokenKind, Token}

-- What `next` owes: white space and whole comments up to `begin`, where neither begins, then the
-- token, whose span runs from there to where the lexer stops. It is the end of the text, with
-- nothing left, or it takes a byte.
pub record Emits (l : Lexer) (r : Token × Lexer) : Type 0 where
  pub begin : Lexer
  pub before : Ahead l begin
  pub gap : Gap l.rest begin.rest
  pub fresh : starts_gap begin.rest ≡ false
  pub after : Ahead begin r.1
  pub marked : r.0.span ≡ span_from r.1 (position begin)
  pub outcome :
      ((r.0.kind ≡ Token.eof) × (at_end r.1 ≡ true))
      ⊎ ((r.0.kind ≢ Token.eof) × (length r.1.rest < length l.rest))

emit :
    {l : Lexer} {r : Token × Lexer}
    → Scanned l (position l) r
    → length r.1.rest < length l.rest
    → starts_gap l.rest ≡ false
    → Emits l r
emit {l} s lt fresh = record {
  begin = l;
  before = Ahead-refl l;
  gap = stop;
  fresh = fresh;
  after = s.ahead;
  marked = s.marked;
  outcome = inr (s.real, lt);
}

-- A token that is scanned from behind the first character on.
emit_behind :
    {l : Lexer} {r : Token × Lexer}
    → at_end l ≡ false
    → starts_gap l.rest ≡ false
    → Scanned (skip l) (position l) r
    → Emits l r
emit_behind {l} inside fresh s =
    emit (Scanned-trans (skip-Ahead l) s) (omega (arith, skip-lt l inside, Ahead-le s.ahead)) fresh

-- What goes on behind white space or a comment.
continue :
    {l m : Lexer} {r : Token × Lexer}
    → Ahead l m
    → length m.rest < length l.rest
    → ((to : Bytes) → Gap m.rest to → Gap l.rest to)
    → Emits m r
    → Emits l r
continue a lt first e = record {
  begin = e.begin;
  before = Ahead-trans a e.before;
  gap = first e.begin.rest e.gap;
  fresh = e.fresh;
  after = e.after;
  marked = e.marked;
  outcome = elim e.outcome [ inl ended ↦ inl ended | inr (real, more) ↦ inr (real, omega arith) ];
}

emit_eof : (l : Lexer) → at_end l ≡ true → Emits l (eof_token l)
emit_eof l ended = record {
  begin = l;
  before = Ahead-refl l;
  gap = stop;
  fresh = no_gap_at_end l.rest ended;
  after = Ahead-refl l;
  marked = refl;
  outcome = inl (refl, ended);
}

scan_identifier-lt :
    (l : Lexer)
    → at_end l ≡ false
    → is_identifier_start (peek l 0) ≡ true
    → length (scan_identifier (position l) l).1.rest < length l.rest
unfolding scan_identifier is_identifier_continue
scan_identifier-lt l inside h =
    skip_while-lt (λ k. not (at_end k) && is_identifier_continue (peek k 0)) l inside (ground arith)

skip_line_comment-lt :
    (l : Lexer)
    → at_end l ≡ false
    → (peek l 0 == b'/') ≡ true
    → length (skip_line_comment l).rest < length l.rest
unfolding skip_line_comment
skip_line_comment-lt l inside h =
    skip_while-lt (λ m. not (at_end m) && not (peek m 0 == b'\n')) l inside (ground arith)

scan_word-Emits : (l : Lexer) → at_end l ≡ false → starts_gap l.rest ≡ false → Emits l (scan_word l)
unfolding scan_word unexpected
scan_word-Emits l inside fresh =
    if_rule (Emits l) (is_number_start (peek l 0) (peek l 1))
      (λ h.
        emit (scan_number-Scanned (position l) l) (scan_number-lt (position l) l inside h) fresh)
      λ _.
        if_rule (Emits l) (is_identifier_start (peek l 0))
          (λ h. emit (scan_identifier-Scanned (position l) l) (scan_identifier-lt l inside h) fresh)
          λ _.
            emit_behind inside fresh
              (failed _ (encode_rune (advance l).0) (position l) (Ahead-refl (skip l)))

-- The premise of the rounds: the loop keeps its promise on every shorter text.
abbrev Again : (Lexer → Token × Lexer) → Lexer → Type 0
Again again l = (m : Lexer) → length m.rest < length l.rest → Emits m (again m)

scan_slash-Emits :
    (again : Lexer → Token × Lexer) (l : Lexer)
    → at_end l ≡ false
    → (peek l 0 == b'/') ≡ true
    → Again again l
    → Emits l (scan_slash again l)
unfolding scan_slash slashdash_token
scan_slash-Emits again l inside h ih =
    let P = Emits l in
    let comment = skip_block_comment-Ahead (position l) l in
    let shorter = skip_line_comment-lt l inside h in
    let block_shorter = skip_block_comment-lt (position l) l inside in
    if_rule P (peek l 1 == b'/')
      (λ second.
        continue (skip_line_comment-Ahead l) shorter
          (λ to. line_first l to (ground (arith, h, second))) (ih _ shorter))
      λ no_line.
        if_rule P (peek l 1 == b'*')
          (λ second.
            continue comment block_shorter
              (λ to. block_first (position l) l to (ground (arith, h, second)))
              (ih _ block_shorter))
          λ no_block.
            let fresh : starts_gap l.rest ≡ false = ground (arith, h, no_line, no_block) in
            if_both P (peek l 1 == b'-')
              (emit_behind inside fresh (made (position l) (λ e. cc) (skip-Ahead (skip l))))
              (scan_word-Emits l inside fresh)

-- A character that begins neither white space nor a comment.
other_character :
    (l : Lexer)
    → (peek l 0 == b' ' || peek l 0 == b'\t' || peek l 0 == b'\r') ≡ false
    → (peek l 0 == b'/') ≡ false
    → starts_gap l.rest ≡ false
other_character l h k = ground (arith, h, k)

is_character :
    (l : Lexer) (c : ℕ)
    → (peek l 0 == c) ≡ true
    → (c == b' ' || c == b'\t' || c == b'\r' || c == b'/') ≡ false
    → starts_gap l.rest ≡ false
is_character l c h k = ground (arith, h, k)

mark :
    (k : TokenKind) (c : ℕ) (l : Lexer)
    → k ≢ Token.eof
    → (c == b' ' || c == b'\t' || c == b'\r' || c == b'/') ≡ false
    → at_end l ≡ false
    → (peek l 0 == c) ≡ true
    → Emits l (punctuation k l)
mark k c l ne plain inside h =
    emit_behind inside (is_character l c h plain) (made (position l) ne (Ahead-refl (skip l)))

next_round-Emits :
    (again : Lexer → Token × Lexer) (l : Lexer) → Again again l → Emits l (next_round again l)
unfolding next_round
next_round-Emits again l ih =
    let P = Emits l in
    let ch = peek l 0 in
    if_rule P (at_end l) (emit_eof l) λ inside.
      if_rule P (ch == b' ' || ch == b'\t' || ch == b'\r')
        (λ h.
          continue (skip-Ahead l) (skip-lt l inside) (λ to. blank_first l to h)
            (ih (skip l) (skip-lt l inside)))
        λ no_blank. if_rule P (ch == b'\n') (mark Token.newline b'\n' l (λ e. cc) refl inside) λ _.
          if_rule P (ch == b';') (mark Token.semicolon b';' l (λ e. cc) refl inside) λ _.
            if_rule P (ch == b'{') (mark Token.lbrace b'{' l (λ e. cc) refl inside) λ _.
              if_rule P (ch == b'}') (mark Token.rbrace b'}' l (λ e. cc) refl inside) λ _.
                if_rule P (ch == b'=') (mark Token.equals b'=' l (λ e. cc) refl inside) λ _.
                  if_rule P (ch == b'(') (mark Token.lparen b'(' l (λ e. cc) refl inside) λ _.
                    if_rule P (ch == b')') (mark Token.rparen b')' l (λ e. cc) refl inside) λ _.
                      if_rule P (ch == b'/') (λ slash. scan_slash-Emits again l inside slash ih)
                        λ no_slash.
                          let fresh = other_character l no_blank no_slash in
                          if_both P (ch == b'"')
                            (emit_behind inside fresh (scan_quoted_string-Scanned (position l) l))
                            (if_rule P (ch == b'#')
                              (λ hash.
                                emit_behind inside fresh
                                  (scan_hash_token-Scanned (position l) l hash))
                              λ _. scan_word-Emits l inside fresh)

next_loop-Emits : (f : ℕ) (l : Lexer) → length l.rest < f → Emits l (next_loop f l)
unfolding next_loop
next_loop-Emits zero l h = absurd (omega arith)
next_loop-Emits (suc f) l h =
    next_round-Emits (next_loop f) l (λ m lt. next_loop-Emits f m (omega arith))

-- On every text next returns a token. It skips white space, which is spaces, tabs and carriage
-- returns, and whole comments, up to where neither begins; a comment of a line ends in front of the
-- new line, and a block comment, in which others may stand, behind the mark that closes it, or with
-- the text. The token's span runs from there to where next stops; the token is the end of the
-- text, with nothing left, or it takes a byte at least.
pub next-Emits : (l : Lexer) → Emits l (next l)
unfolding next
next-Emits l = next_loop-Emits (suc (length l.rest)) l (omega arith)
