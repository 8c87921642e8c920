-- ===== src/Kdl/Lexer/Progress.antt =====
-- Every method that reads a token or a comment moves forward.
use scrape_kdl.Common.Outcome.{ok, err}
use scrape_kdl.Common.Text.{Bytes}
use scrape_kdl.Common.Utf8.{valid_rune}
use scrape_kdl.Common.{
  ℕ, zero, suc, ◌+◌, ◌-◌, ◌<◌, Bool, false, ◌&&◌, ◌||◌, not, [], ◌≡◌, ◌≢◌, refl, arith, length,
  if_both, if◌then◌else◌, ◌==◌, Option, none, some,
}
use scrape_kdl.Common.Int.{ℤ, pos, negsuc}
use scrape_kdl.Diagnostic.{Message}
use scrape_kdl.Kdl.Lexer.Ahead.{
  Ahead, Ahead-refl, Ahead-trans, Ahead-le, skip-Ahead, skip-lt, skip_while-Ahead,
}
use scrape_kdl.Kdl.Lexer.Scan.{
  skip_line_comment, block_comment_loop, skip_block_comment, scan_identifier, Escaped, written,
  brace_end, unicode_escape, scan_escape, Round, more, done, escape_round, quoted_round, run_round,
  unterminated_string, quoted_loop, scan_quoted_string,
}
use scrape_kdl.Kdl.Lexer.{Lexer, advance, skip, at_end, report, span_from, make_token, fail, peek}
use scrape_kdl.Kdl.Token
use scrape_kdl.Kdl.Token.{Token, TokenKind, TokenValue}
use scrape_kdl.Source.{Position}

-- A diagnostic leaves the place of the lexer alone.
pub report-Ahead :
    {l m : Lexer} (start : Position) (text : Message) → Ahead l m → Ahead l (report m start text)
report-Ahead start text a = record {
  taken = a.taken;
  splits = a.splits;
  moved = a.moved;
  lines = a.lines;
  input_kept = a.input_kept;
  path_kept = a.path_kept;
}

pub skip2-Ahead : (l : Lexer) → Ahead l (skip (skip l))
skip2-Ahead l = Ahead-trans (skip-Ahead l) (skip-Ahead (skip l))

pub skip_line_comment-Ahead : (l : Lexer) → Ahead l (skip_line_comment l)
unfolding skip_line_comment
skip_line_comment-Ahead l = skip_while-Ahead _ (length l.rest) l

block_comment_loop-Ahead :
    (f : ℕ) (start : Position) (depth : ℕ) (l : Lexer)
    → Ahead l (block_comment_loop f start depth l)
unfolding block_comment_loop
block_comment_loop-Ahead zero start depth l = report-Ahead start _ (Ahead-refl l)
block_comment_loop-Ahead (suc f) start depth l =
    let two = skip2-Ahead l in
    if_both (Ahead l) (at_end l) (report-Ahead start _ (Ahead-refl l)) (
      if_both (Ahead l) (peek l 0 == b'/' && peek l 1 == b'*')
        (Ahead-trans two (block_comment_loop-Ahead f start (depth + 1) _))
        (if_both (Ahead l) (peek l 0 == b'*' && peek l 1 == b'/')
          (if_both (Ahead l) (depth == 1) two
            (Ahead-trans two (block_comment_loop-Ahead f start (depth - 1) _)))
          (Ahead-trans (skip-Ahead l) (block_comment_loop-Ahead f start depth _))))

pub skip_block_comment-Ahead : (start : Position) (l : Lexer) → Ahead l (skip_block_comment start l)
unfolding skip_block_comment
skip_block_comment-Ahead start l =
    Ahead-trans (skip2-Ahead l) (block_comment_loop-Ahead _ start 1 (skip (skip l)))

pub skip_block_comment-lt :
    (start : Position) (l : Lexer)
    → at_end l ≡ false
    → length (skip_block_comment start l).rest < length l.rest
unfolding skip_block_comment
skip_block_comment-lt start l inside = omega (
  arith,
  skip-lt l inside,
  Ahead-le (skip-Ahead (skip l)),
  Ahead-le (block_comment_loop-Ahead (suc (length (skip (skip l)).rest)) start 1 (skip (skip l))),
)

-- A token that was scanned from `l` on: its span runs from `start` to where the lexer is now, and
-- it is not the end of the text.
pub record Scanned (l : Lexer) (start : Position) (r : Token × Lexer) : Type 0 where
  pub ahead : Ahead l r.1
  pub marked : r.0.span ≡ span_from r.1 start
  pub real : r.0.kind ≢ Token.eof

pub made :
    {l m : Lexer} {k : TokenKind} {s : Bytes} {v : TokenValue} (start : Position)
    → k ≢ Token.eof
    → Ahead l m
    → Scanned l start (make_token k s v start m)
made start ne a = record { ahead = a; marked = refl; real = ne }

pub failed :
    {l m : Lexer} (text : Message) (s : Bytes) (start : Position)
    → Ahead l m
    → Scanned l start (fail text s start m)
failed text s start a = record { ahead = report-Ahead start text a; marked = refl; real = λ e. cc }

pub scan_identifier-Scanned :
    (start : Position) (l : Lexer) → Scanned l start (scan_identifier start l)
unfolding scan_identifier
scan_identifier-Scanned start l = made start (λ e. cc) (skip_while-Ahead _ (length l.rest) l)

-- Where an escape leaves the lexer, with or without an error.
abbrev place : Escaped → Lexer
place (ok (w, l)) = l
place (err (m, l)) = l

written-place : (v : Option ℤ) (l : Lexer) → Ahead l (place (written v l))
unfolding written
written-place (some (pos v)) l =
    if_both (λ e. Ahead l (place e)) (valid_rune v) (Ahead-refl l) (Ahead-refl l)
written-place (some (negsuc v)) l = Ahead-refl l
written-place none l = Ahead-refl l

unicode_escape-Ahead : (l : Lexer) → Ahead l (place (unicode_escape l))
unfolding unicode_escape
unicode_escape-Ahead l =
    let body = skip l in
    let close = Ahead-trans (skip-Ahead l) (skip_while-Ahead _ (length body.rest) body) in
    if_both (λ e. Ahead l (place e)) (not (peek l 0 == b'{')) (Ahead-refl l)
      (if_both (λ e. Ahead l (place e)) (at_end (brace_end l)) close
        (Ahead-trans close (Ahead-trans (skip-Ahead (brace_end l)) (written-place _ _))))

ok_ascii :
    (b : Bool) (w : Bytes) (e : Escaped) (l m : Lexer)
    → Ahead l m
    → Ahead l (place e)
    → Ahead l (place (if b then ok (w, m) else e))
ok_ascii b w e l m here there = if_both (λ e'. Ahead l (place e')) b here there

scan_escape-Ahead : (l : Lexer) → Ahead l (place (scan_escape l))
unfolding scan_escape
scan_escape-Ahead l =
    let a = skip-Ahead l in
    let esc = (advance l).0 in
    ok_ascii (esc == b'n') _ _ l _ a (
      ok_ascii (esc == b'r') _ _ l _ a (
        ok_ascii (esc == b't') _ _ l _ a (
          ok_ascii (esc == b'b') _ _ l _ a (
            ok_ascii (esc == b'f') _ _ l _ a (
              ok_ascii (esc == b'\\') _ _ l _ a (
                ok_ascii (esc == b'"') _ _ l _ a (
                  if_both (λ e. Ahead l (place e)) (esc == b'u')
                    (Ahead-trans a (unicode_escape-Ahead (skip l))) a)))))))

abbrev RoundScanned : Lexer → Position → Round → Type 0
RoundScanned l start (more b m) = Ahead l m
RoundScanned l start (done t) = Scanned l start t

escape_round-RoundScanned :
    (b : Bytes) (start : Position) (e : Escaped) {l : Lexer}
    → Ahead l (place e)
    → RoundScanned l start (escape_round b start e)
unfolding escape_round
escape_round-RoundScanned b start (ok (w, l)) a = a
escape_round-RoundScanned b start (err (m, l)) a = failed m [] start a

quoted_round-RoundScanned :
    (start : Position) (b : Bytes) (l : Lexer) → RoundScanned l start (quoted_round start b l)
unfolding quoted_round
quoted_round-RoundScanned start b l =
    let a = skip-Ahead l in
    let r = (advance l).0 in
    let P = RoundScanned l start in
    if_both P (r == b'"') (made start (λ e. cc) a) (
      if_both P (r == b'\\')
        (if_both P (at_end (skip l)) a (
          escape_round-RoundScanned b start (scan_escape (skip l))
            (Ahead-trans a (scan_escape-Ahead (skip l)))))
        (if_both P (r == b'\n' || r == b'\r') (failed _ [] start a) a))

pub Scanned-trans :
    {l m : Lexer} {start : Position} {r : Token × Lexer}
    → Ahead l m
    → Scanned m start r
    → Scanned l start r
Scanned-trans a s = record { ahead = Ahead-trans a s.ahead; marked = s.marked; real = s.real }

run_round-Scanned :
    (loop : Bytes → Lexer → Token × Lexer) (start : Position) (l : Lexer) (r : Round)
    → ((b : Bytes) (m : Lexer) → Scanned m start (loop b m))
    → RoundScanned l start r
    → Scanned l start (run_round loop r)
unfolding run_round
run_round-Scanned loop start l (more b m) ih a = Scanned-trans a (ih b m)
run_round-Scanned loop start l (done t) ih h = h

quoted_loop-Scanned :
    (f : ℕ) (start : Position) (b : Bytes) (l : Lexer) → Scanned l start (quoted_loop f start b l)
unfolding quoted_loop unterminated_string
quoted_loop-Scanned zero start b l = failed _ [] start (Ahead-refl l)
quoted_loop-Scanned (suc f) start b l =
    if_both (Scanned l start) (at_end l) (failed _ [] start (Ahead-refl l)) (
      run_round-Scanned (quoted_loop f start) start l (quoted_round start b l)
        (quoted_loop-Scanned f start) (quoted_round-RoundScanned start b l))

pub scan_quoted_string-Scanned :
    (start : Position) (l : Lexer) → Scanned (skip l) start (scan_quoted_string start l)
unfolding scan_quoted_string
scan_quoted_string-Scanned start l = quoted_loop-Scanned (length (skip l).rest) start [] (skip l)
