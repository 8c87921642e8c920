-- ===== src/Kdl/Lexer/Gap/Skips.antt =====
-- What the lexer skips is white space and comments.
use scrape_kdl.Common.Text.{Bytes}
use scrape_kdl.Common.Utf8.{decode_rune, decode_rune-ascii, decode_rune_newlines, decode_rune_above}
use scrape_kdl.Common.{
  ℕ, zero, suc, ◌+◌, ◌-◌, ◌≤◌, ◌<◌, true, false, not, ◌&&◌, [], ◌∷◌, ◌++◌, ◌≡◌, refl, sym, ap, ◌∙◌,
  arith, if◌then◌else◌, take, drop, length, count, get_or, ltb, ◌==◌, append_assoc, count-append,
  take-append-drop, Bool-cases, inl, inr, if_rule,
}
use scrape_kdl.Kdl.Lexer.Ahead.{Ahead-le, skip-Ahead, skip-lt, at_end-of_length}
use scrape_kdl.Kdl.Lexer.Scan.{skip_line_comment, block_comment_loop, skip_block_comment}
use scrape_kdl.Kdl.Lexer.{Lexer, advance_over, advance, skip, skip_while, at_end, peek, is_nil}
use scrape_kdl.Source.{Position}
use scrape_kdl.Kdl.Lexer.Gap.{
  begins, is_blank, starts_gap, ends_line, behind, Closes, closed, unclosed, opens, closes, passes,
  Gap, blank, line, block,
}

-- What `advance` leaves.
advance_over-behind : (l : Lexer) (s : Bytes) → l.rest ≡ s → (advance_over l s).1.rest ≡ behind s
unfolding advance_over decode_rune
advance_over-behind l [] e = e
advance_over-behind l (b ∷ s) e = refl

skip-behind : (l : Lexer) → (skip l).rest ≡ behind l.rest
unfolding advance
skip-behind l = advance_over-behind l l.rest refl

behind-ascii : (b : ℕ) (s : Bytes) → ltb b 0x80 ≡ true → behind (b ∷ s) ≡ s
behind-ascii b s h = rw (decode_rune-ascii b s h) refl

skip-ascii :
    (l : Lexer) (b : ℕ) (s : Bytes) → l.rest ≡ b ∷ s → ltb b 0x80 ≡ true → (skip l).rest ≡ s
skip-ascii l b s e h = skip-behind l ∙ ap behind e ∙ behind-ascii b s h

-- The two characters of a mark.
skip2-drop :
    (l : Lexer) (a b : ℕ) (s : Bytes)
    → l.rest ≡ s
    → begins a b s ≡ true
    → (ltb a 0x80 && ltb b 0x80 && not (a == 0) && not (b == 0)) ≡ true
    → (skip (skip l)).rest ≡ drop 2 s
skip2-drop l a b [] e h ascii = absurd (ground (arith, h, ascii))
skip2-drop l a b (c ∷ []) e h ascii = absurd (ground (arith, h, ascii))
skip2-drop l a b (c ∷ d ∷ s) e h ascii =
    skip-ascii (skip l) d s (skip-ascii l c (d ∷ s) e (ground (arith, h, ascii)))
      (ground (arith, h, ascii))

is_nil-eq : (s : Bytes) → is_nil s ≡ true → s ≡ []
is_nil-eq [] h = refl
is_nil-eq (c ∷ s) h = absurd cc

skip2-lt : (l : Lexer) → at_end l ≡ false → length (skip (skip l)).rest < length l.rest
skip2-lt l h = omega (arith, skip-lt l h, Ahead-le (skip-Ahead (skip l)))

-- The comment is closed, with `depth` marks open before the current one.
block_comment_loop-Closes :
    (f : ℕ) (start : Position) (n depth : ℕ) (l : Lexer)
    → n ≡ suc depth
    → length l.rest < f
    → Closes (suc depth) l.rest (block_comment_loop f start n l).rest
unfolding block_comment_loop
block_comment_loop-Closes zero start n depth l e h = absurd (omega arith)
block_comment_loop-Closes (suc f) start n depth l e h =
    let P = λ (m : Lexer). Closes (suc depth) l.rest m.rest in
    if_rule P (at_end l) (λ ended. rw (is_nil-eq l.rest ended) unclosed)
      λ inside.
        if_rule P (peek l 0 == b'/' && peek l 1 == b'*')
          (λ open_mark. opens open_mark (
            rw (← skip2-drop l b'/' b'*' l.rest refl open_mark refl) (
              block_comment_loop-Closes f start (n + 1) (suc depth) (skip (skip l)) (omega arith)
                (omega (arith, skip2-lt l inside)))))
          λ no_open.
            if_rule P (peek l 0 == b'*' && peek l 1 == b'/')
              (λ close_mark. closes close_mark (
                rw (← skip2-drop l b'*' b'/' l.rest refl close_mark refl) (
                  closed_mark depth e (skip (skip l)) (λ k same.
                    block_comment_loop-Closes f start (n - 1) k (skip (skip l)) same
                      (omega (arith, skip2-lt l inside))))))
              λ no_close. passes inside no_open no_close (
                rw (← skip-behind l) (
                  block_comment_loop-Closes f start n depth (skip l) e
                    (omega (arith, skip-lt l inside))))
  where
    closed_mark :
        (d : ℕ)
        → n ≡ suc d
        → (m : Lexer)
        → ((k : ℕ)
            → n - 1 ≡ suc k
            → Closes (suc k) m.rest (block_comment_loop f start (n - 1) m).rest)
        → Closes d m.rest (if n == 1 then m else block_comment_loop f start (n - 1) m).rest
    closed_mark zero same m k = let one : (n == 1) ≡ true = ground (arith, same) in rw one closed
    closed_mark (suc d) same m k =
        let more : (n == 1) ≡ false = ground (arith, same) in rw more (k d (omega (arith, same)))

pub skip_block_comment-Closes :
    (start : Position) (l : Lexer)
    → begins b'/' b'*' l.rest ≡ true
    → Closes 1 (drop 2 l.rest) (skip_block_comment start l).rest
unfolding skip_block_comment
skip_block_comment-Closes start l h = rw (← skip2-drop l b'/' b'*' l.rest refl h refl) (
    block_comment_loop-Closes (suc (length (skip (skip l)).rest)) start 1 0 (skip (skip l)) refl
      (omega arith))

-- What a line comment skips: bytes without a new line, up to one or to the end.
abbrev pub LineTo : Bytes → Bytes → Type 0
LineTo from to =
    (comment : Bytes) × (from ≡ comment ++ to) × (count b'\n' comment ≡ 0) × (ends_line to ≡ true)

same_line : (b : ℕ) (s : Bytes) → (b == b'\n') ≡ false → ((decode_rune (b ∷ s)).0 == b'\n') ≡ false
same_line b s h = elim (Bool-cases (ltb b 0x80)) [
  | inl low ↦ rw (decode_rune-ascii b s low) h
  | inr high ↦ ground (arith, decode_rune_above b s high)
]

advance_over-line :
    (l : Lexer) (s : Bytes)
    → l.rest ≡ s
    → is_nil s ≡ false
    → (get_or s 0 0 == b'\n') ≡ false
    → (size : ℕ) × ((advance_over l s).1.rest ≡ drop size s) × (count b'\n' (take size s) ≡ 0)
unfolding advance_over
advance_over-line l [] e inside h = absurd cc
advance_over-line l (b ∷ s) e inside h =
    ((decode_rune (b ∷ s)).1, refl, rw (same_line b s h) at (decode_rune_newlines b s))

skip-line :
    (l : Lexer)
    → at_end l ≡ false
    → (peek l 0 == b'\n') ≡ false
    → (size : ℕ) × ((skip l).rest ≡ drop size l.rest) × (count b'\n' (take size l.rest) ≡ 0)
unfolding advance
skip-line l inside h = advance_over-line l l.rest refl inside h

line_loop-LineTo :
    (f : ℕ) (l : Lexer)
    → length l.rest ≤ f
    → LineTo l.rest (skip_while (λ m. not (at_end m) && not (peek m 0 == b'\n')) f l).rest
unfolding skip_while
line_loop-LineTo zero l h = ([], refl, refl, ground (arith, at_end-of_length l h))
line_loop-LineTo (suc f) l h =
    let P = λ (m : Lexer). LineTo l.rest m.rest in
    if_rule P (not (at_end l) && not (peek l 0 == b'\n'))
      (λ on.
        let inside : at_end l ≡ false = ground (arith, on) in
        let (size, e, none_taken) = skip-line l inside (ground (arith, on)) in
        let (comment, split, no_line, ends) =
          line_loop-LineTo f (skip l) (omega (arith, skip-lt l inside)) in
        (
          take size l.rest ++ comment,
          sym (take-append-drop size l.rest)
              ∙ ap (λ s. take size l.rest ++ s) (sym e ∙ split)
              ∙ sym (append_assoc (take size l.rest) comment _),
          omega (arith, none_taken, no_line, count-append b'\n' (take size l.rest) comment),
          ends,
        ))
      (λ off. ([], refl, refl, ground (arith, off)))

pub skip_line_comment-LineTo : (l : Lexer) → LineTo l.rest (skip_line_comment l).rest
unfolding skip_line_comment
skip_line_comment-LineTo l = line_loop-LineTo (length l.rest) l (omega arith)

blank_over :
    (l : Lexer) (s to : Bytes)
    → l.rest ≡ s
    → is_blank (get_or s 0 0) ≡ true
    → Gap (skip l).rest to
    → Gap s to
blank_over l [] to e h gap = absurd cc
blank_over l (c ∷ s) to e h gap =
    blank c s refl h (rw (skip-ascii l c s e (ground (arith, h))) at gap)

pub blank_first :
    (l : Lexer) (to : Bytes) → is_blank (peek l 0) ≡ true → Gap (skip l).rest to → Gap l.rest to
blank_first l to h gap = blank_over l l.rest to refl h gap

pub line_first :
    (l : Lexer) (to : Bytes)
    → begins b'/' b'/' l.rest ≡ true
    → Gap (skip_line_comment l).rest to
    → Gap l.rest to
line_first l to h gap =
    let (comment, split, no_line, ends) = skip_line_comment-LineTo l in
    line comment (skip_line_comment l).rest h split no_line ends gap

pub block_first :
    (start : Position) (l : Lexer) (to : Bytes)
    → begins b'/' b'*' l.rest ≡ true
    → Gap (skip_block_comment start l).rest to
    → Gap l.rest to
block_first start l to h gap =
    block (skip_block_comment start l).rest h (skip_block_comment-Closes start l h) gap

pub no_gap_at_end : (s : Bytes) → is_nil s ≡ true → starts_gap s ≡ false
no_gap_at_end [] h = refl
no_gap_at_end (c ∷ s) h = absurd cc
