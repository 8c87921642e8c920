-- ===== src/Kdl/Lexer/Gap.antt =====
-- White space and comments in front of a token, described by the text alone.
pub mod Skips
use scrape_kdl.Common.Text.{Bytes}
use scrape_kdl.Common.Utf8.{decode_rune, decode_rune-ascii, decode_rune_newlines, decode_rune_above}
use scrape_kdl.Common.{
  ℕ, zero, suc, ◌+◌, ◌-◌, ◌≤◌, ◌<◌, Bool, true, false, not, ◌&&◌, ◌||◌, [], ◌∷◌, ◌++◌, ◌≡◌, refl,
  sym, ap, ◌∙◌, arith, if◌then◌else◌, take, drop, length, count, get_or, ltb, ◌==◌, append_assoc,
  count-append, take-append-drop, Bool-cases, inl, inr, if_rule,
}
use scrape_kdl.Kdl.Lexer.Ahead.{Ahead-le, skip-Ahead, skip-lt, at_end-of_length}
use scrape_kdl.Kdl.Lexer.Scan.{skip_line_comment, block_comment_loop, skip_block_comment}
use scrape_kdl.Kdl.Lexer.{Lexer, advance_over, advance, skip, skip_while, at_end, peek, is_nil}
use scrape_kdl.Source.{Position}

-- A text begins with these two characters.
abbrev pub begins : ℕ → ℕ → Bytes → Bool
begins a b s = get_or s 0 0 == a && get_or s 1 0 == b

-- A space, a tab or a carriage return.
abbrev pub is_blank : ℕ → Bool
is_blank c = c == b' ' || c == b'\t' || c == b'\r'

-- White space or a comment stands at the front of a text.
abbrev pub starts_gap : Bytes → Bool
starts_gap s = is_blank (get_or s 0 0) || begins b'/' b'/' s || begins b'/' b'*' s

-- The end of the text, or a new line.
abbrev pub ends_line : Bytes → Bool
ends_line s = is_nil s || get_or s 0 0 == b'\n'

-- Behind the first character of a text in UTF-8.
abbrev pub behind : Bytes → Bytes
behind s = drop (decode_rune s).1 s

-- `Closes depth from to`: with that many comments open, the text `from` closes them all in front of
-- `to`, or ends without closing them.
pub data Closes : ℕ → Bytes → Bytes → Type 0 where
  closed : {to : Bytes} → Closes 0 to to
  unclosed : {depth : ℕ} → Closes (suc depth) [] []
  opens :
      {depth : ℕ} {from to : Bytes}
      → begins b'/' b'*' from ≡ true
      → Closes (suc (suc depth)) (drop 2 from) to
      → Closes (suc depth) from to
  closes :
      {depth : ℕ} {from to : Bytes}
      → begins b'*' b'/' from ≡ true
      → Closes depth (drop 2 from) to
      → Closes (suc depth) from to
  passes :
      {depth : ℕ} {from to : Bytes}
      → is_nil from ≡ false
      → begins b'/' b'*' from ≡ false
      → begins b'*' b'/' from ≡ false
      → Closes (suc depth) (behind from) to
      → Closes (suc depth) from to

-- `Gap from to`: the text `from` is white space and whole comments, and then `to`. A comment of a line
-- ends in front of the new line, and a block comment, in which others may stand, behind the mark
-- that closes it.
pub data Gap : Bytes → Bytes → Type 0 where
  stop : {to : Bytes} → Gap to to
  blank :
      {from to : Bytes} (c : ℕ) (s : Bytes)
      → from ≡ c ∷ s
      → is_blank c ≡ true
      → Gap s to
      → Gap from to
  line :
      {from to : Bytes} (comment s : Bytes)
      → begins b'/' b'/' from ≡ true
      → from ≡ comment ++ s
      → count b'\n' comment ≡ 0
      → ends_line s ≡ true
      → Gap s to
      → Gap from to
  block :
      {from to : Bytes} (s : Bytes)
      → begins b'/' b'*' from ≡ true
      → Closes 1 (drop 2 from) s
      → Gap s to
      → Gap from to
