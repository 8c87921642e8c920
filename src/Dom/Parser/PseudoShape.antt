-- ===== src/Dom/Parser/PseudoShape.antt =====
-- The pseudo-classes that `parsePseudo` returns, and the text that it leaves.
use scrape_kdl.Common.Outcome.{Outcome, ok, err}
use scrape_kdl.Common.Space.{trim_space, length-trim_space}
use scrape_kdl.Common.Text.{Bytes, codes, equal}
use scrape_kdl.Common.{
  ℕ, suc, ◌+◌, ◌≤◌, ◌<◌, true, [], ◌∷◌, ◌≡◌, refl, arith, length, ◌==◌, if_both, if_rule,
}
use scrape_kdl.Dom.Parser.Cursor.{
  Cursor, NthError, Parsing, at_end, next_is, step, skip_whitespace, with_byte,
}
use scrape_kdl.Dom.Parser.Nth.{parse_nth}
use scrape_kdl.Dom.Parser.Post.{Ends, Ends-bind, NamedWithin, length-step, parse_identifier-Ends}
use scrape_kdl.Dom.Parser.Pseudo.{
  PseudoSelector, Mode, outside, inside, escaped, next_mode, next_depth, scan_argument, is_simple,
  is_nth, nth_argument, not_argument, apply_argument, after_pseudo_name, parse_pseudo,
}
use scrape_kdl.Dom.Parser.Shape.{takes_argument, is_compound}
use scrape_kdl.Dom.Selector.{CompoundSelector, NthExpression}
use scrape_kdl.Dom.{to_lower}

-- The argument and the text that is left are parts of the text.
abbrev Parts : ℕ → Bytes → ℕ → Type 0
Parts n text m = length text + m ≤ n

with_byte-Parts :
    (b n : ℕ) (r : Parsing Bytes) → Ends (Parts n) r → Ends (Parts (suc n)) (with_byte b r)
with_byte-Parts b n (ok (text, c)) h = omega arith
with_byte-Parts b n (err e) h = h

scan_argument-Ends :
    (mode : Mode) (depth i : ℕ) (s : Bytes) → Ends (Parts (length s)) (scan_argument mode depth i s)
unfolding scan_argument
scan_argument-Ends outside depth i [] = refl
scan_argument-Ends (inside q) depth i [] = refl
scan_argument-Ends (escaped q) depth i [] = refl
scan_argument-Ends (escaped q) depth i (b ∷ s) =
    with_byte-Parts b (length s) _ (scan_argument-Ends (inside q) depth (i + 1) s)
scan_argument-Ends (inside q) depth i (b ∷ s) =
    with_byte-Parts b (length s) _ (scan_argument-Ends _ depth (i + 1) s)
scan_argument-Ends outside depth i (b ∷ s) =
    if_both (Ends (Parts (suc (length s)))) (next_depth b depth == 0)
      {yes = ok ([], record { i = i; rest = b ∷ s })} (omega arith)
      (with_byte-Parts b (length s) _
        (scan_argument-Ends (next_mode b) (next_depth b depth) (i + 1) s))

abbrev pub IsCompound : CompoundSelector → ℕ → Type 0
IsCompound s m = is_compound s ≡ true

abbrev pub ProperPseudo : ℕ → PseudoSelector → ℕ → Type 0
ProperPseudo n p m = (takes_argument p.name p.nth p.negated ≡ true) × (m < n)

-- A parser of compounds that may be trusted on every text shorter than `n`.
abbrev pub ParsesBelow : ℕ → (Bytes → Parsing CompoundSelector) → Type 0
ParsesBelow n nested = (argument : Bytes) → length argument < n → Ends IsCompound (nested argument)

nth_argument-Ends :
    (n : ℕ) (name : Bytes) (c : Cursor) (r : Outcome NthError NthExpression)
    → is_nth name ≡ true
    → length c.rest < n
    → Ends (ProperPseudo n) (nth_argument name c r)
unfolding nth_argument takes_argument
nth_argument-Ends n name c (ok e) h k = (h, k)
nth_argument-Ends n name c (err e) h k = refl

not_argument-Ends :
    (n : ℕ) (name : Bytes) (c : Cursor) (r : Parsing CompoundSelector)
    → Ends IsCompound r
    → equal name (codes "not") ≡ true
    → length c.rest < n
    → Ends (ProperPseudo n) (not_argument name c r)
unfolding not_argument takes_argument
not_argument-Ends n name c (err e) h k le = h
not_argument-Ends n name c (ok (s, d)) h k le =
    if_both (Ends (ProperPseudo n)) (at_end (skip_whitespace d)) (ground arith, le) refl

module _ (n : ℕ) (nested : Bytes → Parsing CompoundSelector) (parses : ParsesBelow n nested)
    (name : Bytes) where
  apply_argument-Ends :
      (argument : Bytes) (c : Cursor)
      → length argument < n
      → length c.rest < n
      → Ends (ProperPseudo n) (apply_argument nested name argument c)
  unfolding apply_argument
  apply_argument-Ends argument c shorter le =
      if_rule (Ends (ProperPseudo n)) (is_nth name)
        (λ h. nth_argument-Ends n name c (parse_nth argument) h le)
        (λ _.
          if_rule (Ends (ProperPseudo n)) (equal name (codes "not"))
            (λ h. not_argument-Ends n name c (nested argument) (parses argument shorter) h le)
            (λ _. refl))

  after_pseudo_name-Ends :
      (c : Cursor) → length c.rest < n → Ends (ProperPseudo n) (after_pseudo_name nested name c)
  unfolding after_pseudo_name takes_argument
  after_pseudo_name-Ends c le =
      if_rule (Ends (ProperPseudo n)) (is_simple name) (λ h. (h, le))
        (λ _.
          if_both (Ends (ProperPseudo n)) (next_is b'(' c)
            (Ends-bind (Parts (length (step c).rest)) (ProperPseudo n) _ _
              (scan_argument-Ends outside 1 (step c).i (step c).rest)
              λ text d parts.
                apply_argument-Ends (trim_space text) (step d)
                  (omega (arith, length-trim_space text, length-step c))
                  (omega (arith, length-step c, length-step d)))
            refl)

pub parse_pseudo-Ends :
    (nested : Bytes → Parsing CompoundSelector) (c : Cursor)
    → ParsesBelow (length c.rest) nested
    → Ends (ProperPseudo (length c.rest)) (parse_pseudo nested c)
unfolding parse_pseudo
parse_pseudo-Ends nested c parses =
    let n = length c.rest in
    if_both (Ends (ProperPseudo n)) (next_is b':' (step c)) refl (
      Ends-bind (NamedWithin (length (step c).rest)) (ProperPseudo n) _ _
        (parse_identifier-Ends (step c))
        λ name d within.
          after_pseudo_name-Ends n nested parses (to_lower name) d
            (omega (arith, within.1, length-step c)))
