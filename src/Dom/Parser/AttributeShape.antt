-- ===== src/Dom/Parser/AttributeShape.antt =====
-- The attributes that `parseAttribute` returns, and the text that it leaves.
use scrape_kdl.Common.Text.{Bytes, equal, equal_refl, has_prefix}
use scrape_kdl.Common.{
  ℕ, ◌+◌, ◌≤◌, ◌<◌, true, false, ◌&&◌, ◌||◌, List, [], ◌∷◌, ◌≡◌, refl, arith, drop, any, length,
  length-drop, ◌==◌, if_both, if_rule,
}
use scrape_kdl.Dom.Parser.Attribute.{
  quoted_value, value_at, parse_attribute_value, operators, find_operator, is_flag, some_value,
  is_value_byte, close_attribute, close_value, operator_and_value, after_name, parse_attribute,
}
use scrape_kdl.Dom.Parser.Cursor.{Cursor, at_end, next_is, step, skip_whitespace, moved, read_while}
use scrape_kdl.Dom.Parser.Post.{
  Ends, Ends-bind, Within, NamedWithin, is_named, length-skip_whitespace, length-step,
  length-read_while, parse_identifier-Ends, to_lower-is_named, with_byte-Ends,
}
use scrape_kdl.Dom.Parser.Shape.{is_proper_attribute}
use scrape_kdl.Dom.Selector.{AttributeSelector}
use scrape_kdl.Dom.{to_lower}

quoted_value-Ends : (n q i : ℕ) (s : Bytes) → length s ≤ n → Ends (Within n) (quoted_value q i s)
unfolding quoted_value
quoted_value-Ends n q i [] h = refl
quoted_value-Ends n q i (b ∷ []) h =
    if_both (Ends (Within n)) (b == q) (omega arith)
      (if_both (Ends (Within n)) (b == b'\\') refl refl)
quoted_value-Ends n q i (b ∷ d ∷ s) h = if_both (Ends (Within n)) (b == q) (omega arith) (
    if_both (Ends (Within n)) (b == b'\\')
      (with_byte-Ends d n _ (quoted_value-Ends n q (i + 2) s (omega arith)))
      (with_byte-Ends b n _ (quoted_value-Ends n q (i + 1) (d ∷ s) (omega arith))))

some_value-Ends :
    (n : ℕ) (start : Cursor) (r : Bytes × Cursor)
    → length r.1.rest ≤ n
    → Ends (Within n) (some_value start r)
some_value-Ends n start ([], c) h = refl
some_value-Ends n start (b ∷ text, c) h = h

value_at-Ends : (n i : ℕ) (s : Bytes) → length s ≤ n → Ends (Within n) (value_at i s)
unfolding value_at
value_at-Ends n i [] h = refl
value_at-Ends n i (b ∷ s) h =
    if_both (Ends (Within n)) (b == b'\'' || b == b'"')
      (quoted_value-Ends n b (i + 1) s (omega arith))
      (some_value-Ends n (record { i = i; rest = b ∷ s }) (read_while is_value_byte i (b ∷ s))
        (omega (arith, length-read_while is_value_byte i (b ∷ s))))

parse_attribute_value-Ends :
    (n : ℕ) (c : Cursor) → length c.rest ≤ n → Ends (Within n) (parse_attribute_value c)
unfolding parse_attribute_value
parse_attribute_value-Ends n c h = value_at-Ends n c.i c.rest h

-- The operator that is found is one of the candidates.
find_operator-any :
    (os : List Bytes) (s : Bytes)
    → (length (find_operator os s) == 0) ≡ false
    → any (equal (find_operator os s)) os ≡ true
unfolding find_operator
find_operator-any [] s h = absurd cc
find_operator-any (o ∷ os) s h =
    if_rule (λ found. (length found == 0) ≡ false → any (equal found) (o ∷ os) ≡ true)
      (has_prefix s o) (λ _ _. rw (equal_refl o) refl)
      (λ _ h'. ground (arith, find_operator-any os s h')) h

abbrev pub ProperAttribute : ℕ → AttributeSelector → ℕ → Type 0
ProperAttribute n a m = (is_proper_attribute a ≡ true) × (m < n)

module _ (n : ℕ) (a : AttributeSelector) (proper : is_proper_attribute a ≡ true) where
  close_attribute-Ends :
      (c : Cursor) → length c.rest < n → Ends (ProperAttribute n) (close_attribute a c)
  unfolding close_attribute
  close_attribute-Ends c h =
      if_both (Ends (ProperAttribute n)) (next_is b']' c) (proper, omega (arith, length-step c))
        refl

  close_value-Ends : (c : Cursor) → length c.rest < n → Ends (ProperAttribute n) (close_value a c)
  unfolding close_value
  close_value-Ends behind h =
      let c = skip_whitespace behind in
      let d = skip_whitespace (step c) in
      if_both (Ends (ProperAttribute n)) (moved behind c && is_flag c)
        (if_both (Ends (ProperAttribute n)) (next_is b']' d) refl (
          close_attribute-Ends d (
            omega (
              arith,
              length-skip_whitespace behind,
              length-step c,
              length-skip_whitespace (step c),
            ))))
        (close_attribute-Ends c (omega (arith, length-skip_whitespace behind)))

operator_and_value-Ends :
    (n : ℕ) (name : Bytes) (c : Cursor)
    → is_named name ≡ true
    → length c.rest < n
    → Ends (ProperAttribute n) (operator_and_value name c)
unfolding operator_and_value
operator_and_value-Ends n name c named h =
    let op = find_operator operators c.rest in
    let behind : Cursor = record { i = c.i + length op; rest = drop (length op) c.rest } in
    if_rule (Ends (ProperAttribute n)) (length op == 0) (λ _. refl)
      (λ found.
        Ends-bind (Within (length c.rest)) (ProperAttribute n) _ _
          (parse_attribute_value-Ends (length c.rest) (skip_whitespace behind)
            (omega (arith, length-skip_whitespace behind, length-drop (length op) c.rest)))
          λ text d le.
            close_value-Ends n _ (ground (arith, find_operator-any operators c.rest found)) d
              (omega arith))

after_name-Ends :
    (n : ℕ) (name : Bytes) (c : Cursor)
    → is_named name ≡ true
    → length c.rest < n
    → Ends (ProperAttribute n) (after_name name c)
unfolding after_name equal
after_name-Ends n name c named h = if_both (Ends (ProperAttribute n)) (at_end c) refl (
    if_both (Ends (ProperAttribute n)) (next_is b']' c) (ground arith, omega (arith, length-step c))
      (operator_and_value-Ends n name c named h))

pub parse_attribute-Ends : (c : Cursor) → Ends (ProperAttribute (length c.rest)) (parse_attribute c)
unfolding parse_attribute
parse_attribute-Ends c =
    let start = skip_whitespace (step c) in
    Ends-bind (NamedWithin (length start.rest)) (ProperAttribute (length c.rest)) _ _
      (parse_identifier-Ends start)
      λ name d within.
        after_name-Ends (length c.rest) (to_lower name) (skip_whitespace d)
          (to_lower-is_named name within.0)
          (omega (
            arith,
            within.1,
            length-step c,
            length-skip_whitespace (step c),
            length-skip_whitespace d,
          ))
