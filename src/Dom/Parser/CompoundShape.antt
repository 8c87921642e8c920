-- ===== src/Dom/Parser/CompoundShape.antt =====
-- The compound selectors that `parseCompound` returns, and the text that it leaves.
use scrape_kdl.Common.Text.{Bytes, equal}
use scrape_kdl.Common.{
  ℕ, zero, suc, ◌≤◌, ◌<◌, Bool, true, false, List, [], ◌∷◌, ◌++◌, ◌≡◌, refl, arith, all-append,
  length, if_both, if_rule,
}
use scrape_kdl.Dom.Parser.AttributeShape.{ProperAttribute, parse_attribute-Ends}
use scrape_kdl.Dom.Parser.Compound.{
  append_pseudo, is_set, add_id, add_class, add_attribute, add_pseudo, continues, add_component,
  components, starts_name, compound_at, parse_compound,
}
use scrape_kdl.Dom.Parser.Cursor.{Cursor, Parsing, next_is, step}
use scrape_kdl.Dom.Parser.Post.{
  Ends, Ends-bind, NamedWithin, Ends-imp, is_named, length-step, length-step-next_is,
  parse_identifier-Ends, to_lower-is_named,
}
use scrape_kdl.Dom.Parser.Pseudo.{PseudoSelector}
use scrape_kdl.Dom.Parser.PseudoShape.{IsCompound, ProperPseudo, ParsesBelow, parse_pseudo-Ends}
use scrape_kdl.Dom.Parser.Shape.{
  is_given, are_given, is_proper_attribute, has_component, is_proper, are_proper, takes_argument,
  is_compound,
}
use scrape_kdl.Dom.Selector.{CompoundSelector, compound, Pseudos, nil, pseudo}

-- A compound selector, and less text than there was.
abbrev pub Compounded : ℕ → CompoundSelector → ℕ → Type 0
Compounded n s m = (is_compound s ≡ true) × (m < n)

append_pseudo-are_proper :
    (ps : Pseudos) (p : PseudoSelector)
    → are_proper ps ≡ true
    → takes_argument p.name p.nth p.negated ≡ true
    → are_proper (append_pseudo ps p) ≡ true
unfolding append_pseudo are_proper
append_pseudo-are_proper nil p h k = ground arith
append_pseudo-are_proper (pseudo name nth negated rest) p h k =
    ground (arith, append_pseudo-are_proper rest p)

append_pseudo-are_given :
    (ps : Pseudos) (p : PseudoSelector) → are_given (append_pseudo ps p) ≡ true
unfolding append_pseudo
append_pseudo-are_given nil p = refl
append_pseudo-are_given (pseudo name nth negated rest) p = refl

append-is_given {ℓ} : {A : Type ℓ} (xs : List A) (x : A) → is_given (xs ++ x ∷ []) ≡ true
append-is_given [] x = refl
append-is_given (y ∷ xs) x = refl

module _ (c : Cursor) where
  add_id-Ends :
      (s : CompoundSelector) → is_proper s ≡ true → Ends (Compounded (length c.rest)) (add_id s c)
  unfolding add_id is_proper
  add_id-Ends (compound type_name universal id classes attributes pseudos) proper =
      Ends-bind (NamedWithin (length (step c).rest)) (Compounded (length c.rest)) _ _
        (parse_identifier-Ends (step c))
        λ name d within.
          if_both (Ends (Compounded (length c.rest))) (is_set id) refl
            (ground (arith, within.0), omega (arith, within.1, length-step c))

  add_class-Ends :
      (s : CompoundSelector)
      → is_proper s ≡ true
      → Ends (Compounded (length c.rest)) (add_class s c)
  unfolding add_class is_proper
  add_class-Ends (compound type_name universal id classes attributes pseudos) proper =
      Ends-bind (NamedWithin (length (step c).rest)) (Compounded (length c.rest)) _ _
        (parse_identifier-Ends (step c))
        λ name d within. (
          ground (
            arith,
            within.0,
            append-is_given classes name,
            all-append is_named classes (name ∷ []),
          ),
          omega (arith, within.1, length-step c),
        )

  add_attribute-Ends :
      (s : CompoundSelector)
      → is_proper s ≡ true
      → Ends (Compounded (length c.rest)) (add_attribute s c)
  unfolding add_attribute is_proper
  add_attribute-Ends (compound type_name universal id classes attributes pseudos) proper =
      Ends-bind (ProperAttribute (length c.rest)) (Compounded (length c.rest)) _ _
        (parse_attribute-Ends c)
        λ a d within. (
          ground (
            arith,
            within.0,
            append-is_given attributes a,
            all-append is_proper_attribute attributes (a ∷ []),
          ),
          within.1,
        )

  module _ (nested : Bytes → Parsing CompoundSelector)
      (parses : ParsesBelow (length c.rest) nested) where
    add_pseudo-Ends :
        (s : CompoundSelector)
        → is_proper s ≡ true
        → Ends (Compounded (length c.rest)) (add_pseudo nested s c)
    unfolding add_pseudo is_proper
    add_pseudo-Ends (compound type_name universal id classes attributes pseudos) proper =
        Ends-bind (ProperPseudo (length c.rest)) (Compounded (length c.rest)) _ _
          (parse_pseudo-Ends nested c parses)
          λ p d within. (
            ground (
              arith,
              within.0,
              append_pseudo-are_given pseudos p,
              append_pseudo-are_proper pseudos p,
            ),
            within.1,
          )

    add_component-Ends :
        (s : CompoundSelector)
        → is_proper s ≡ true
        → Ends (Compounded (length c.rest)) (add_component nested s c)
    unfolding add_component
    add_component-Ends s proper =
        let P = Ends (Compounded (length c.rest)) in
        if_both P (next_is b'#' c) (add_id-Ends s proper) (
          if_both P (next_is b'.' c) (add_class-Ends s proper)
            (if_both P (next_is b'[' c) (add_attribute-Ends s proper) (add_pseudo-Ends s proper)))

-- The loop, with fuel for the text that is left.
components-Ends :
    (nested : Bytes → Parsing CompoundSelector) (n fuel : ℕ) (consumed : Bool)
    (s : CompoundSelector) (c : Cursor)
    → ParsesBelow n nested
    → is_proper s ≡ true
    → length c.rest ≤ n
    → length c.rest < fuel
    → (consumed ≡ true → (has_component s ≡ true) × (length c.rest < n))
    → Ends (Compounded n) (components nested fuel consumed s c)
unfolding components
components-Ends nested n zero consumed s c parses proper le enough k = absurd (omega arith)
components-Ends nested n (suc fuel) consumed s c parses proper le enough k =
    if_both (Ends (Compounded n)) (continues c)
      (Ends-bind (Compounded (length c.rest)) (Compounded n) _ _
        (add_component-Ends c nested (λ argument h. parses argument (omega arith)) s proper)
        λ s' d within.
          components-Ends nested n fuel true s' d parses (ground (arith, within.0))
            (omega (arith, within.1)) (omega (arith, within.1))
            λ _. (ground (arith, within.0), omega (arith, within.1)))
      (if_rule (Ends (Compounded n)) consumed (λ h. (ground (arith, (k h).0), (k h).1)) (λ _. refl))

compound_at-Ends :
    (nested : Bytes → Parsing CompoundSelector) (c : Cursor)
    → ParsesBelow (length c.rest) nested
    → Ends (Compounded (length c.rest)) (compound_at nested c)
unfolding compound_at is_proper equal
compound_at-Ends nested c parses =
    let n = length c.rest in
    if_rule (Ends (Compounded n)) (next_is b'*' c)
      (λ star.
        let shorter = length-step-next_is b'*' c star in
        components-Ends nested n n true _ (step c) parses refl (omega arith) shorter
          λ _. (refl, shorter))
      (λ _.
        if_both (Ends (Compounded n)) (starts_name c)
          (Ends-bind (NamedWithin n) (Compounded n) _ _ (parse_identifier-Ends c) λ name d within.
            components-Ends nested n n true _ d parses refl (omega (arith, within.1)) within.1
              λ _. (ground (arith, to_lower-is_named name within.0), within.1))
          (components-Ends nested n (suc n) false _ c parses refl (omega arith) (omega arith)
            λ h. absurd cc))

-- The text of a nested negation is shorter, so fuel for the text is fuel for its depth.
pub parse_compound-Ends :
    (fuel : ℕ) (c : Cursor)
    → length c.rest < fuel
    → Ends (Compounded (length c.rest)) (parse_compound fuel c)
unfolding parse_compound
parse_compound-Ends zero c h = absurd (omega arith)
parse_compound-Ends (suc fuel) c h = compound_at-Ends _ c λ argument shorter.
    Ends-imp (Compounded (length argument)) IsCompound _ (λ s m p. p.0)
      (parse_compound-Ends fuel (record { i = 0; rest = argument }) (omega arith))
