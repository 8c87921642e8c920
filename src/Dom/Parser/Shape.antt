-- ===== src/Dom/Parser/Shape.antt =====
-- The shape of the selectors that the parser returns.
use scrape_kdl.Common.Text.{Bytes, codes, equal}
use scrape_kdl.Common.{
  Bool, true, false, not, ◌&&◌, ◌||◌, List, [], ◌∷◌, Option, none, some, all, any,
}
use scrape_kdl.Dom.Parser.Attribute.{operators}
use scrape_kdl.Dom.Parser.Post.{is_named}
use scrape_kdl.Dom.Parser.Pseudo.{is_simple, is_nth}
use scrape_kdl.Dom.Selector.{
  AttributeSelector, NthExpression, CompoundSelector, compound, Negation, absent, negation, Pseudos,
  nil, pseudo, Combinator, no_combinator, SelectorPart, ComplexSelector, Selector,
}

-- Only a name, or a name with an operator of the language.
abbrev pub is_proper_attribute : AttributeSelector → Bool
is_proper_attribute a =
    is_named a.name && (any (equal a.operator) operators || equal a.operator [] && equal a.value [])

abbrev pub is_given {ℓ} : {A : Type ℓ} → List A → Bool
is_given [] = false
is_given (x ∷ xs) = true

abbrev pub are_given : Pseudos → Bool
are_given nil = false
are_given (pseudo name nth negated rest) = true

-- At least one component: `consumed` of the source.
abbrev pub has_component : CompoundSelector → Bool
has_component (compound type_name universal id classes attributes pseudos) =
    universal
    || is_named type_name
    || is_named id
    || is_given classes
    || is_given attributes
    || are_given pseudos

-- No type beside `*`, names that are not empty, and pseudo-classes with the argument they take.
unfoldable mutual
  pub is_proper : CompoundSelector → Bool
  is_proper (compound type_name universal id classes attributes pseudos) =
      not (universal && is_named type_name)
      && all is_named classes
      && all is_proper_attribute attributes
      && are_proper pseudos

  pub are_proper : Pseudos → Bool
  are_proper nil = true
  are_proper (pseudo name nth negated rest) = takes_argument name nth negated && are_proper rest

  pub takes_argument : Bytes → Option NthExpression → Negation → Bool
  takes_argument name none absent = is_simple name
  takes_argument name (some e) absent = is_nth name
  takes_argument name none (negation s) =
      equal name (codes "not") && (has_component s && is_proper s)
  takes_argument name (some e) (negation s) = false

abbrev pub is_compound : CompoundSelector → Bool
is_compound s = has_component s && is_proper s

abbrev pub is_relation : Combinator → Bool
is_relation no_combinator = false
is_relation _ = true

abbrev pub is_part : SelectorPart → Bool
is_part p = is_relation p.combinator && is_compound p.compound

-- A first compound without a combinator, and the others with one.
abbrev pub is_complex : ComplexSelector → Bool
is_complex [] = false
is_complex (first ∷ parts) =
    not (is_relation first.combinator) && is_compound first.compound && all is_part parts

abbrev pub is_selector : Selector → Bool
is_selector s = is_given s && all is_complex s
