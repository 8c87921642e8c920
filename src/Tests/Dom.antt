-- ===== src/Tests/Dom.antt =====
-- A document with two elements in a third, and selectors on it.
use scrape_kdl.Common.Int.{pos, negsuc}
use scrape_kdl.Common.Outcome.{ok}
use scrape_kdl.Common.Space.{is_space, trim_space}
use scrape_kdl.Common.Text.{Bytes, codes, equal}
use scrape_kdl.Common.{
  ℕ, zero, suc, false, all, ltb, refl, List, [], ◌∷◌, none, some, true, ◌≡◌, ◌↔◌, ◌<◌, arith,
}
use scrape_kdl.Dom.Below.{Below, query_all_iff}
use scrape_kdl.Dom.Limit.{cut, query_limit-cut}
use scrape_kdl.Dom.Matches.{IsOrdered, Matches, matches_complex_iff}
use scrape_kdl.Dom.Nth.{nth_matches}
use scrape_kdl.Dom.Parser.Complex.{
  parse_selector, parse_groups, parse_complex, parse_parts, parse_combinator, finish_selector,
}
use scrape_kdl.Dom.Parser.Compound.{
  parse_compound, compound_at, components, add_component, add_class, add_pseudo, append_pseudo,
}
use scrape_kdl.Dom.Parser.Cursor.{
  skip_whitespace, skip_spaces, parse_identifier, identifier_at, read_while, is_ident_start,
  is_ident_continue,
}
use scrape_kdl.Dom.Parser.Pseudo.{
  parse_pseudo, after_pseudo_name, apply_argument, not_argument, scan_argument, is_simple, is_nth,
}
use scrape_kdl.Dom.Parser.WellFormed.{WellParsed, parse_selector-WellParsed}
use scrape_kdl.Dom.Progression.{Reaches, nth_matches_iff}
use scrape_kdl.Dom.Query.{
  seen, children_of, matches_selector, parent_of, previous_of, matches_complex, query_limit,
  query_all,
}
use scrape_kdl.Dom.Selector
use scrape_kdl.Dom.Selector.{
  NthExpression, Combinator, SelectorPart, CompoundSelector, compound, pseudo, nil, negation,
  Selector,
}
use scrape_kdl.Dom.{Node, NodeType, Store, to_lower}
use scrape_kdl.Dom

abbrev plain_node : Node
plain_node = record {
  kind = Dom.document;
  tag = [];
  content = [];
  attrs = [];
  parent = none;
  children = [];
  previous_element = none;
  last_element = none;
  element_index = 0;
  type_index = 0;
  element_count = 0;
  type_counts = [];
}

-- `<ul><li></li><li></li></ul>`
abbrev page : Store
page =
    record plain_node {
      children = 1 ∷ [];
      last_element = some 1;
      element_count = 1;
      type_counts = (codes "ul", 1) ∷ [];
    }
    ∷ record plain_node {
      kind = Dom.element;
      tag = codes "ul";
      parent = some 0;
      children = 2 ∷ 3 ∷ [];
      last_element = some 3;
      element_index = 1;
      type_index = 1;
      element_count = 2;
      type_counts = (codes "li", 2) ∷ [];
    }
    ∷ record plain_node {
      kind = Dom.element;
      tag = codes "li";
      parent = some 1;
      element_index = 1;
      type_index = 1;
    }
    ∷ record plain_node {
      kind = Dom.element;
      tag = codes "li";
      parent = some 1;
      previous_element = some 2;
      element_index = 2;
      type_index = 2;
    }
    ∷ []

abbrev type_part : Combinator → CompoundSelector → SelectorPart
type_part c s = record { combinator = c; compound = s }

abbrev of_type : List ℕ → CompoundSelector
of_type name = compound name false [] [] [] Selector.nil

-- The parts of `ul > li + li`, the last first.
abbrev item_parts : List SelectorPart
item_parts =
    type_part Selector.adjacent (of_type (codes "li"))
    ∷ type_part Selector.child (of_type (codes "li"))
    ∷ type_part Selector.no_combinator (of_type (codes "ul"))
    ∷ []

page-parents : (i j : ℕ) → parent_of page i ≡ some j → j < i
page-parents zero j h = cc
page-parents (suc zero) j h = ground arith
page-parents (suc (suc zero)) j h = ground arith
page-parents (suc (suc (suc zero))) j h = ground arith
page-parents (suc (suc (suc (suc i)))) j h = cc

page-siblings : (i j : ℕ) → previous_of page i ≡ some j → j < i
page-siblings zero j h = cc
page-siblings (suc zero) j h = cc
page-siblings (suc (suc zero)) j h = cc
page-siblings (suc (suc (suc zero))) j h = ground arith
page-siblings (suc (suc (suc (suc i)))) j h = cc

page-IsOrdered : IsOrdered page
page-IsOrdered = record { parent_lt = page-parents; previous_lt = page-siblings }

matches_complex_iff_example :
    (matches_complex page item_parts (some 3) ≡ true) ↔ Matches page item_parts 3
matches_complex_iff_example = matches_complex_iff page page-IsOrdered item_parts 3

-- `li`
abbrev items : Selector
items = (type_part Selector.no_combinator (of_type (codes "li")) ∷ []) ∷ []

query_limit-cut_example :
    query_limit page (some 0) items (pos 1) ≡ cut (pos 1) (query_all page (some 0) items)
query_limit-cut_example = query_limit-cut page (some 0) items (pos 1)

page-children : (i : ℕ) → all (ltb i) (children_of page i) ≡ true
page-children zero = refl
page-children (suc zero) = refl
page-children (suc (suc zero)) = refl
page-children (suc (suc (suc zero))) = refl
page-children (suc (suc (suc (suc i)))) = refl

query_all_iff_example :
    (seen (query_all page (some 0) items) 3 ≡ true)
    ↔ (Below page (children_of page 0) 3 × (matches_selector page items 3 ≡ true))
query_all_iff_example = query_all_iff page (record { children_after = page-children }) 0 items 3

-- `-n+3`
abbrev first_three : NthExpression
first_three = record { a = negsuc 0; b = pos 3 }

nth_matches_iff_example :
    (nth_matches first_three 2 ≡ true) ↔ ((0 < 2) × ((n : ℕ) × Reaches (negsuc 0) (pos 3) n 2))
nth_matches_iff_example = nth_matches_iff first_three 2 (omega arith)

-- `UL > li:not(.a)`, and its parts.
abbrev menu_text : Bytes
menu_text = codes "UL > li:not(.a)"

abbrev menu_selector : Selector
menu_selector =
    (type_part Selector.no_combinator (of_type (codes "ul"))
      ∷ type_part Selector.child (
          compound (codes "li") false [] [] [] (
            pseudo (codes "not") none (negation (compound [] false [] (codes "a" ∷ []) [] nil))
              nil))
      ∷ [])
    ∷ []

parse_selector-menu : parse_selector menu_text ≡ ok menu_selector
unfolding parse_selector parse_groups parse_complex parse_parts parse_combinator parse_compound
    compound_at components add_component add_class add_pseudo parse_pseudo after_pseudo_name
    apply_argument not_argument scan_argument is_simple is_nth append_pseudo finish_selector
    skip_whitespace skip_spaces parse_identifier identifier_at read_while is_ident_start
    is_ident_continue is_space to_lower equal trim_space
parse_selector-menu = refl

parse_selector-WellParsed_example : WellParsed (parse_selector menu_text)
parse_selector-WellParsed_example = parse_selector-WellParsed menu_text
