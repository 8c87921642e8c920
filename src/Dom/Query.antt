-- ===== src/Dom/Query.antt =====
-- internal/dom/selector.go: `matchesComplex`, `QueryLimit` and `QueryAll`. A loop along pointers
-- takes the number of nodes as fuel, and the walk of the tree does so for its depth.
use mathlib.Core.List.{reverse}
use scrape_kdl.Common.Int.{ℤ, pos, negsuc}
use scrape_kdl.Common.{
  ℕ, zero, suc, Bool, true, false, not, ◌&&◌, List, [], ◌∷◌, ◌++◌, Option, none, some, length, any,
  leb, ltb, ◌==◌, if◌then◌else◌,
}
use scrape_kdl.Dom.Match.{matches_compound}
use scrape_kdl.Dom.Selector.{
  Combinator, no_combinator, descendant, child, adjacent, general_sibling, SelectorPart, Selector,
}
use scrape_kdl.Dom.{Node, Store, load, is_element, is_document}

abbrev pub parent_of : Store → ℕ → Option ℕ
parent_of store i = of_node (load store i)
  where
    of_node : Option Node → Option ℕ
    of_node none = none
    of_node (some n) = n.parent

-- The method `PreviousElementSibling`.
abbrev pub previous_of : Store → ℕ → Option ℕ
previous_of store i = of_node (load store i)
  where
    of_node : Option Node → Option ℕ
    of_node none = none
    of_node (some n) = n.previous_element

abbrev pub children_of : Store → ℕ → List ℕ
children_of store i = of_node (load store i)
  where
    of_node : Option Node → List ℕ
    of_node none = []
    of_node (some n) = n.children

abbrev pub is_document_at : Store → ℕ → Bool
is_document_at store i = of_node (load store i)
  where
    of_node : Option Node → Bool
    of_node none = false
    of_node (some n) = is_document n

abbrev pub is_element_at : Store → ℕ → Bool
is_element_at store i = of_node (load store i)
  where
    of_node : Option Node → Bool
    of_node none = false
    of_node (some n) = is_element n

-- The nodes of `for at != nil && !stop(at) { ...; at = next(at) }`.
unfoldable pub chain : (ℕ → Option ℕ) → (ℕ → Bool) → ℕ → Option ℕ → List ℕ
chain next stop zero at = []
chain next stop (suc f) none = []
chain next stop (suc f) (some i) =
    let rest = chain next stop f (next i) in if stop i then [] else i ∷ rest

abbrev pub ancestors : Store → ℕ → List ℕ
ancestors store i =
    chain (parent_of store) (is_document_at store) (length store) (parent_of store i)

abbrev pub siblings_before : Store → ℕ → List ℕ
siblings_before store i =
    chain (previous_of store) (λ _. false) (length store) (previous_of store i)

-- The type test and the compound selector of one part.
unfoldable pub matches_part : Store → SelectorPart → ℕ → Bool
matches_part store p i = of_node (load store i)
  where
    of_node : Option Node → Bool
    of_node none = false
    of_node (some n) = is_element n && matches_compound store n p.compound

-- `case ChildCombinator`, of the parent; `before` is the match of the parts in front.
unfoldable pub match_parent : Store → (Option ℕ → Bool) → Option ℕ → Bool
match_parent store before none = before none
match_parent store before (some j) = if is_document_at store j then false else before (some j)

-- The `switch` on the combinator.
unfoldable pub match_related : Store → Combinator → (Option ℕ → Bool) → ℕ → Bool
match_related store child before i = match_parent store before (parent_of store i)
match_related store descendant before i = any (λ j. before (some j)) (ancestors store i)
match_related store adjacent before i = before (previous_of store i)
match_related store general_sibling before i = any (λ j. before (some j)) (siblings_before store i)
match_related store no_combinator before i = false

-- The function `matchesComplex`, on the parts up to `index`, last first.
unfoldable pub matches_complex : Store → List SelectorPart → Option ℕ → Bool
matches_complex store parts none = false
matches_complex store [] (some i) = false
matches_complex store (p ∷ []) (some i) = matches_part store p i
matches_complex store (p ∷ q ∷ ps) (some i) =
    let before = matches_complex store (q ∷ ps) in
    matches_part store p i && match_related store p.combinator before i

-- The loop over the groups of a selector.
unfoldable pub matches_selector : Store → Selector → ℕ → Bool
matches_selector store selector i =
    any (λ group. matches_complex store (reverse group) (some i)) selector

-- `limit > 0 && len(result) >= limit`.
abbrev pub reached : ℤ → ℕ → Bool
reached (pos limit) found = ltb 0 limit && leb limit found
reached (negsuc limit) found = false

abbrev pub seen : List ℕ → ℕ → Bool
seen result i = any (λ j. j == i) result

-- The result with a child that matches and that is not in it yet, and whether this ends the walk.
unfoldable pub collect : ℤ → (ℕ → Bool) → ℕ → List ℕ → List ℕ × Bool
collect limit test i result =
    if test i && not (seen result i)
    then (result ++ i ∷ [], reached limit (length (result ++ i ∷ [])))
    else (result, false)

-- Goes on with a walk that has not ended.
abbrev pub unless_ended : List ℕ × Bool → (List ℕ → List ℕ × Bool) → List ℕ × Bool
unless_ended (result, true) go_on = (result, true)
unless_ended (result, false) go_on = go_on result

-- The closure `walk`: its loop over the children, each followed by its own children.
unfoldable pub walk : ℕ → Store → ℤ → (ℕ → Bool) → List ℕ → List ℕ → List ℕ × Bool
walk zero store limit test children result = (result, false)
walk (suc f) store limit test [] result = (result, false)
walk (suc f) store limit test (i ∷ is) result =
    let below = λ (r : List ℕ). walk f store limit test (children_of store i) r in
    let rest = λ (r : List ℕ). walk (suc f) store limit test is r in
    if is_element_at store i
    then unless_ended (unless_ended (collect limit test i result) below) rest
    else rest result

unfoldable pub query_limit : Store → Option ℕ → Selector → ℤ → List ℕ
query_limit store none selector limit = []
query_limit store (some root) selector limit =
    (walk (length store) store limit (matches_selector store selector) (children_of store root)
      []).0

unfoldable pub query_all : Store → Option ℕ → Selector → List ℕ
query_all store root selector = query_limit store root selector (pos 0)
