-- ===== src/Dom/Match.antt =====
-- internal/dom/selector.go: whether an element matches. The parts of a complex selector are given
-- last first, so that the source's `index` is the number of parts behind the head.
use mathlib.Core.List.{reverse}
use scrape_kdl.Common.Space.{Rune, runes, is_space}
use scrape_kdl.Common.Text.{Bytes, codes, equal, has_prefix}
use scrape_kdl.Common.{
  ℕ, ◌+◌, ◌-◌, Bool, true, false, not, ◌&&◌, ◌||◌, List, [], ◌∷◌, ◌++◌, Option, none, some, any,
  all, leb, ◌==◌, if◌then◌else◌,
}
use scrape_kdl.Dom.Nth.{nth_of}
use scrape_kdl.Dom.Selector.{
  AttributeSelector, NthExpression, CompoundSelector, compound, Negation, absent, negation, Pseudos,
  pseudo,
}
use scrape_kdl.Dom.{Node, Store, load, count_of, attr, is_blank_child}

-- Simple folding, as far as it concerns a side that is ASCII: the Kelvin sign folds to `k`, the
-- long s to `s`.
abbrev pub fold : ℕ → ℕ
fold r =
    if leb b'A' r && leb r b'Z'
    then r + 32
    else if r == 0x212A
    then b'k'
    else if r == 0x17F
    then b's'
    else r

unfoldable pub equal_runes : List Rune → List Rune → Bool
equal_runes [] [] = true
equal_runes ((r, _) ∷ rs) ((s, _) ∷ ss) = fold r == fold s && equal_runes rs ss
equal_runes _ _ = false

-- `strings.EqualFold`, of any text and a type name of a selector, which is ASCII.
unfoldable pub equal_fold : Bytes → Bytes → Bool
unfolding equal_runes runes
equal_fold s name = equal_runes (runes s) (runes name)

unfoldable pub fields_of : List Rune → Bytes → List Bytes
unfolding is_space
fields_of [] [] = []
fields_of [] (c ∷ field) = (c ∷ field) ∷ []
fields_of ((r, bs) ∷ rs) field =
    let fresh = fields_of rs [] in
    let longer = fields_of rs (field ++ bs) in if is_space r then close field fresh else longer
  where
    close : Bytes → List Bytes → List Bytes
    close [] rest = rest
    close (c ∷ s) rest = (c ∷ s) ∷ rest

-- `strings.Fields`.
unfoldable pub fields : Bytes → List Bytes
unfolding fields_of runes
fields s = fields_of (runes s) []

unfoldable pub contains : Bytes → Bytes → Bool
unfolding has_prefix
contains [] part = has_prefix [] part
contains (c ∷ s) part = has_prefix (c ∷ s) part || contains s part

abbrev pub attr_or_empty : Option Bytes → Bytes
attr_or_empty none = []
attr_or_empty (some v) = v

unfoldable pub has_class : List Bytes → Bytes → Bool
has_class classes wanted = any (λ c. equal c wanted) classes

-- The function `matchAttribute`, on the attribute's value where it is present.
unfoldable pub match_attribute : Option Bytes → AttributeSelector → Bool
unfolding equal
match_attribute none s = false
match_attribute (some actual) s =
    if equal s.operator []
    then true
    else if equal s.operator (codes "=")
    then equal actual s.value
    else if equal s.operator (codes "~=")
    then any (λ part. equal part s.value) (fields actual)
    else if equal s.operator (codes "|=")
    then equal actual s.value || has_prefix actual (s.value ++ codes "-")
    else if equal s.operator (codes "^=")
    then has_prefix actual s.value
    else if equal s.operator (codes "$=")
    then has_prefix (reverse actual) (reverse s.value)
    else if equal s.operator (codes "*=")
    then contains actual s.value
    else false

-- What a pseudo-class asks of the parent, which must be there.
abbrev pub with_parent : Store → Node → (Node → Bool) → Bool
with_parent store n test = of_parent n.parent
  where
    of_node : Option Node → Bool
    of_node none = false
    of_node (some p) = test p

    of_parent : Option ℕ → Bool
    of_parent none = false
    of_parent (some i) = of_node (load store i)

-- The function `reverseTypePosition`, 0 with no parent.
abbrev pub reverse_type_position : Store → Node → ℕ
reverse_type_position store n = of_parent n.parent
  where
    of_node : Option Node → ℕ
    of_node none = 0
    of_node (some p) = count_of n.tag p.type_counts + 1 - n.type_index

    of_parent : Option ℕ → ℕ
    of_parent none = 0
    of_parent (some i) = of_node (load store i)

unfoldable pub is_empty : Store → Node → Bool
is_empty store n = all (λ i. is_blank_child (load store i)) n.children

-- `matchPseudo` for all pseudo-classes but `not`.
unfoldable pub match_simple : Store → Node → Bytes → Option NthExpression → Bool
unfolding equal
match_simple store n name nth =
    if equal name (codes "first-child")
    then n.element_index == 1
    else if equal name (codes "last-child")
    then with_parent store n (λ p. n.element_index == p.element_count)
    else if equal name (codes "only-child")
    then with_parent store n (λ p. p.element_count == 1)
    else if equal name (codes "empty")
    then is_empty store n
    else if equal name (codes "first-of-type")
    then n.type_index == 1
    else if equal name (codes "last-of-type")
    then reverse_type_position store n == 1
    else if equal name (codes "only-of-type")
    then with_parent store n (λ p. count_of n.tag p.type_counts == 1)
    else if equal name (codes "nth-child")
    then nth_of nth n.element_index
    else if equal name (codes "nth-last-child")
    then with_parent store n (λ p. nth_of nth (p.element_count + 1 - n.element_index))
    else if equal name (codes "nth-of-type")
    then nth_of nth n.type_index
    else if equal name (codes "nth-last-of-type")
    then nth_of nth (reverse_type_position store n)
    else false

-- The tests of `matchesCompound` in front of the pseudo-classes.
unfoldable pub match_plain : Node → Bytes → Bytes → List Bytes → List AttributeSelector → Bool
match_plain n type_name id classes attributes =
    (equal type_name [] || equal_fold n.tag type_name)
    && (equal id [] || is_id (attr n (codes "id")))
    && all (has_class (fields (attr_or_empty (attr n (codes "class"))))) classes
    && all (λ s. match_attribute (attr n s.name) s) attributes
  where
    is_id : Option Bytes → Bool
    is_id none = false
    is_id (some v) = equal v id

-- `matchesCompound` and `matchPseudo`.
unfoldable mutual
  pub matches_compound : Store → Node → CompoundSelector → Bool
  matches_compound store n (compound type_name universal id classes attributes pseudos) =
      match_plain n type_name id classes attributes && match_pseudos store n pseudos

  pub match_pseudos : Store → Node → Pseudos → Bool
  match_pseudos store n Pseudos.nil = true
  match_pseudos store n (pseudo name nth negated rest) =
      (if equal name (codes "not")
        then match_negation store n negated
        else match_simple store n name nth)
      && match_pseudos store n rest

  pub match_negation : Store → Node → Negation → Bool
  match_negation store n absent = false
  match_negation store n (negation c) = not (matches_compound store n c)
