-- ===== src/Dom/Selector.antt =====
-- internal/dom/selector.go: the syntax of selectors.
use scrape_kdl.Common.Int.{ℤ}
use scrape_kdl.Common.Text.{Bytes}
use scrape_kdl.Common.{Bool, List, Option}

pub data Combinator : Type 0 where
  no_combinator descendant child adjacent general_sibling : Combinator

pub record AttributeSelector : Type 0 where
  pub name : Bytes
  pub operator : Bytes
  pub value : Bytes

-- A * n + B.
pub record NthExpression : Type 0 where
  pub a : ℤ
  pub b : ℤ

-- A compound selector holds its pseudo-classes, and `:not` holds a compound selector; `absent` is
-- a negation whose pointer is nil.
mutual
  pub data CompoundSelector : Type 0 where
    compound :
        (type_name : Bytes) (universal : Bool) (id : Bytes) (classes : List Bytes)
        (attributes : List AttributeSelector) (pseudos : Pseudos)
        → CompoundSelector

  pub data Negation : Type 0 where
    absent : Negation
    negation : CompoundSelector → Negation

  pub data Pseudos : Type 0 where
    nil : Pseudos
    pseudo :
        (name : Bytes) (nth : Option NthExpression) (negated : Negation) (rest : Pseudos) → Pseudos

pub record SelectorPart : Type 0 where
  pub combinator : Combinator
  pub compound : CompoundSelector

abbrev pub ComplexSelector : Type 0
ComplexSelector = List SelectorPart

abbrev pub Selector : Type 0
Selector = List ComplexSelector
