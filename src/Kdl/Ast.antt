-- ===== src/Kdl/Ast.antt =====
-- internal/kdl/ast.go: values, properties, nodes and documents.
pub mod Lookup
use mathlib.Core.List.{reverse}
use scrape_kdl.Common.Text.{Bytes, equal}
use scrape_kdl.Common.{Bool, true, false, List, [], ◌∷◌, ◌++◌, Option, none, some, if◌then◌else◌}
use scrape_kdl.Kdl.Token.{TokenKind, TokenValue}
use scrape_kdl.Source.{Span}

pub data ValueKind : Type 0 where
  string int float bool null : ValueKind

pub record Value : Type 0 where
  pub kind : ValueKind
  pub raw : Bytes
  pub value : TokenValue
  pub span : Span

pub record Property : Type 0 where
  pub name : Bytes
  pub value : Value
  pub span : Span

-- The struct `Node`; `Nodes` is the slice of its children.
mutual
  pub data Node : Type 0 where
    node :
        (name : Bytes) (arguments : List Value) (properties : List Property) (children : Nodes)
        (span : Span)
        → Node

  pub data Nodes : Type 0 where
    nil : Nodes
    cons : Node → Nodes → Nodes

abbrev pub node_name : Node → Bytes
node_name (node name arguments properties children span) = name

abbrev pub node_properties : Node → List Property
node_properties (node name arguments properties children span) = properties

abbrev pub node_children : Node → List Node
node_children (node name arguments properties children span) = to_list children
  where
    to_list : Nodes → List Node
    to_list nil = []
    to_list (cons n ns) = n ∷ to_list ns

-- `append(nodes, n)`.
unfoldable pub append_node : Nodes → Node → Nodes
append_node nil n = cons n nil
append_node (cons m ms) n = cons m (append_node ms n)

unfoldable pub find_named : Bytes → List Property → Option Value
unfolding equal
find_named name [] = none
find_named name (p ∷ ps) =
    let rest = find_named name ps in if equal p.name name then some p.value else rest

-- The method `Property`: of several properties of one name the last one counts.
unfoldable pub property : Node → Bytes → Option Value
unfolding find_named
property n name = find_named name (reverse (node_properties n))

unfoldable pub named {ℓ} : {A : Type ℓ} → (A → Bytes) → Bytes → List A → List A
named of name [] = []
named of name (x ∷ xs) = let rest = named of name xs in if equal (of x) name then x ∷ rest else rest

unfoldable pub properties_named : Node → Bytes → List Property
unfolding named
properties_named n name = named (λ p. p.name) name (node_properties n)

unfoldable pub children_named : Node → Bytes → List Node
unfolding named
children_named n name = named node_name name (node_children n)

pub record Document : Type 0 where
  pub path : Bytes
  pub nodes : Nodes
  pub span : Span
