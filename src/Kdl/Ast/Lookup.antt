-- ===== src/Kdl/Ast/Lookup.antt =====
-- Looking up the properties of a node.
use mathlib.Core.List.{reverse, reverse-cons}
use scrape_kdl.Common.Text.{Bytes, equal}
use scrape_kdl.Common.{
  List, [], ◌∷◌, ◌++◌, Option, none, some, ◌≡◌, refl, sym, ap, ◌∙◌, arith, Bool-cases, inl, inr,
}
use scrape_kdl.Kdl.Ast.{
  Property, Value, Node, node_properties, find_named, property, named, properties_named,
}

-- The value of the last property of a list.
abbrev pub last_value : List Property → Option Value
last_value [] = none
last_value (p ∷ []) = some p.value
last_value (p ∷ q ∷ ps) = last_value (q ∷ ps)

abbrev or_else : Option Value → Option Value → Option Value
or_else (some v) w = some v
or_else none w = w

or_else-none : (o : Option Value) → or_else o none ≡ o
or_else-none none = refl
or_else-none (some v) = refl

find_named-append :
    (name : Bytes) (ps qs : List Property)
    → find_named name (ps ++ qs) ≡ or_else (find_named name ps) (find_named name qs)
unfolding find_named
find_named-append name [] qs = refl
find_named-append name (p ∷ ps) qs = ground (arith, find_named-append name ps qs)

last_value-cons :
    (p : Property) (ps : List Property)
    → last_value (p ∷ ps) ≡ or_else (last_value ps) (some p.value)
last_value-cons p [] = refl
last_value-cons p (q ∷ []) = refl
last_value-cons p (q ∷ r ∷ ps) = last_value-cons p (r ∷ ps)

last_value-named_cons :
    (name : Bytes) (p : Property) (ps : List Property)
    → last_value (named (λ q. q.name) name (p ∷ ps))
      ≡ or_else (last_value (named (λ q. q.name) name ps)) (find_named name (p ∷ []))
unfolding find_named named
last_value-named_cons name p ps = elim (Bool-cases (equal p.name name)) [
  | inl same ↦ rw same (last_value-cons p (named (λ q. q.name) name ps))
  | inr differs ↦ rw differs (sym (or_else-none (last_value (named (λ q. q.name) name ps))))
]

find_named-reverse :
    (name : Bytes) (ps : List Property)
    → find_named name (reverse ps) ≡ last_value (named (λ p. p.name) name ps)
unfolding find_named
find_named-reverse name [] = unfold named in refl
find_named-reverse name (p ∷ ps) =
    ap (find_named name) (reverse-cons p ps)
    ∙ find_named-append name (reverse ps) (p ∷ [])
    ∙ ap (λ o. or_else o (find_named name (p ∷ []))) (find_named-reverse name ps)
    ∙ sym (last_value-named_cons name p ps)

-- `Property` returns the value of the last of the properties that `PropertiesNamed` returns, and
-- nothing where that list is empty.
pub property-eq-last_value :
    (n : Node) (name : Bytes) → property n name ≡ last_value (properties_named n name)
unfolding property properties_named
property-eq-last_value n name = find_named-reverse name (node_properties n)
