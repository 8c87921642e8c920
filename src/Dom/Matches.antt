-- ===== src/Dom/Matches.antt =====
-- `matchesComplex` against the meaning of a complex selector: a chain of elements, one for each
-- part, each related to the one in front as the combinator between them says.
use scrape_kdl.Common.{
  ℕ, zero, suc, ◌≤◌, ◌<◌, Bool, true, false, List, [], ◌∷◌, Option, none, some, length, any, ◌≡◌,
  ◌↔◌, refl, arith, Bool-cases, Option-cases, inl, inr,
}
use scrape_kdl.Dom.Query.{
  parent_of, previous_of, is_document_at, chain, matches_part, match_parent, match_related,
  matches_complex,
}
use scrape_kdl.Dom.Selector.{
  Combinator, no_combinator, descendant, child, adjacent, general_sibling, SelectorPart,
}
use scrape_kdl.Dom.{Node, Store, load}

-- `j` is behind `i` along the pointers `next`, in front of what stops them.
pub data Along (next : ℕ → Option ℕ) (stop : ℕ → Bool) : ℕ → ℕ → Type 0 where
  one : (i j : ℕ) → next i ≡ some j → stop j ≡ false → Along next stop i j
  step : (i j k : ℕ) → next i ≡ some j → stop j ≡ false → Along next stop j k → Along next stop i k

-- How the elements of two neighbouring parts are related, by the combinator between them.
abbrev pub Related : Store → Combinator → ℕ → ℕ → Type 0
Related store child i j = (parent_of store i ≡ some j) × (is_document_at store j ≡ false)
Related store descendant i j = Along (parent_of store) (is_document_at store) i j
Related store adjacent i j = previous_of store i ≡ some j
Related store general_sibling i j = Along (previous_of store) (λ _. false) i j
Related store no_combinator i j = ⊥

-- The element at `i` matches the parts, which are given last first.
abbrev pub Matches : Store → List SelectorPart → ℕ → Type 0
Matches store [] i = ⊥
Matches store (p ∷ []) i = matches_part store p i ≡ true
Matches store (p ∷ q ∷ ps) i =
    (matches_part store p i ≡ true)
    × ((j : ℕ) × Related store p.combinator i j × Matches store (q ∷ ps) j)

-- The pointers to parents and to earlier siblings lead to nodes that stand earlier in the store,
-- as in a store that lists the nodes of a document in order.
pub record IsOrdered (store : Store) : Type 0 where
  pub parent_lt : (i j : ℕ) → parent_of store i ≡ some j → j < i
  pub previous_lt : (i j : ℕ) → previous_of store i ≡ some j → j < i

abbrev Found : (ℕ → Option ℕ) → (ℕ → Bool) → (ℕ → Bool) → ℕ → Type 0
Found next stop p i = (j : ℕ) × Along next stop i j × (p j ≡ true)

-- Whether some node that a loop along `next` passes satisfies `p`, for the loop at a pointer.
chain-Found :
    (next : ℕ → Option ℕ) (stop p : ℕ → Bool) (f i : ℕ) (at : Option ℕ)
    → next i ≡ at
    → any p (chain next stop f at) ≡ true
    → Found next stop p i
unfolding chain
chain-Found next stop p zero i at e h = cc
chain-Found next stop p (suc f) i none e h = cc
chain-Found next stop p (suc f) i (some j) e h = elim (Bool-cases (stop j)) [
  | inl stops ↦ cc
  | inr goes ↦ elim (Bool-cases (p j)) [
    | inl holds ↦ (j, one i j e goes, holds)
    | inr fails ↦
        let later : any p (chain next stop f (next j)) ≡ true = ground arith in
        let (k, along, holds) = chain-Found next stop p f j (next j) refl later in
        (k, step i j k e goes along, holds)
  ]
]

Along-chain :
    (next : ℕ → Option ℕ) (stop p : ℕ → Bool) (f i j : ℕ)
    → ((m n : ℕ) → next m ≡ some n → n < m)
    → i ≤ f
    → Along next stop i j
    → p j ≡ true
    → any p (chain next stop f (next i)) ≡ true
unfolding chain
Along-chain next stop p zero i j lt le (one _ _ e s) h = absurd (omega (arith, lt i j e))
Along-chain next stop p zero i j lt le (step _ k _ e s a) h = absurd (omega (arith, lt i k e))
Along-chain next stop p (suc f) i j lt le (one _ _ e s) h = rw (e, s, h) refl
Along-chain next stop p (suc f) i j lt le (step _ k _ e s a) h =
    rw (e, s) (ground (arith, Along-chain next stop p f k j lt (omega (arith, lt i k e)) a h))

pub load-lt : (store : Store) (i : ℕ) (n : Node) → load store i ≡ some n → i < length store
load-lt [] i n h = cc
load-lt (m ∷ store) zero n h = omega arith
load-lt (m ∷ store) (suc i) n h = omega (arith, load-lt store i n h)

-- A test of a pointer that fails on nil, as a statement about the node that it leads to.
pointer_iff :
    (before : Option ℕ → Bool) (Before : ℕ → Type 0) (at : Option ℕ)
    → before none ≡ false
    → ((j : ℕ) → (before (some j) ≡ true) ↔ Before j)
    → (before at ≡ true) ↔ ((j : ℕ) × (at ≡ some j) × Before j)
pointer_iff before Before none empty iff = (λ h. cc, λ (j, e, b). cc)
pointer_iff before Before (some i) empty iff =
    (λ h. (i, refl, (iff i).0 h), λ (j, e, b). rw e ((iff j).1 b))

parent_iff :
    (store : Store) (before : Option ℕ → Bool) (Before : ℕ → Type 0) (at : Option ℕ)
    → before none ≡ false
    → ((j : ℕ) → (before (some j) ≡ true) ↔ Before j)
    → (match_parent store before at ≡ true)
      ↔ ((j : ℕ) × ((at ≡ some j) × (is_document_at store j ≡ false)) × Before j)
unfolding match_parent
parent_iff store before Before none empty iff = (λ h. cc, λ (j, (e, _), b). cc)
parent_iff store before Before (some i) empty iff = elim (Bool-cases (is_document_at store i)) [
  | inl document ↦ (λ h. cc, λ (j, (e, inner), b). cc)
  | inr inner ↦ (
    λ h. (i, (refl, inner), (iff i).0 (ground arith)),
    λ (j, (e, _), b). rw inner (rw e ((iff j).1 b)),
  )
]

module _ (store : Store) (ordered : IsOrdered store) where
  -- A match of a part behind the first, against the relation and any meaning of those in front.
  match_related_iff :
      (c : Combinator) (before : Option ℕ → Bool) (Before : ℕ → Type 0) (i : ℕ)
      → i ≤ length store
      → before none ≡ false
      → ((j : ℕ) → (before (some j) ≡ true) ↔ Before j)
      → (match_related store c before i ≡ true) ↔ ((j : ℕ) × Related store c i j × Before j)
  unfolding match_related
  match_related_iff no_combinator before Before i le empty iff = (λ h. cc, λ (j, r, b). absurd r)
  match_related_iff descendant before Before i le empty iff = (
    λ h. let (j, along, holds) = chain-Found _ _ _ _ i _ refl h in (j, along, (iff j).0 holds),
    λ (j, along, b). Along-chain _ _ _ _ i j ordered.parent_lt le along ((iff j).1 b),
  )
  match_related_iff general_sibling before Before i le empty iff = (
    λ h. let (j, along, holds) = chain-Found _ _ _ _ i _ refl h in (j, along, (iff j).0 holds),
    λ (j, along, b). Along-chain _ _ _ _ i j ordered.previous_lt le along ((iff j).1 b),
  )
  match_related_iff adjacent before Before i le empty iff =
      pointer_iff before Before (previous_of store i) empty iff
  match_related_iff child before Before i le empty iff =
      parent_iff store before Before (parent_of store i) empty iff

  part-le : (p : SelectorPart) (i : ℕ) → matches_part store p i ≡ true → i ≤ length store
  unfolding matches_part
  part-le p i h = elim (Option-cases (load store i)) [
    | inl nothing ↦ cc
    | inr (n, e) ↦ omega (arith, load-lt store i n e)
  ]

  -- In a store with its nodes in order, `matchesComplex` answers true exactly where a chain of
  -- elements matches the parts, with the combinators between them.
  pub matches_complex_iff :
      (parts : List SelectorPart) (i : ℕ)
      → (matches_complex store parts (some i) ≡ true) ↔ Matches store parts i
  unfolding matches_complex
  matches_complex_iff [] i = (λ h. cc, λ h. absurd h)
  matches_complex_iff (p ∷ []) i = (λ h. h, λ h. h)
  matches_complex_iff (p ∷ q ∷ ps) i = elim (Bool-cases (matches_part store p i)) [
    | inl fits ↦
        let (split, join) =
          match_related_iff p.combinator (matches_complex store (q ∷ ps)) (Matches store (q ∷ ps)) i
            (part-le p i fits) refl (matches_complex_iff (q ∷ ps)) in
        (λ h. (fits, split (ground arith)), λ (_, r). rw fits (join r))
    | inr differs ↦ (λ h. cc, λ (fits, _). cc)
  ]
