-- ===== src/Dom/Below.antt =====
-- `QueryAll`: the elements it returns are those below the root that match.
use mathlib.Core.Path.{subst}
use scrape_kdl.Common.Int.{pos}
use scrape_kdl.Common.{
  ℕ, zero, suc, ◌+◌, ◌≤◌, ◌<◌, Bool, true, false, not, ◌&&◌, ◌||◌, List, [], ◌∷◌, ◌++◌, length, all,
  any, leb, ltb, ◌==◌, some, ◌≡◌, ◌↔◌, ◌⊎◌, refl, arith, Bool-cases, Option-cases, inl, inr,
  all_mono, leb→le,
}
use scrape_kdl.Dom.Adds.{any-append, Adds, Adds_iff, unless_ended-Adds}
use scrape_kdl.Dom.Limit.{unless_ended-IsGrown, walk-IsGrown, collect-IsGrown}
use scrape_kdl.Dom.Matches.{load-lt}
use scrape_kdl.Dom.Query.{
  seen, collect, unless_ended, walk, query_limit, query_all, children_of, is_element_at,
  matches_selector,
}
use scrape_kdl.Dom.Selector.{Selector}
use scrape_kdl.Dom.{Store, load}

-- `j` is one of the elements of a list of nodes, or an element below one of them.
pub data Below (store : Store) : List ℕ → ℕ → Type 0 where
  here : (i : ℕ) (is : List ℕ) → is_element_at store i ≡ true → Below store (i ∷ is) i
  inside :
      (i : ℕ) (is : List ℕ) (j : ℕ)
      → is_element_at store i ≡ true
      → Below store (children_of store i) j
      → Below store (i ∷ is) j
  later : (i : ℕ) (is : List ℕ) (j : ℕ) → Below store is j → Below store (i ∷ is) j

-- The children of a node stand behind it in the store.
pub record IsPreordered (store : Store) : Type 0 where
  pub children_after : (i : ℕ) → all (ltb i) (children_of store i) ≡ true

module _ (store : Store) (test : ℕ → Bool) where
  abbrev Hit : (ℕ → Type 0) → ℕ → Type 0
  Hit New j = New j × (test j ≡ true)

  added_iff :
      (i : ℕ) (result : List ℕ) (j : ℕ)
      → test i ≡ true
      → (seen (result ++ i ∷ []) j ≡ true) ↔ ((seen result j ≡ true) ⊎ Hit (λ k. i ≡ k) j)
  added_iff i result j fits = rw (any-append (λ k. k == j) result (i ∷ [])) (
    λ h. elim (Bool-cases (seen result j)) [
      | inl old ↦ inl old
      | inr new ↦ let e : i ≡ j = ground arith in inr (e, rw (← e) fits)
    ],
    holds,
  )
    where
      holds :
          (seen result j ≡ true) ⊎ Hit (λ k. i ≡ k) j
          → (any (λ k. k == j) result || any (λ k. k == j) (i ∷ [])) ≡ true
      holds (inl old) = ground arith
      holds (inr (e, _)) = ground (arith, e)

  kept_iff :
      (i : ℕ) (result : List ℕ) (j : ℕ)
      → (test i && not (seen result i)) ≡ false
      → (seen result j ≡ true) ↔ ((seen result j ≡ true) ⊎ Hit (λ k. i ≡ k) j)
  kept_iff i result j old = (λ h. inl h, holds)
    where
      holds : (seen result j ≡ true) ⊎ Hit (λ k. i ≡ k) j → seen result j ≡ true
      holds (inl h) = h
      holds (inr (e, fits)) =
          let same : (test j && not (seen result j)) ≡ false = rw (← e) old in ground arith

  collect-Adds : (i : ℕ) → Adds (collect (pos 0) test i) (Hit (λ j. i ≡ j))
  unfolding collect
  collect-Adds i result j = elim (Bool-cases (test i && not (seen result i))) [
    | inl new ↦ rw new (added_iff i result j (ground arith))
    | inr old ↦ rw old (kept_iff i result j old)
  ]

  element-lt : (i : ℕ) → is_element_at store i ≡ true → i < length store
  element-lt i h = elim (Option-cases (load store i)) [
    | inl nothing ↦ cc
    | inr (n, e) ↦ load-lt store i n e
  ]

  Below-lt :
      (m : ℕ) (is : List ℕ) (j : ℕ) → all (leb m) is ≡ true → Below store is j → m < length store
  Below-lt m _ j h (here i is e) =
      let le : (leb m i) ≡ true = ground arith in omega (arith, leb→le m i le, element-lt i e)
  Below-lt m _ _ h (inside i is j e b) =
      let le : (leb m i) ≡ true = ground arith in omega (arith, leb→le m i le, element-lt i e)
  Below-lt m _ _ h (later i is j b) = Below-lt m is j (ground arith) b

  -- The elements of a list that begins with an element.
  Below-cons :
      (i : ℕ) (is : List ℕ)
      → is_element_at store i ≡ true
      → (j : ℕ)
      → ((Hit (λ k. i ≡ k) j ⊎ Hit (Below store (children_of store i)) j) ⊎ Hit (Below store is) j)
        ↔ Hit (Below store (i ∷ is)) j
  Below-cons i is e j = (into, λ (b, t). back j b t)
    where
      into :
          (Hit (λ k. i ≡ k) j ⊎ Hit (Below store (children_of store i)) j) ⊎ Hit (Below store is) j
          → Hit (Below store (i ∷ is)) j
      into (inl (inl (same, t))) = (subst (Below store (i ∷ is)) same (here i is e), t)
      into (inl (inr (b, t))) = (inside i is j e b, t)
      into (inr (b, t)) = (later i is j b, t)

      back :
          (k : ℕ)
          → Below store (i ∷ is) k
          → test k ≡ true
          → (Hit (λ k. i ≡ k) k ⊎ Hit (Below store (children_of store i)) k)
            ⊎ Hit (Below store is) k
      back k (here _ _ _) t = inl (inl (refl, t))
      back k (inside _ _ _ _ b) t = inl (inr (b, t))
      back k (later _ _ _ b) t = inr (b, t)

  Below-skip :
      (i : ℕ) (is : List ℕ)
      → is_element_at store i ≡ false
      → (j : ℕ) → Hit (Below store is) j ↔ Hit (Below store (i ∷ is)) j
  Below-skip i is e j = (λ (b, t). (later i is j b, t), λ (b, t). (back j b, t))
    where
      back : (k : ℕ) → Below store (i ∷ is) k → Below store is k
      back k (here _ _ h) = cc
      back k (inside _ _ _ h b) = cc
      back k (later _ _ _ b) = b

module _ (store : Store) (test : ℕ → Bool) (ordered : IsPreordered store) where
  children-after : (m i : ℕ) → leb m i ≡ true → all (leb (suc m)) (children_of store i) ≡ true
  children-after m i le =
      all_mono (ltb i) (leb (suc m)) (λ k h. ground arith) (children_of store i)
        (ordered.children_after i)

  -- A list with no element in it adds nothing.
  nothing_iff :
      (is : List ℕ)
      → ((j : ℕ) → Below store is j → ⊥)
      → Adds (λ r. (r, false)) (Hit store test (Below store is))
  nothing_iff is none_below result j = (λ old. inl old, only_old)
    where
      only_old : (seen result j ≡ true) ⊎ Hit store test (Below store is) j → seen result j ≡ true
      only_old (inl old) = old
      only_old (inr (b, _)) = absurd (none_below j b)

  -- The fuel is enough where it covers the nodes of the store from `m` on.
  walk-Adds :
      (f m : ℕ) (is : List ℕ)
      → all (leb m) is ≡ true
      → length store ≤ f + m
      → Adds (walk f store (pos 0) test is) (Hit store test (Below store is))
  unfolding walk
  walk-Adds zero m is h enough =
      nothing_iff is (λ j b. omega (arith, Below-lt store test m is j h b))
  walk-Adds (suc f) m [] h enough =
      nothing_iff [] (λ j b. omega (arith, Below-lt store test (length store) [] j refl b))
  walk-Adds (suc f) m (i ∷ is) h enough =
      let take_in = collect (pos 0) test i in
      let below = walk f store (pos 0) test (children_of store i) in
      let rest = walk (suc f) store (pos 0) test is in
      let both : List ℕ → List ℕ × Bool = λ r. unless_ended (take_in r) below in
      let open_end : (r : List ℕ) → (both r).1 ≡ false = λ r.
        (unless_ended-IsGrown r (take_in r) below (collect-IsGrown test i r)
          (walk-IsGrown f store test (children_of store i))).open_end in
      let of_rest = walk-Adds (suc f) m is (ground arith) enough in
      let of_below =
        walk-Adds f (suc m) (children_of store i) (children-after m i (ground arith))
          (omega arith) in
      elim (Bool-cases (is_element_at store i)) [
        | inl element ↦ rw element (
            Adds_iff (λ r. unless_ended (both r) rest) _ _
              (unless_ended-Adds both rest _ _ open_end
                (unless_ended-Adds take_in below _ _ (λ r. (collect-IsGrown test i r).open_end)
                  (collect-Adds store test i) of_below)
                of_rest)
              (Below-cons store test i is element))
        | inr other ↦ rw other (Adds_iff rest _ _ of_rest (Below-skip store test i is other))
      ]

-- In a store where children stand behind their parents, `QueryAll` returns exactly the elements
-- below the root that match the selector: its walk reaches all of them.
pub query_all_iff :
    (store : Store) (ordered : IsPreordered store) (root : ℕ) (selector : Selector) (i : ℕ)
    → (seen (query_all store (some root) selector) i ≡ true)
      ↔ (Below store (children_of store root) i × (matches_selector store selector i ≡ true))
unfolding query_all query_limit
query_all_iff store ordered root selector i =
    let (found, listed) =
      walk-Adds store (matches_selector store selector) ordered (length store) 0
        (children_of store root)
        (all_mono (ltb root) (leb 0) (λ k h. ground arith) (children_of store root)
          (ordered.children_after root))
        (omega arith) [] i in
    (λ h. only (found h), λ h. listed (inr h))
  where
    only :
        (seen [] i ≡ true)
          ⊎ (Below store (children_of store root) i × (matches_selector store selector i ≡ true))
        → Below store (children_of store root) i × (matches_selector store selector i ≡ true)
    only (inl h) = cc
    only (inr h) = h
