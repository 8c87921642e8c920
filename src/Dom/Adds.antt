-- ===== src/Dom/Adds.antt =====
-- Steps of a walk without a limit, by the nodes that they add to the result.
use scrape_kdl.Common.{
  ℕ, Bool, true, false, ◌||◌, List, [], ◌∷◌, ◌++◌, any, ◌≡◌, ◌↔◌, ◌⊎◌, refl, arith, inl, inr,
}
use scrape_kdl.Dom.Query.{seen, unless_ended}

pub any-append : (p : ℕ → Bool) (xs ys : List ℕ) → any p (xs ++ ys) ≡ (any p xs || any p ys)
any-append p [] ys = refl
any-append p (x ∷ xs) ys = ground (arith, any-append p xs ys)

-- What stands in the result behind a step that may add the nodes of `New`.
abbrev pub Adds : (List ℕ → List ℕ × Bool) → (ℕ → Type 0) → Type 0
Adds step New =
    (result : List ℕ) (j : ℕ) → (seen (step result).0 j ≡ true) ↔ ((seen result j ≡ true) ⊎ New j)

pub Adds_iff :
    (step : List ℕ → List ℕ × Bool) (New Same : ℕ → Type 0)
    → Adds step New
    → ((j : ℕ) → New j ↔ Same j)
    → Adds step Same
Adds_iff step New Same adds same result j =
    (λ h. into ((adds result j).0 h), λ h. (adds result j).1 (back h))
  where
    into : (seen result j ≡ true) ⊎ New j → (seen result j ≡ true) ⊎ Same j
    into (inl old) = inl old
    into (inr new) = inr ((same j).0 new)

    back : (seen result j ≡ true) ⊎ Same j → (seen result j ≡ true) ⊎ New j
    back (inl old) = inl old
    back (inr new) = inr ((same j).1 new)

unless_open :
    (r : List ℕ × Bool) (go_on : List ℕ → List ℕ × Bool)
    → r.1 ≡ false
    → unless_ended r go_on ≡ go_on r.0
unless_open (s, true) go_on h = cc
unless_open (s, false) go_on h = refl

pub unless_ended-Adds :
    (first second : List ℕ → List ℕ × Bool) (New More : ℕ → Type 0)
    → ((r : List ℕ) → (first r).1 ≡ false)
    → Adds first New
    → Adds second More
    → Adds (λ r. unless_ended (first r) second) (λ j. New j ⊎ More j)
unless_ended-Adds first second New More going a b result j =
    rw (unless_open (first result) second (going result))
      (λ h. before ((b (first result).0 j).0 h), λ h. (b (first result).0 j).1 (behind h))
  where
    regroup : (seen result j ≡ true) ⊎ New j → (seen result j ≡ true) ⊎ (New j ⊎ More j)
    regroup (inl old) = inl old
    regroup (inr new) = inr (inl new)

    before : (seen (first result).0 j ≡ true) ⊎ More j → (seen result j ≡ true) ⊎ (New j ⊎ More j)
    before (inl h) = regroup ((a result j).0 h)
    before (inr more) = inr (inr more)

    behind : (seen result j ≡ true) ⊎ (New j ⊎ More j) → (seen (first result).0 j ≡ true) ⊎ More j
    behind (inl old) = inl ((a result j).1 (inl old))
    behind (inr (inl new)) = inl ((a result j).1 (inr new))
    behind (inr (inr more)) = inr more
