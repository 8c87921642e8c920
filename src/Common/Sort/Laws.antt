-- ===== src/Common/Sort/Laws.antt =====
-- The stable sort: a permutation, in order, that keeps the order of equal elements. `before` is
-- a strict weak order.
use mathlib.Core.Bool.{Bool, true, false, not, ◌&&◌}
use mathlib.Core.List.{List, [], ◌∷◌, Perm}
use mathlib.Core.List.Perm
use mathlib.Core.Path.{◌≡◌, refl, ap, ◌∙◌}
use mathlib.Core.Logic.{inl, inr}
use native.Mathlib.Omega.{arith}
use scrape_kdl.Common.Lists.{all}
use scrape_kdl.Common.Sort.{insert, slice_stable}
use scrape_kdl.Common.Tests.{if◌then◌else◌, Bool-cases}

abbrev pub filter {ℓ} : {A : Type ℓ} → (A → Bool) → List A → List A
filter p [] = []
filter p (x ∷ xs) = if p x then x ∷ filter p xs else filter p xs

pub record IsStrictWeak {ℓ} {A : Type ℓ} (before : A → A → Bool) : Type ℓ where
  pub asym : (a b : A) → before a b ≡ true → before b a ≡ false
  -- where `not (before b a)` is read "a is no later than b"
  pub le_trans : (a b c : A) → before b a ≡ false → before c b ≡ false → before c a ≡ false

module _ {ℓ} {A : Type ℓ} (before : A → A → Bool) where
  abbrev pub is_sorted : List A → Bool
  is_sorted [] = true
  is_sorted (x ∷ xs) = all (λ y. not (before y x)) xs && is_sorted xs

  -- Neither comes before the other.
  abbrev pub equivalent : A → A → Bool
  equivalent a b = not (before a b) && not (before b a)

  insert-perm : (x : A) (xs : List A) → Perm (insert before x xs) (x ∷ xs)
  unfolding insert
  insert-perm x [] = Perm.refl (x ∷ [])
  insert-perm x (y ∷ ys) = elim (Bool-cases (before y x)) [
    | inl later ↦ rw later (Perm.trans (Perm.cons y (insert-perm x ys)) (Perm.swap x y ys))
    | inr here ↦ rw here (Perm.refl (x ∷ y ∷ ys))
  ]

  pub slice_stable-perm : (xs : List A) → Perm (slice_stable before xs) xs
  unfolding slice_stable
  slice_stable-perm [] = Perm.refl []
  slice_stable-perm (x ∷ xs) =
      Perm.trans (insert-perm x (slice_stable before xs)) (Perm.cons x (slice_stable-perm xs))

module _ {ℓ} {A : Type ℓ} (before : A → A → Bool) (weak : IsStrictWeak before) where
  all-le :
      (a b : A) (xs : List A)
      → before b a ≡ false
      → all (λ y. not (before y b)) xs ≡ true
      → all (λ y. not (before y a)) xs ≡ true
  all-le a b [] h k = refl
  all-le a b (x ∷ xs) h k = ground (arith, weak.le_trans a b x, all-le a b xs)

  all-insert :
      (p : A → Bool) (x : A) (xs : List A)
      → p x ≡ true
      → all p xs ≡ true
      → all p (insert before x xs) ≡ true
  unfolding insert
  all-insert p x [] h k = ground arith
  all-insert p x (y ∷ ys) h k = ground (arith, all-insert p x ys)

  insert-is_sorted :
      (x : A) (xs : List A)
      → is_sorted before xs ≡ true
      → is_sorted before (insert before x xs) ≡ true
  unfolding insert
  insert-is_sorted x [] h = refl
  insert-is_sorted x (y ∷ ys) h = ground (
    arith,
    insert-is_sorted x ys,
    weak.asym y x,
    all-le x y ys,
    all-insert (λ z. not (before z y)) x ys,
  )

  pub slice_stable-is_sorted : (xs : List A) → is_sorted before (slice_stable before xs) ≡ true
  unfolding slice_stable
  slice_stable-is_sorted [] = refl
  slice_stable-is_sorted (x ∷ xs) = insert-is_sorted x _ (slice_stable-is_sorted xs)

  filter-insert :
      (k x : A) (xs : List A)
      → filter (equivalent before k) (insert before x xs) ≡ filter (equivalent before k) (x ∷ xs)
  unfolding insert
  filter-insert k x [] = refl
  filter-insert k x (y ∷ ys) = ground (arith, filter-insert k x ys, weak.le_trans x k y)

  -- The elements equivalent to any `k` stand in the order in which they were given.
  pub slice_stable-filter :
      (k : A) (xs : List A)
      → filter (equivalent before k) (slice_stable before xs) ≡ filter (equivalent before k) xs
  unfolding slice_stable
  slice_stable-filter k [] = refl
  slice_stable-filter k (x ∷ xs) =
      filter-insert k x (slice_stable before xs)
      ∙ ap (λ rest. if equivalent before k x then x ∷ rest else rest) (slice_stable-filter k xs)
