-- ===== src/Dom/Progression.antt =====
-- `matches` of `NthExpression` against the progression A * n + B.
use native.Mathlib.Nat.{mod-add-div, mul-mod_right, div-le_self, mod-eq_of_lt, zero-mod, zero-div}
use scrape_kdl.Common.Int.{ℤ, pos, negsuc, abs}
use scrape_kdl.Common.{
  ℕ, zero, suc, ◌+◌, ◌-◌, ◌*◌, ◌/◌, ◌%◌, ◌^◌, ◌≤◌, ◌<◌, true, false, ◌&&◌, leb, ◌==◌, lt→ltb,
  leb→le, ◌≡◌, ◌↔◌, refl, sym, ◌∙◌, arith, Bool-cases, inl, inr,
}
use scrape_kdl.Dom.Nth.{
  wrap, minus, negative, is_natural, is_number, divides_difference, nth_matches,
}
use scrape_kdl.Dom.Selector.{NthExpression}

-- position = a * n + b, with the negative terms on the other side.
abbrev pub Reaches : ℤ → ℤ → ℕ → ℕ → Type 0
Reaches (pos a) (pos b) n position = position ≡ a * n + b
Reaches (pos a) (negsuc b) n position = position + suc b ≡ a * n
Reaches (negsuc a) (pos b) n position = position + suc a * n ≡ b
Reaches (negsuc a) (negsuc b) n position = ⊥

wrap-pos : (n : ℕ) → n < 2 ^ 63 → wrap (pos n) ≡ pos n
unfolding wrap
wrap-pos n h =
    let small : n % 2 ^ 64 ≡ n = mod-eq_of_lt (omega arith) in
    rw small (rw (lt→ltb n (2 ^ 63) h) refl)

wrap-negsuc : (n : ℕ) → n < 2 ^ 63 → wrap (negsuc n) ≡ negsuc n
unfolding wrap
wrap-negsuc n h =
    let small : n % 2 ^ 64 ≡ n = mod-eq_of_lt (omega arith) in
    rw small (rw (lt→ltb n (2 ^ 63) h) refl)

exact_iff : (a d : ℕ) → ((d % suc a == 0) ≡ true) ↔ ((n : ℕ) × (d ≡ suc a * n))
exact_iff a d = (
  λ h.
      let none_left : d % suc a ≡ 0 = ground arith in
      (d / suc a, sym (mod-add-div d (suc a)) ∙ rw none_left (omega arith)),
  λ (n, e).
      let none_left : d % suc a ≡ 0 = rw e (mul-mod_right (suc a) n) in ground (arith, none_left),
)

-- A quotient of 0 leaves the whole number.
small-quotient : (a d : ℕ) → d / suc a ≡ 0 → (d % suc a == 0) ≡ true → d ≡ 0
small-quotient a d q h =
    let none_left : d % suc a ≡ 0 = ground arith in
    sym (mod-add-div d (suc a)) ∙ rw (none_left, q) (omega arith)

-- A positive A and a difference that is not negative.
divides-pos :
    (a d : ℕ)
    → d < 2 ^ 63
    → (divides_difference (pos (suc a)) (pos d) ≡ true) ↔ ((n : ℕ) × (d ≡ suc a * n))
divides-pos a d h =
    let fits : wrap (pos (d / suc a)) ≡ pos (d / suc a) =
      wrap-pos (d / suc a) (omega (arith, div-le_self d (suc a))) in
    rw fits
      (λ t. (exact_iff a d).0 (ground arith), λ r. let t = (exact_iff a d).1 r in ground arith)

divides-neg_neg :
    (a d : ℕ)
    → suc d < 2 ^ 63
    → (divides_difference (negsuc a) (negsuc d) ≡ true) ↔ ((n : ℕ) × (suc d ≡ suc a * n))
divides-neg_neg a d h =
    let fits : wrap (pos (suc d / suc a)) ≡ pos (suc d / suc a) =
      wrap-pos (suc d / suc a) (omega (arith, div-le_self (suc d) (suc a))) in
    rw fits (
      λ t. (exact_iff a (suc d)).0 (ground arith),
      λ r. let t = (exact_iff a (suc d)).1 r in ground arith,
    )

-- The quotient of numbers with different signs is natural only where it is 0.
is_natural-negative : (q : ℕ) → q < 2 ^ 63 → is_natural (wrap (negative q)) ≡ true → q ≡ 0
is_natural-negative zero h t = refl
is_natural-negative (suc q) h t =
    let w : is_natural (wrap (negsuc q)) ≡ false = rw (wrap-negsuc q (omega arith)) refl in cc

opposite-signs :
    (a d : ℕ)
    → d < 2 ^ 63
    → ((d % suc a == 0) && is_natural (wrap (negative (d / suc a)))) ≡ true
    → d ≡ 0
opposite-signs a d h t =
    small-quotient a d
      (is_natural-negative (d / suc a) (omega (arith, div-le_self d (suc a))) (ground arith))
      (ground arith)

-- The cases of A other than 0, for a position that is counted from 1.
abbrev Decides : ℤ → ℤ → ℕ → Type 0
Decides a b position =
    (divides_difference a (wrap (minus position b)) ≡ true) ↔ ((n : ℕ) × Reaches a b n position)

difference_above : (a b p : ℕ) → b ≤ p → b + p < 2 ^ 63 → Decides (pos (suc a)) (pos b) p
difference_above a b p le h =
    let d : minus p (pos b) ≡ pos (p - b) = ground arith in
    rw (d, wrap-pos (p - b) (omega arith))
      (
        λ t. let (n, e) = (divides-pos a (p - b) (omega arith)).0 t in (n, omega arith),
        λ (n, e). (divides-pos a (p - b) (omega arith)).1 (n, omega arith),
      )

difference_below : (a b p : ℕ) → p < b → b + p < 2 ^ 63 → Decides (pos (suc a)) (pos b) p
difference_below a b p lt h =
    let d : minus p (pos b) ≡ negsuc (b - p - 1) = ground arith in
    rw (d, wrap-negsuc (b - p - 1) (omega arith))
      (
        λ t.
            let nothing : suc (b - p - 1) ≡ 0 =
              opposite-signs a (suc (b - p - 1)) (omega arith) t in
            absurd (omega arith),
        λ (n, e). absurd (omega arith),
      )

difference_past : (a b p : ℕ) → suc b + p < 2 ^ 63 → Decides (pos (suc a)) (negsuc b) p
difference_past a b p h =
    rw (wrap-pos (p + suc b) (omega arith)) (divides-pos a (p + suc b) (omega arith))

difference_falling : (a b p : ℕ) → p < b → b + p < 2 ^ 63 → Decides (negsuc a) (pos b) p
difference_falling a b p lt h =
    let d : minus p (pos b) ≡ negsuc (b - p - 1) = ground arith in
    rw (d, wrap-negsuc (b - p - 1) (omega arith))
      (
        λ t. let (n, e) = (divides-neg_neg a (b - p - 1) (omega arith)).0 t in (n, omega arith),
        λ (n, e). (divides-neg_neg a (b - p - 1) (omega arith)).1 (n, omega arith),
      )

difference_start : (a b p : ℕ) → b ≤ p → b + p < 2 ^ 63 → Decides (negsuc a) (pos b) p
difference_start a b p le h =
    let d : minus p (pos b) ≡ pos (p - b) = ground arith in
    rw (d, wrap-pos (p - b) (omega arith))
      (
        λ t. let same : p - b ≡ 0 = opposite-signs a (p - b) (omega arith) t in (0, omega arith),
        λ (n, e).
            let same : p - b ≡ 0 = omega arith in
            rw (same, zero-mod (suc a), zero-div (suc a), wrap-pos 0 (omega arith)) refl,
      )

difference_never : (a b p : ℕ) → suc b + p < 2 ^ 63 → Decides (negsuc a) (negsuc b) p
difference_never a b p h = rw (wrap-pos (p + suc b) (omega arith)) (
  λ t.
      let nothing : p + suc b ≡ 0 = opposite-signs a (p + suc b) (omega arith) t in
      absurd (omega arith),
  λ (n, e). absurd e,
)

difference_iff : (a b : ℤ) (p : ℕ) → (abs a == 0) ≡ false → abs b + p < 2 ^ 63 → Decides a b p
difference_iff (pos zero) b p real h = cc
difference_iff (pos (suc a)) (pos b) p real h = elim (Bool-cases (leb b p)) [
  | inl le ↦ difference_above a b p (leb→le b p le) h
  | inr lt ↦ difference_below a b p (ground arith) h
]
difference_iff (pos (suc a)) (negsuc b) p real h = difference_past a b p h
difference_iff (negsuc a) (pos b) p real h = elim (Bool-cases (leb b p)) [
  | inl le ↦ difference_start a b p (leb→le b p le) h
  | inr lt ↦ difference_falling a b p (ground arith) h
]
difference_iff (negsuc a) (negsuc b) p real h = difference_never a b p h

constant_iff :
    (a b : ℤ) (p : ℕ)
    → (abs a == 0) ≡ true
    → 0 < p
    → (is_number b p ≡ true) ↔ ((n : ℕ) × Reaches a b n p)
constant_iff (pos zero) (pos b) p flat real = (λ t. (0, ground arith), λ (n, e). ground arith)
constant_iff (pos zero) (negsuc b) p flat real = (λ t. cc, λ (n, e). absurd (omega arith))
constant_iff (pos (suc a)) b p flat real = absurd (ground arith)
constant_iff (negsuc a) b p flat real = absurd (ground arith)

-- Where position and B do not overflow together, `matches` answers true exactly on the positions
-- from 1 on that A * n + B reaches for some natural n, for A and B of either sign.
pub nth_matches_iff :
    (e : NthExpression) (position : ℕ)
    → abs e.b + position < 2 ^ 63
    → (nth_matches e position ≡ true) ↔ ((0 < position) × ((n : ℕ) × Reaches e.a e.b n position))
unfolding nth_matches
nth_matches_iff e position h = elim (Bool-cases (position == 0)) [
  | inl outside ↦ rw outside (λ t. cc, λ (real, _). absurd (ground arith))
  | inr inside ↦
      let real : 0 < position = ground arith in
      elim (Bool-cases (abs e.a == 0)) [
        | inl flat ↦
            let (to, from) = constant_iff e.a e.b position flat real in
            rw (inside, flat) (λ t. (real, to t), λ (_, r). from r)
        | inr slope ↦
            let (to, from) = difference_iff e.a e.b position slope h in
            rw (inside, slope) (λ t. (real, to t), λ (_, r). from r)
      ]
]
