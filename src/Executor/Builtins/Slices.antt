-- ===== src/Executor/Builtins/Slices.antt =====
-- `builtinSubstring` takes the runes whose position lies between its indexes.
use scrape_kdl.Common.Int.{ℤ, pos, negsuc, sub_ℕ}
use scrape_kdl.Common.Space.{Rune}
use scrape_kdl.Common.{
  ℕ, zero, suc, ◌-◌, ◌≤◌, ◌<◌, max, true, false, not, ◌&&◌, List, [], ◌∷◌, take, drop, length,
  take_all, length-drop, ltb, leb, if◌then◌else◌, ◌≡◌, refl, ◌∙◌, sym, ap, inl, inr, arith,
  Bool-cases,
}
use scrape_kdl.Executor.Builtins.Strings.{normalize_index, slice_runes, spell}
use scrape_kdl.Executor.Output.Recovery.{less_ℤ}

-- The elements from position `q` on that stand at `first` or behind it, and before `last`.
abbrev pub within : {A : Type 0} → (first last : ℤ) → ℕ → List A → List A
within first last q [] = []
within first last q (x ∷ xs) =
    let rest = within first last (suc q) xs in
    if not (less_ℤ (pos q) first) && less_ℤ (pos q) last then x ∷ rest else rest

-- The place that an index names; a negative one counts from the end.
abbrev pub place_of : ℤ → ℕ → ℤ
place_of (pos n) size = pos n
place_of (negsuc n) size = sub_ℕ size (suc n)

module _ {A : Type 0} where
  take_none : (n : ℕ) → take {A = A} n [] ≡ []
  take_none zero = refl
  take_none (suc n) = refl

  drop_all : (n : ℕ) (xs : List A) → length xs ≤ n → drop n xs ≡ []
  drop_all zero [] h = refl
  drop_all zero (x ∷ xs) h = absurd (omega arith)
  drop_all (suc n) [] h = refl
  drop_all (suc n) (x ∷ xs) h = drop_all n xs (omega arith)

  take_suc : (x : A) (xs : List A) (n : ℕ) → 0 < n → take n (x ∷ xs) ≡ x ∷ take (n - 1) xs
  take_suc x xs zero h = absurd (omega arith)
  take_suc x xs (suc n) h = ap (λ m. x ∷ take m xs) (omega arith)

  drop_suc : (x : A) (xs : List A) (n : ℕ) → 0 < n → drop n (x ∷ xs) ≡ drop (n - 1) xs
  drop_suc x xs zero h = absurd (omega arith)
  drop_suc x xs (suc n) h = ap (λ m. drop m xs) (omega arith)

  -- The same elements, as a part of the list.
  within-eq-take :
      (first last : ℤ) (a b : ℕ)
      → ((p : ℕ) → (not (less_ℤ (pos p) first) && less_ℤ (pos p) last) ≡ (leb a p && ltb p b))
      → (xs : List A) (q : ℕ) → within first last q xs ≡ take (b - max a q) (drop (a - q) xs)
  within-eq-take first last a b same [] q =
      sym (ap (take (b - max a q)) (drop_all (a - q) [] (omega arith)) ∙ take_none (b - max a q))
  within-eq-take first last a b same (x ∷ xs) q =
      let next = within-eq-take first last a b same xs (suc q) in
      elim (Bool-cases (ltb q a)) [
        | inl early ↦
            let out : (leb a q && ltb q b) ≡ false = ground arith in
            let one : a - suc q ≡ a - q - 1 = ground arith in
            let low : max a (suc q) ≡ max a q = ground arith in
            rw (same q, out)
              (next
                ∙ ap (λ m. take (b - m) (drop (a - suc q) xs)) low
                ∙ ap (λ m. take (b - max a q) (drop m xs)) one
                ∙ ap (take (b - max a q)) (sym (drop_suc x xs (a - q) (ground arith))))
        | inr late ↦
            let here : a - q ≡ 0 = ground arith in
            let there : a - suc q ≡ 0 = ground arith in
            elim (Bool-cases (ltb q b)) [
              | inl inside ↦
                  let kept : (leb a q && ltb q b) ≡ true = ground arith in
                  let one : b - max a (suc q) ≡ b - max a q - 1 = ground arith in
                  rw (same q, kept, here)
                    (ap (◌∷◌ x) (
                        next
                        ∙ ap (λ m. take m (drop (a - suc q) xs)) one
                        ∙ ap (λ m. take (b - max a q - 1) (drop m xs)) there)
                      ∙ sym (take_suc x xs (b - max a q) (ground arith)))
              | inr outside ↦
                  let out : (leb a q && ltb q b) ≡ false = ground arith in
                  let none_left : b - max a (suc q) ≡ 0 = ground arith in
                  let none_here : b - max a q ≡ 0 = ground arith in
                  rw (same q, out, none_here)
                    (next ∙ ap (λ m. take m (drop (a - suc q) xs)) none_left)
            ]
      ]

  -- An index beyond the end selects as the end does.
  clamped :
      (xs : List A) (a b c d : ℕ)
      → c ≡ (if ltb (length xs) a then length xs else a)
      → d ≡ (if ltb (length xs) b then length xs else b)
      → take (d - c) (drop c xs) ≡ take (b - a) (drop a xs)
  clamped xs a b c d at_c at_d = elim (Bool-cases (ltb (length xs) a)) [
    | inl far ↦
        let end : c ≡ length xs = ground arith in
        rw (drop_all a xs (ground arith)) (
          ap (take (d - c)) (drop_all c xs (ground arith))
          ∙ take_none (d - c)
          ∙ sym (take_none (b - a)))
    | inr near ↦
        let same : c ≡ a = ground arith in
        let size = length-drop a xs in
        rw same (elim (Bool-cases (ltb (length xs) b)) [
          | inl far ↦
              take_all (d - a) (drop a xs) (ground arith)
              ∙ sym (take_all (b - a) (drop a xs) (ground arith))
          | inr within_end ↦ ap (λ m. take (m - a) (drop a xs)) (ground arith)
        ])
  ]

-- An index as a natural number, before it is compared with the length.
abbrev raw_index : ℤ → ℕ → ℕ
raw_index (pos n) size = n
raw_index (negsuc n) size = size - suc n

normalize_index-eq-clamped :
    (k : ℤ) (size : ℕ)
    → normalize_index k size ≡ (if ltb size (raw_index k size) then size else raw_index k size)
unfolding normalize_index
normalize_index-eq-clamped (pos n) size = refl
normalize_index-eq-clamped (negsuc n) size = ground arith

behind : (k : ℤ) (size p : ℕ) → not (less_ℤ (pos p) (place_of k size)) ≡ leb (raw_index k size) p
behind (pos n) size p = ground arith
behind (negsuc n) size p = ground arith

ahead : (k : ℤ) (size p : ℕ) → less_ℤ (pos p) (place_of k size) ≡ ltb p (raw_index k size)
ahead (pos n) size p = ground arith
ahead (negsuc n) size p = ground arith

-- A substring is made of the runes whose position is at least the first index and less than the
-- second, where a negative index counts from the end of the text; indexes beyond either end, and a
-- second index before the first, are allowed.
pub slice_runes-eq-within :
    (rs : List Rune) (start end : ℤ)
    → slice_runes rs start end
      ≡ spell (within (place_of start (length rs)) (place_of end (length rs)) 0 rs)
unfolding slice_runes
slice_runes-eq-within rs start end =
    let size = length rs in
    let a = raw_index start size in
    let b = raw_index end size in
    let low : max a 0 ≡ a = omega arith in
    let from : a - 0 ≡ a = omega arith in
    ap spell (
      clamped rs a b (normalize_index start size) (normalize_index end size)
        (normalize_index-eq-clamped start size) (normalize_index-eq-clamped end size)
      ∙ sym (
          within-eq-take (place_of start size) (place_of end size) a b
            (λ p. rw (behind start size p, ahead end size p) refl) rs 0
          ∙ ap (λ m. take (b - m) (drop (a - 0) rs)) low
          ∙ ap (λ m. take (b - a) (drop m rs)) from))
