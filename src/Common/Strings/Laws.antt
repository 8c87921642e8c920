-- ===== src/Common/Strings/Laws.antt =====
-- What splitting, joining and replacing have to do with each other.
use scrape_kdl.Common.Int.{negsuc}
use scrape_kdl.Common.Lists.{length, drop}
use scrape_kdl.Common.Strings.{
  join, join_behind, Pieces, cut_here, with_byte, listed, pieces, split, swap, replace,
}
use scrape_kdl.Common.Tests.{ltb, Bool-cases, if_rule}
use scrape_kdl.Common.Text.{Bytes, equal, equal_iff, has_prefix}
use Prim.Native.Nat.{ℕ, zero, suc, ◌+◌, ◌-◌, ◌≤◌}
use mathlib.Core.Path.{◌≡◌, refl, ap, ◌∙◌, sym}
use mathlib.Core.Logic.{inl, inr}
use mathlib.Core.Bool.{true}
use mathlib.Core.List.{[], ◌∷◌, ◌++◌}
use native.Mathlib.Omega.{arith}

-- A prefix is the front of the text.
has_prefix-drop : (s sep : Bytes) → has_prefix s sep ≡ true → sep ++ drop (length sep) s ≡ s
unfolding has_prefix
has_prefix-drop s [] h = refl
has_prefix-drop [] (p ∷ sep) h = absurd cc
has_prefix-drop (c ∷ s) (p ∷ sep) h = ground (arith, has_prefix-drop s sep)

has_prefix-drop_rest :
    (c : ℕ) (s : Bytes) (p : ℕ) (sep : Bytes)
    → has_prefix (c ∷ s) (p ∷ sep) ≡ true
    → (p ∷ sep) ++ drop (length (p ∷ sep) - 1) s ≡ c ∷ s
has_prefix-drop_rest c s p sep h =
    let size : length (p ∷ sep) - 1 ≡ length sep = omega arith in
    rw size (has_prefix-drop (c ∷ s) (p ∷ sep) h)

abbrev glued : Bytes → Pieces → Bytes
glued sep (first, others) = first ++ join_behind others sep

glued-cut_here : (sep : Bytes) (p : Pieces) → glued sep (cut_here p) ≡ sep ++ glued sep p
unfolding join_behind
glued-cut_here sep (first, others) = refl

glued-with_byte : (sep : Bytes) (c : ℕ) (p : Pieces) → glued sep (with_byte c p) ≡ c ∷ glued sep p
glued-with_byte sep c (first, others) = refl

join-listed : (sep : Bytes) (p : Pieces) → join (listed p) sep ≡ glued sep p
unfolding join
join-listed sep (first, others) = refl

-- The pieces, joined again, are what they were cut from.
glued-pieces :
    (p : ℕ) (sep s : Bytes) (skip : ℕ) → glued (p ∷ sep) (pieces (p ∷ sep) skip s) ≡ drop skip s
unfolding pieces join_behind
glued-pieces p sep [] zero = refl
glued-pieces p sep [] (suc skip) = refl
glued-pieces p sep (c ∷ s) (suc skip) = glued-pieces p sep s skip
glued-pieces p sep (c ∷ s) zero = elim (Bool-cases (has_prefix (c ∷ s) (p ∷ sep))) [
  | inl h ↦ rw h (
      glued-cut_here (p ∷ sep) (pieces (p ∷ sep) (length (p ∷ sep) - 1) s)
      ∙ ap (λ t. (p ∷ sep) ++ t) (glued-pieces p sep s (length (p ∷ sep) - 1))
      ∙ has_prefix-drop_rest c s p sep h)
  | inr h ↦
      rw h
        (glued-with_byte (p ∷ sep) c (pieces (p ∷ sep) 0 s) ∙ ap (◌∷◌ c) (glued-pieces p sep s 0))
]

pub join-split : (p : ℕ) (sep s : Bytes) → join (split s (p ∷ sep)) (p ∷ sep) ≡ s
unfolding split
join-split p sep s = join-listed (p ∷ sep) (pieces (p ∷ sep) 0 s) ∙ glued-pieces p sep s 0

-- Replacing every time is to join the pieces with the other text.
swap-eq-glued :
    (p : ℕ) (old fresh s : Bytes) (budget skip : ℕ)
    → length s ≤ budget + skip
    → swap (p ∷ old) fresh budget skip s ≡ glued fresh (pieces (p ∷ old) skip s)
unfolding swap pieces join_behind
swap-eq-glued p old fresh [] budget zero h = refl
swap-eq-glued p old fresh [] budget (suc skip) h = refl
swap-eq-glued p old fresh (c ∷ s) budget (suc skip) h =
    swap-eq-glued p old fresh s budget skip (omega arith)
swap-eq-glued p old fresh (c ∷ s) budget zero h =
    let left : ltb 0 budget ≡ true = ground arith in
    elim (Bool-cases (has_prefix (c ∷ s) (p ∷ old))) [
      | inl e ↦
          rw (left, e)
            (ap (λ t. fresh ++ t)
                (swap-eq-glued p old fresh s (budget - 1) (length (p ∷ old) - 1) (omega arith))
              ∙ sym (glued-cut_here fresh (pieces (p ∷ old) (length (p ∷ old) - 1) s)))
      | inr e ↦
          rw (left, e)
            (ap (◌∷◌ c) (swap-eq-glued p old fresh s budget 0 (omega arith))
              ∙ sym (glued-with_byte fresh c (pieces (p ∷ old) 0 s)))
    ]

pub replace-eq-join :
    (p : ℕ) (old fresh s : Bytes) (k : ℕ)
    → replace s (p ∷ old) fresh (negsuc k) ≡ join (split s (p ∷ old)) fresh
unfolding replace split
replace-eq-join p old fresh s k =
    if_rule (λ t. t ≡ join (split s (p ∷ old)) fresh) (equal (p ∷ old) fresh)
      (λ same. rw (← (equal_iff (p ∷ old) fresh).0 same) (sym (join-split p old s)))
      λ other.
        swap-eq-glued p old fresh s (length s + 1) 0 (omega arith)
        ∙ sym (join-listed fresh (pieces (p ∷ old) 0 s))
