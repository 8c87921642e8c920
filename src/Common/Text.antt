-- ===== src/Common/Text.antt =====
-- Go strings as lists of bytes: comparison, prefixes, and literals.
use Prim.Native.Char.{code}
use Prim.Native.Nat.{ℕ}
use Prim.Native.String.{String}
use mathlib.Core.Path.{◌≡◌, refl}
use mathlib.Core.Logic.{◌↔◌}
use mathlib.Core.Bool.{Bool, true, false, ◌&&◌, ◌||◌}
use mathlib.Core.List.{List, [], ◌∷◌}
use native.Mathlib.Omega.{arith}
use scrape_kdl.Common.Tests.{ltb, ◌==◌}

abbrev pub Bytes : Type 0
Bytes = List ℕ

-- The bytes of a literal; every literal of the development is ASCII.
abbrev pub codes : String → Bytes
codes String.[] = []
codes (String.◌∷◌ c s) = code c ∷ codes s

unfoldable pub equal : Bytes → Bytes → Bool
equal [] [] = true
equal (x ∷ xs) (y ∷ ys) = x == y && equal xs ys
equal _ _ = false

pub equal_iff : (text other : Bytes) → (equal text other ≡ true) ↔ (text ≡ other)
unfolding equal
equal_iff [] other = ground arith
equal_iff (b ∷ text) [] = ground arith
equal_iff (b ∷ text) (c ∷ other) = ground (arith, equal_iff text other)

pub equal_refl : (a : Bytes) → equal a a ≡ true
equal_refl a = (equal_iff a a).1 refl

-- The order `<` of Go strings.
unfoldable pub less : Bytes → Bytes → Bool
less [] [] = false
less [] (y ∷ ys) = true
less (x ∷ xs) [] = false
less (x ∷ xs) (y ∷ ys) = ltb x y || x == y && less xs ys

-- `strings.HasPrefix s p`.
unfoldable pub has_prefix : Bytes → Bytes → Bool
has_prefix s [] = true
has_prefix [] (p ∷ ps) = false
has_prefix (c ∷ s) (p ∷ ps) = c == p && has_prefix s ps

pub less-asym : (a b : Bytes) → less a b ≡ true → less b a ≡ false
unfolding less
less-asym [] [] h = cc
less-asym [] (y ∷ ys) h = refl
less-asym (x ∷ xs) [] h = cc
less-asym (x ∷ xs) (y ∷ ys) h = ground (arith, less-asym xs ys)

pub less-le_trans : (a b c : Bytes) → less b a ≡ false → less c b ≡ false → less c a ≡ false
unfolding less
less-le_trans [] b [] h k = refl
less-le_trans [] [] (z ∷ zs) h k = refl
less-le_trans [] (y ∷ ys) (z ∷ zs) h k = refl
less-le_trans (x ∷ xs) [] c h k = cc
less-le_trans (x ∷ xs) (y ∷ ys) [] h k = cc
less-le_trans (x ∷ xs) (y ∷ ys) (z ∷ zs) h k = ground (arith, less-le_trans xs ys zs)

pub less-total : (a b : Bytes) → less a b ≡ false → less b a ≡ false → equal a b ≡ true
unfolding less equal
less-total [] [] h k = refl
less-total [] (y ∷ ys) h k = cc
less-total (x ∷ xs) [] h k = cc
less-total (x ∷ xs) (y ∷ ys) h k = ground (arith, less-total xs ys)
