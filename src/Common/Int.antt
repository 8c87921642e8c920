-- ===== src/Common/Int.antt =====
-- Go's signed integers over the native numbers, under the library's names. The functions that
-- keep a result within 64 bits say so where they stand.
use Prim.Native.Nat.{ℕ, suc, ◌-◌}
use scrape_kdl.Common.Tests.{leb, if◌then◌else◌}

-- `negsuc n` is -(n + 1).
pub data ℤ : Type 0 where
  pos : ℕ → ℤ
  negsuc : ℕ → ℤ

-- a - b, as an integer.
abbrev pub sub_ℕ : ℕ → ℕ → ℤ
sub_ℕ a b = if leb b a then pos (a - b) else negsuc (b - a - 1)

abbrev pub abs : ℤ → ℕ
abs (pos n) = n
abs (negsuc n) = suc n
