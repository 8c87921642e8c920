-- ===== src/Dom/Nth.antt =====
-- internal/dom/selector.go: `matches` of `NthExpression`, in 64-bit integers.
use scrape_kdl.Common.Int.{ℤ, pos, negsuc, sub_ℕ, abs}
use scrape_kdl.Common.{
  ℕ, zero, suc, ◌+◌, ◌-◌, ◌/◌, ◌%◌, ◌^◌, Bool, true, false, ◌&&◌, Option, none, some, ltb, ◌==◌,
  if◌then◌else◌,
}
use scrape_kdl.Dom.Selector.{NthExpression}

-- The 64-bit value of an integer.
unfoldable pub wrap : ℤ → ℤ
wrap (pos n) =
    if ltb (n % 2 ^ 64) (2 ^ 63) then pos (n % 2 ^ 64) else negsuc (2 ^ 64 - 1 - n % 2 ^ 64)
wrap (negsuc n) =
    if ltb (n % 2 ^ 64) (2 ^ 63) then negsuc (n % 2 ^ 64) else pos (2 ^ 64 - 1 - n % 2 ^ 64)

-- `position - b` before it is wrapped.
abbrev pub minus : ℕ → ℤ → ℤ
minus position (pos b) = sub_ℕ position b
minus position (negsuc b) = pos (position + suc b)

abbrev pub negative : ℕ → ℤ
negative zero = pos 0
negative (suc n) = negsuc n

-- Division towards 0, for a divisor that is not 0.
abbrev pub quotient : ℤ → ℤ → ℤ
quotient (pos d) (pos a) = pos (d / a)
quotient (pos d) (negsuc a) = negative (d / suc a)
quotient (negsuc d) (pos a) = negative (suc d / a)
quotient (negsuc d) (negsuc a) = pos (suc d / suc a)

abbrev pub is_natural : ℤ → Bool
is_natural (pos n) = true
is_natural (negsuc n) = false

abbrev pub is_number : ℤ → ℕ → Bool
is_number (pos b) position = position == b
is_number (negsuc b) position = false

-- The rest of `matches` for A ≠ 0.
abbrev pub divides_difference : ℤ → ℤ → Bool
divides_difference a d = abs d % abs a == 0 && is_natural (wrap (quotient d a))

-- The method `matches` of `NthExpression`.
unfoldable pub nth_matches : NthExpression → ℕ → Bool
nth_matches e position =
    if position == 0
    then false
    else if abs e.a == 0
    then is_number e.b position
    else divides_difference e.a (wrap (minus position e.b))

abbrev pub nth_of : Option NthExpression → ℕ → Bool
nth_of none position = false
nth_of (some e) position = nth_matches e position
