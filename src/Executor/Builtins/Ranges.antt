-- ===== src/Executor/Builtins/Ranges.antt =====
-- What `builtinParseInt` returns lies within the range of its target.
use scrape_kdl.Common.Int.{ℤ}
use scrape_kdl.Common.Outcome.{ok, err}
use scrape_kdl.Common.Strings.{contains}
use scrape_kdl.Common.Text.{Bytes, codes, equal, equal_iff, has_prefix}
use scrape_kdl.Common.{
  ℕ, zero, suc, ◌-◌, ◌^◌, ◌<◌, Bool, true, false, ◌||◌, [], ◌∷◌, Option, none, some, ◌≡◌, refl, inl,
  inr, arith, ltb, ◌==◌, if_rule, if_both, Bool-cases, ap, sym,
}
use scrape_kdl.Executor.Builtins.Arguments.{Result}
use scrape_kdl.Executor.Builtins.Parse.{
  read_radix, signed_bits, unsigned_bits, IntSize, as_integer, in_bits, without_plus,
  parse_unsigned, parse_sized, parse_integer,
}
use scrape_kdl.Executor.Integer.{
  Target, int_target, i8, i16, i32, i64, u8, u16, u32, u64, spelled, held_in, holds,
}
use scrape_kdl.Executor.Normalize.{fits_signed, fits_unsigned}
use scrape_kdl.Executor.Value.{IntType, Value, integer}
use scrape_kdl.Kdl.Literal.{parse_signed, signed}

-- A size that belongs to a name, where `fits` is the test of the range.
abbrev Sized : (ℕ → ℤ → Bool) → Bytes → IntSize → Type 0
Sized fits name none = Unit
Sized fits name (some (bits, t)) =
    (target : Target) × (name ≡ spelled target)
    × (held_in target ≡ t)
    × ((k : ℤ) → fits bits k ≡ true → holds t k ≡ true)

abbrev fits_bits : ℕ → ℤ → Bool
fits_bits bits k = fits_signed (2 ^ (bits - 1)) k

abbrev fits_natural_bits : ℕ → ℤ → Bool
fits_natural_bits bits k = fits_unsigned (2 ^ bits) k

module _ (fits : ℕ → ℤ → Bool) (name : Bytes) where
  named_size :
      (target : Target) (bits : ℕ)
      → ((k : ℤ) → fits bits k ≡ true → holds (held_in target) k ≡ true)
      → equal name (spelled target) ≡ true
      → Sized fits name (some (bits, held_in target))
  named_size target bits h e = (target, (equal_iff name (spelled target)).0 e, refl, h)

signed_bits-Sized : (name : Bytes) → Sized fits_bits name (signed_bits name)
unfolding signed_bits holds
signed_bits-Sized name =
    if_rule (Sized fits_bits name) (equal name (codes "int") || equal name (codes "i64"))
      (λ h. elim (Bool-cases (equal name (codes "int"))) [
        | inl e ↦ named_size fits_bits name int_target 64 (λ k fits. fits) e
        | inr e ↦ named_size fits_bits name i64 64 (λ k fits. fits) (ground (arith, h, e))
      ])
      λ _.
        if_rule (Sized fits_bits name) (equal name (codes "i8"))
          (named_size fits_bits name i8 8 λ k fits. fits)
          λ _.
            if_rule (Sized fits_bits name) (equal name (codes "i16"))
              (named_size fits_bits name i16 16 λ k fits. fits)
              λ _.
                if_rule (Sized fits_bits name) (equal name (codes "i32"))
                  (named_size fits_bits name i32 32 λ k fits. fits) λ _. tt

unsigned_bits-Sized : (name : Bytes) → Sized fits_natural_bits name (unsigned_bits name)
unfolding unsigned_bits holds
unsigned_bits-Sized name =
    if_rule (Sized fits_natural_bits name) (equal name (codes "u8"))
      (named_size fits_natural_bits name u8 8 λ k fits. fits)
      λ _.
        if_rule (Sized fits_natural_bits name) (equal name (codes "u16"))
          (named_size fits_natural_bits name u16 16 λ k fits. fits)
          λ _.
            if_rule (Sized fits_natural_bits name) (equal name (codes "u32"))
              (named_size fits_natural_bits name u32 32 λ k fits. fits)
              λ _.
                if_rule (Sized fits_natural_bits name) (equal name (codes "u64"))
                  (named_size fits_natural_bits name u64 64 λ k fits. fits) λ _. tt

positive : (n : ℕ) → 0 < 2 ^ n
positive zero = omega arith
positive (suc n) = omega (arith, positive n)

-- What is read fits.
abbrev Fitting : (ℤ → Bool) → Option ℤ → Type 0
Fitting fits none = Unit
Fitting fits (some k) = fits k ≡ true

signed-Fitting :
    (bits : ℕ) (minus : Bool) (o : Option ℕ) → Fitting (fits_bits bits) (signed bits minus o)
unfolding signed fits_signed
signed-Fitting bits minus none = tt
signed-Fitting bits false (some n) = ground arith
signed-Fitting bits true (some zero) = ground (arith, positive (bits - 1))
signed-Fitting bits true (some (suc n)) = ground arith

parse_signed-Fitting :
    (read : Bytes → Option ℕ) (bits : ℕ) (s : Bytes)
    → Fitting (fits_bits bits) (parse_signed read bits s)
unfolding parse_signed
parse_signed-Fitting read bits [] = tt
parse_signed-Fitting read bits (c ∷ s) =
    if_both (Fitting (fits_bits bits)) (c == b'-') (signed-Fitting bits true (read s)) (
      if_both (Fitting (fits_bits bits)) (c == b'+') (signed-Fitting bits false (read s))
        (signed-Fitting bits false (read (c ∷ s))))

in_bits-Fitting : (bits : ℕ) (o : Option ℕ) → Fitting (fits_natural_bits bits) (in_bits bits o)
unfolding fits_unsigned
in_bits-Fitting bits none = tt
in_bits-Fitting bits (some n) =
    if_rule (Fitting (fits_natural_bits bits)) (ltb n (2 ^ bits)) (λ h. h) λ _. tt

-- An integer of a target of the name, in its range, or an error.
abbrev pub InRange : Bytes → Result Value → Type 0
InRange name (err e) = Unit
InRange name (ok v) =
    (target : Target) × (k : ℤ) × (name ≡ spelled target)
    × (v ≡ integer (held_in target) k)
    × (holds (held_in target) k ≡ true)

as_integer-InRange :
    (fits : ℕ → ℤ → Bool) (name : Bytes) (bits : ℕ) (t : IntType) (o : Option ℤ)
    → Sized fits name (some (bits, t))
    → Fitting (fits bits) o
    → InRange name (as_integer t o)
as_integer-InRange fits name bits t none h k = tt
as_integer-InRange fits name bits t (some k) (target, named, held, ranges) fitting =
    (target, k, named, ap (λ u. integer u k) (sym held), rw held (ranges k fitting))

parse_unsigned-InRange :
    (value : Bytes) (radix : ℤ) (name : Bytes) (size : IntSize)
    → Sized fits_natural_bits name size
    → InRange name (parse_unsigned value radix size)
parse_unsigned-InRange value radix name none h = tt
parse_unsigned-InRange value radix name (some (bits, t)) h =
    if_both (InRange name) (has_prefix value (codes "-")) tt (
      as_integer-InRange fits_natural_bits name bits t _ h
        (in_bits-Fitting bits (read_radix radix (without_plus value))))

parse_sized-InRange :
    (value : Bytes) (radix : ℤ) (name : Bytes) (size : IntSize)
    → Sized fits_bits name size
    → InRange name (parse_sized value radix name size)
parse_sized-InRange value radix name none h =
    parse_unsigned-InRange value radix name (unsigned_bits name) (unsigned_bits-Sized name)
parse_sized-InRange value radix name (some (bits, t)) h =
    as_integer-InRange fits_bits name bits t _ h
      (parse_signed-Fitting (read_radix radix) bits value)

-- On every text, target and radix parse-int ends with an error or with an integer in the Go type
-- that belongs to the target, within the range of that type; so the conversions of `parsed` to
-- fewer bits lose nothing.
pub parse_integer-InRange :
    (value name : Bytes) (radix : ℤ) → InRange name (parse_integer value name radix)
unfolding parse_integer
parse_integer-InRange value name radix =
    if_both (InRange name) (contains value (codes "_") || equal value []) tt
      (parse_sized-InRange value radix name (signed_bits name) (signed_bits-Sized name))
