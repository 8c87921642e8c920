-- ===== src/Executor/Builtins/IntegerRoundTrip.antt =====
-- `builtinParseInt` reads what `builtinToString` writes.
use scrape_kdl.Common.Int.{ℤ, pos, negsuc}
use scrape_kdl.Common.Outcome.{ok, ◌>>=◌}
use scrape_kdl.Common.Strings.{contains}
use scrape_kdl.Common.Text.{Bytes, codes, equal, has_prefix}
use scrape_kdl.Common.{
  ℕ, suc, ◌-◌, ◌^◌, true, false, ◌||◌, List, [], ◌∷◌, Option, some, ◌≡◌, refl, ◌∙◌, arith, all, leb,
}
use scrape_kdl.Executor.Builtins.Arguments.{require_string, required_string, optional_int}
use scrape_kdl.Executor.Builtins.Digits.{
  Digits, format_natural-Digits, read_digits-format_natural, contains-digits,
}
use scrape_kdl.Executor.Builtins.Library.{Library}
use scrape_kdl.Executor.Builtins.Parse.{
  format_natural, format_int, read_radix, signed_bits, unsigned_bits, as_integer, in_bits,
  without_plus, parse_unsigned, parse_integer, builtin_to_string, builtin_parse_int,
}
use scrape_kdl.Executor.Calls.{TransformRuntime}
use scrape_kdl.Executor.Integer.{
  Target, int_target, i8, i16, i32, i64, u8, u16, u32, u64, spelled, held_in, holds,
}
use scrape_kdl.Executor.Normalize.{fits_signed, fits_unsigned}
use scrape_kdl.Executor.Value.{IntType, integer}
use scrape_kdl.Ir.{NamedArgument}
use scrape_kdl.Kdl.Literal.{read_digits, read_magnitude, parse_signed, signed, is_digit}

read_radix-Digits : (s : Bytes) → Digits s → read_radix (pos 10) s ≡ read_digits 10 0 s
unfolding read_radix read_magnitude
read_radix-Digits [] h = absurd h
read_radix-Digits (c ∷ s) h = refl

read_radix-format_natural : (n : ℕ) → read_radix (pos 10) (format_natural n) ≡ some n
read_radix-format_natural n =
    read_radix-Digits (format_natural n) (format_natural-Digits n) ∙ read_digits-format_natural n

parse_signed-Digits :
    (read : Bytes → Option ℕ) (bits : ℕ) (s : Bytes)
    → Digits s
    → parse_signed read bits s ≡ signed bits false (read s)
unfolding parse_signed
parse_signed-Digits read bits [] h = absurd h
parse_signed-Digits read bits (c ∷ s) h = ground (arith, h.0)

without_plus-Digits : (s : Bytes) → Digits s → without_plus s ≡ s
without_plus-Digits [] h = absurd h
without_plus-Digits (c ∷ s) h = ground (arith, h.0)

has_prefix-Digits : (s : Bytes) → Digits s → has_prefix s (codes "-") ≡ false
unfolding has_prefix
has_prefix-Digits [] h = absurd h
has_prefix-Digits (c ∷ s) h = ground (arith, h.0)

read_signed :
    (bits : ℕ) (k : ℤ)
    → fits_signed (2 ^ (bits - 1)) k ≡ true
    → parse_signed (read_radix (pos 10)) bits (format_int k) ≡ some k
unfolding fits_signed format_int signed
read_signed bits (pos n) h =
    parse_signed-Digits (read_radix (pos 10)) bits (format_natural n) (format_natural-Digits n)
    ∙ (rw (read_radix-format_natural n, h) refl)
read_signed bits (negsuc n) h =
    let fits : leb (suc n) (2 ^ (bits - 1)) ≡ true = ground arith in
    unfold parse_signed in rw (read_radix-format_natural (suc n), fits) refl

read_unsigned :
    (bits : ℕ) (n : ℕ)
    → fits_unsigned (2 ^ bits) (pos n) ≡ true
    → in_bits bits (read_radix (pos 10) (without_plus (format_natural n))) ≡ some (pos n)
unfolding fits_unsigned
read_unsigned bits n h =
    rw
      (
        without_plus-Digits (format_natural n) (format_natural-Digits n),
        read_radix-format_natural n,
        h,
      )
      refl

Digits-all : (s : Bytes) → Digits s → all is_digit s ≡ true
Digits-all [] h = absurd h
Digits-all (c ∷ s) h = ground (arith, h.0, h.1)

not_empty : (s : Bytes) → Digits s → equal s [] ≡ false
unfolding equal
not_empty [] h = absurd h
not_empty (c ∷ s) h = refl

accepted : (k : ℤ) → (contains (format_int k) (codes "_") || equal (format_int k) []) ≡ false
unfolding format_int contains has_prefix equal
accepted (pos n) =
    rw
      (
        contains-digits (format_natural n)
            (Digits-all (format_natural n) (format_natural-Digits n)),
        not_empty (format_natural n) (format_natural-Digits n),
      )
      refl
accepted (negsuc n) =
    let written = format_natural (suc n) in
    rw (contains-digits written (Digits-all written (format_natural-Digits (suc n)))) refl

as_integer-parse_signed :
    (t : IntType) (bits : ℕ) (k : ℤ)
    → fits_signed (2 ^ (bits - 1)) k ≡ true
    → as_integer t (parse_signed (read_radix (pos 10)) bits (format_int k)) ≡ ok (integer t k)
as_integer-parse_signed t bits k h = rw (read_signed bits k h) refl

parse_unsigned-format_int :
    (t : IntType) (bits : ℕ) (k : ℤ)
    → fits_unsigned (2 ^ bits) k ≡ true
    → parse_unsigned (format_int k) (pos 10) (some (bits, t)) ≡ ok (integer t k)
unfolding fits_unsigned format_int
parse_unsigned-format_int t bits (negsuc n) h = absurd cc
parse_unsigned-format_int t bits (pos n) h =
    rw (has_prefix-Digits (format_natural n) (format_natural-Digits n), read_unsigned bits n h) refl

parse_integer-format_int :
    (t : Target) (k : ℤ)
    → holds (held_in t) k ≡ true
    → parse_integer (format_int k) (spelled t) (pos 10) ≡ ok (integer (held_in t) k)
unfolding parse_integer holds signed_bits unsigned_bits equal
parse_integer-format_int int_target k h = rw (accepted k) (as_integer-parse_signed _ 64 k h)
parse_integer-format_int i64 k h = rw (accepted k) (as_integer-parse_signed _ 64 k h)
parse_integer-format_int i8 k h = rw (accepted k) (as_integer-parse_signed _ 8 k h)
parse_integer-format_int i16 k h = rw (accepted k) (as_integer-parse_signed _ 16 k h)
parse_integer-format_int i32 k h = rw (accepted k) (as_integer-parse_signed _ 32 k h)
parse_integer-format_int u8 k h = rw (accepted k) (parse_unsigned-format_int _ 8 k h)
parse_integer-format_int u16 k h = rw (accepted k) (parse_unsigned-format_int _ 16 k h)
parse_integer-format_int u32 k h = rw (accepted k) (parse_unsigned-format_int _ 32 k h)
parse_integer-format_int u64 k h = rw (accepted k) (parse_unsigned-format_int _ 64 k h)

-- For every integer type of the language, parse-int in base 10 reads what to-string writes for an
-- integer of the type, the least and the greatest ones included, and returns it in the Go type that
-- it had.
pub builtin_parse_int-builtin_to_string :
    (runtime : TransformRuntime) (library : Library) (arguments : List NamedArgument) (t : Target)
    (k : ℤ)
    → required_string runtime library arguments (codes "as") ≡ ok (spelled t)
    → optional_int runtime library arguments (codes "radix") (pos 10) ≡ ok (pos 10)
    → holds (held_in t) k ≡ true
    → (builtin_to_string runtime.numbers (integer (held_in t) k)
        >>= builtin_parse_int runtime library arguments)
      ≡ ok (integer (held_in t) k)
unfolding builtin_to_string builtin_parse_int require_string
builtin_parse_int-builtin_to_string runtime library arguments t k target radix h =
    rw (target, radix) (parse_integer-format_int t k h)
