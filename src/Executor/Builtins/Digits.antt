-- ===== src/Executor/Builtins/Digits.antt =====
-- `builtinToString` and `builtinParseInt` undo each other on the integers of the language.
use scrape_kdl.Common.Strings.{contains}
use scrape_kdl.Common.Text.{Bytes, codes, has_prefix}
use scrape_kdl.Common.{
  ℕ, zero, suc, ◌+◌, ◌*◌, ◌/◌, ◌%◌, ◌<◌, true, false, [], ◌∷◌, some, ltb, ◌≡◌, refl, ◌∙◌, ap, inl,
  inr, arith, Bool-cases, all, if_both,
}
use scrape_kdl.Executor.Builtins.Parse.{digits_fuel, format_natural}
use scrape_kdl.Kdl.Literal.{digit_value, read_digits, is_digit}

digit_value-shown : (d : ℕ) → d < 10 → digit_value (b'0' + d) ≡ d
unfolding digit_value
digit_value-shown d h = ground arith

-- The digits that were written are read first, and they are there.
read_digits-digits_fuel :
    (f n : ℕ) (behind : Bytes)
    → n < f
    → read_digits 10 0 (digits_fuel f n behind) ≡ read_digits 10 n behind
unfolding digits_fuel read_digits
read_digits-digits_fuel zero n behind h = absurd (omega arith)
read_digits-digits_fuel (suc f) n behind h =
    let value = digit_value-shown (n % 10) (omega arith) in
    let small : ltb (n % 10) 10 ≡ true = ground arith in
    elim (Bool-cases (ltb n 10)) [
      | inl last ↦
          let whole : n % 10 ≡ n = ground arith in
          rw (last, value, small, whole) (ap (λ m. read_digits 10 m behind) (omega arith))
      | inr more ↦
          let again : n / 10 * 10 + n % 10 ≡ n = omega arith in
          rw more (
            read_digits-digits_fuel f (n / 10) ((b'0' + n % 10) ∷ behind) (ground arith)
            ∙ (rw (value, small, again) refl))
    ]

-- What is written is made of digits, at least one.
abbrev pub Digits : Bytes → Type 0
Digits [] = ⊥
Digits (c ∷ s) = (is_digit c ≡ true) × (all is_digit s ≡ true)

digits_fuel-Digits :
    (f n : ℕ) (behind : Bytes) → all is_digit behind ≡ true → Digits (digits_fuel (suc f) n behind)
unfolding digits_fuel
digits_fuel-Digits zero n behind h =
    let shown : is_digit (b'0' + n % 10) ≡ true = ground arith in
    if_both Digits (ltb n 10) (shown, h) (shown, h)
digits_fuel-Digits (suc f) n behind h =
    let shown : is_digit (b'0' + n % 10) ≡ true = ground arith in
    if_both Digits (ltb n 10) (shown, h)
      (digits_fuel-Digits f (n / 10) ((b'0' + n % 10) ∷ behind) (ground arith))

pub format_natural-Digits : (n : ℕ) → Digits (format_natural n)
unfolding format_natural
format_natural-Digits n = digits_fuel-Digits n n [] refl

pub read_digits-format_natural : (n : ℕ) → read_digits 10 0 (format_natural n) ≡ some n
unfolding format_natural read_digits
read_digits-format_natural n = read_digits-digits_fuel (suc n) n [] (omega arith)

pub contains-digits : (s : Bytes) → all is_digit s ≡ true → contains s (codes "_") ≡ false
unfolding contains has_prefix
contains-digits [] h = refl
contains-digits (c ∷ s) h = ground (arith, contains-digits s)
