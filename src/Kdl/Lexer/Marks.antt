-- ===== src/Kdl/Lexer/Marks.antt =====
-- Raw strings, keywords and numbers: their tokens span the text that was read.
use mathlib.Core.Path.{subst}
use scrape_kdl.Common.Int.{ℤ}
use scrape_kdl.Common.Text.{Bytes, codes, has_prefix}
use scrape_kdl.Common.{
  ℕ, zero, suc, ◌+◌, ◌<◌, Bool, true, false, not, ◌&&◌, ◌||◌, [], ◌∷◌, ◌-◌, ◌⊎◌, get_or, sym, ap,
  ◌≡◌, arith, any, length, Option, none, some, Bool-cases, inl, inr, if_both, if◌then◌else◌, ◌==◌,
}
use scrape_kdl.Kdl.Lexer.Ahead.{
  Ahead, Ahead-refl, Ahead-trans, Ahead-le, skip-Ahead, skip-lt, skip_n-Ahead, skip_while-Ahead,
  skip_while-lt,
}
use scrape_kdl.Kdl.Lexer.Number.{
  skip_digits, skip_sign, int_token, scan_prefixed, skip_fraction, skip_exponent, decimal_token,
  scan_decimal, scan_number, is_exponent, is_octal_digit, is_binary_digit, without_underscores,
}
use scrape_kdl.Kdl.Lexer.Progress.{Scanned, Scanned-trans, made, failed, skip2-Ahead}
use scrape_kdl.Kdl.Lexer.Raw.{
  all_peek, closes, close_raw, unterminated_raw, raw_loop, scan_raw, scan_hash_token, count_hashes,
}
use scrape_kdl.Kdl.Lexer.{
  Lexer, skip, skip_n, slice, at_end, peek, is_digit, is_hex_digit, is_boundary, is_number_start,
}
use scrape_kdl.Kdl.Literal.{parse_int_prefixed, parse_float}
use scrape_kdl.Kdl.Token.{Token}
use scrape_kdl.Source.{Position}

raw_loop-Scanned :
    (f quotes hashes begin : ℕ) (start : Position) (l : Lexer)
    → Scanned l start (raw_loop f quotes hashes begin start l)
unfolding raw_loop unterminated_raw close_raw
raw_loop-Scanned zero quotes hashes begin start l = failed _ [] start (Ahead-refl l)
raw_loop-Scanned (suc f) quotes hashes begin start l =
    let P = Scanned l start in
    if_both P (at_end l) (failed _ [] start (Ahead-refl l)) (
      if_both P (closes quotes hashes l) (made start (λ e. cc) (skip_n-Ahead (quotes + hashes) l))
        (Scanned-trans (skip-Ahead l) (raw_loop-Scanned f quotes hashes begin start (skip l))))

scan_raw-Scanned :
    (hashes : ℕ) (start : Position) (l : Lexer) → Scanned l start (scan_raw hashes start l)
unfolding scan_raw
scan_raw-Scanned hashes start l =
    let quotes : ℕ = if all_peek b'"' l 0 3 then 3 else 1 in
    Scanned-trans (skip_n-Ahead quotes l)
      (raw_loop-Scanned _ quotes hashes _ start (skip_n quotes l))

count_hashes-pos :
    (s : Bytes) → (get_or s 0 0 == b'#') ≡ true → count_hashes s ≡ suc (count_hashes s - 1)
unfolding count_hashes
count_hashes-pos [] h = cc
count_hashes-pos (c ∷ s) h = ground arith

-- Behind the first `#`.
hashes-Ahead :
    (l : Lexer) → (peek l 0 == b'#') ≡ true → Ahead (skip l) (skip_n (count_hashes l.rest) l)
hashes-Ahead l h =
    let one = count_hashes-pos l.rest h in
    subst (λ n. Ahead (skip l) (skip_n n l)) (sym one)
      (unfold skip_n in skip_n-Ahead (count_hashes l.rest - 1) (skip l))

keyword-Ahead : (n : ℕ) (l : Lexer) → Ahead (skip l) (skip_n (suc n) l)
unfolding skip_n
keyword-Ahead n l = skip_n-Ahead n (skip l)

pub scan_hash_token-Scanned :
    (start : Position) (l : Lexer)
    → (peek l 0 == b'#') ≡ true
    → Scanned (skip l) start (scan_hash_token start l)
unfolding scan_hash_token
scan_hash_token-Scanned start l h =
    let P = Scanned (skip l) start in
    if_both P (has_prefix l.rest (codes "#true") && is_boundary (peek l 5))
      (made start (λ e. cc) (keyword-Ahead 4 l))
      (if_both P (has_prefix l.rest (codes "#false") && is_boundary (peek l 6))
        (made start (λ e. cc) (keyword-Ahead 5 l))
        (if_both P (has_prefix l.rest (codes "#null") && is_boundary (peek l 5))
          (made start (λ e. cc) (keyword-Ahead 4 l))
          (if_both P (not (peek l (count_hashes l.rest) == b'"'))
            (failed _ [] start (Ahead-refl (skip l)))
            (Scanned-trans (hashes-Ahead l h)
              (scan_raw-Scanned (count_hashes l.rest) start (skip_n (count_hashes l.rest) l))))))

skip_digits-Ahead : (valid : ℕ → Bool) (l : Lexer) → Ahead l (skip_digits valid l)
unfolding skip_digits
skip_digits-Ahead valid l = skip_while-Ahead _ (length l.rest) l

skip_sign-Ahead : (l : Lexer) → Ahead l (skip_sign l)
unfolding skip_sign
skip_sign-Ahead l =
    if_both (Ahead l) (peek l 0 == b'+' || peek l 0 == b'-') (skip-Ahead l) (Ahead-refl l)

int_token-Scanned :
    (raw : Bytes) (start : Position) {l m : Lexer} (v : Option ℤ)
    → Ahead l m
    → Scanned l start (int_token raw start m v)
unfolding int_token
int_token-Scanned raw start (some v) a = made start (λ e. cc) a
int_token-Scanned raw start none a = failed _ raw start a

scan_prefixed-Scanned :
    (valid : ℕ → Bool) (begin : ℕ) (start : Position) (l : Lexer)
    → Scanned (skip (skip l)) start (scan_prefixed valid begin start l)
unfolding scan_prefixed
scan_prefixed-Scanned valid begin start l =
    let first = skip (skip l) in
    let last = skip_digits valid first in
    let a = skip_digits-Ahead valid first in
    if_both (Scanned first start) (any (λ c. not (c == b'_')) (slice last first.offset))
      (int_token-Scanned _ start (parse_int_prefixed 64 (without_underscores (slice last begin))) a)
      (failed _ (slice last begin) start a)

skip_fraction-Ahead : (l : Lexer) → Ahead l (skip_fraction l)
unfolding skip_fraction
skip_fraction-Ahead l =
    if_both (Ahead l) (peek l 0 == b'.')
      (Ahead-trans (skip-Ahead l) (skip_digits-Ahead is_digit (skip l))) (Ahead-refl l)

skip_exponent-Ahead : (l : Lexer) → Ahead l (skip_exponent l)
unfolding skip_exponent
skip_exponent-Ahead l =
    if_both (Ahead l) (is_exponent l)
      (Ahead-trans (Ahead-trans (skip-Ahead l) (skip_sign-Ahead (skip l)))
        (skip_digits-Ahead is_digit (skip_sign (skip l))))
      (Ahead-refl l)

decimal_token-Scanned :
    (float : Bool) (raw : Bytes) (start : Position) {l m : Lexer}
    → Ahead l m
    → Scanned l start (decimal_token float raw start m)
unfolding decimal_token
decimal_token-Scanned true raw start {l} a =
    if_both (Scanned l start) (parse_float (without_underscores raw)) (made start (λ e. cc) a)
      (failed _ raw start a)
decimal_token-Scanned false raw start a = int_token-Scanned raw start _ a

scan_decimal-Scanned :
    (begin : ℕ) (start : Position) (l : Lexer)
    → Scanned (skip_digits is_digit l) start (scan_decimal begin start l)
unfolding scan_decimal
scan_decimal-Scanned begin start l =
    let whole = skip_digits is_digit l in
    decimal_token-Scanned _ _ start
      (Ahead-trans (skip_fraction-Ahead whole) (skip_exponent-Ahead (skip_fraction whole)))

-- A number takes the two bytes of a prefix, or begins with its digits.
abbrev Begins : Position → Lexer → Token × Lexer → Type 0
Begins start l r = Scanned (skip (skip l)) start r ⊎ Scanned (skip_digits is_digit l) start r

scan_number-Begins :
    (start : Position) (l : Lexer) → Begins start (skip_sign l) (scan_number start l)
unfolding scan_number
scan_number-Begins start l =
    let body = skip_sign l in
    let P = Begins start body in
    let decimal : P (scan_decimal l.offset start body) =
      inr (scan_decimal-Scanned l.offset start body) in
    let based = λ (valid : ℕ → Bool). scan_prefixed-Scanned valid l.offset start body in
    if_both P (not (peek body 0 == b'0')) decimal (
      if_both P (peek body 1 == b'x' || peek body 1 == b'X') (inl (based is_hex_digit)) (
        if_both P (peek body 1 == b'o' || peek body 1 == b'O') (inl (based is_octal_digit)) (
          if_both P (peek body 1 == b'b' || peek body 1 == b'B') (inl (based is_binary_digit))
            decimal)))

Begins-Scanned :
    (start : Position) (l : Lexer) (r : Token × Lexer) → Begins start l r → Scanned l start r
Begins-Scanned start l r (inl s) = Scanned-trans (skip2-Ahead l) s
Begins-Scanned start l r (inr s) = Scanned-trans (skip_digits-Ahead is_digit l) s

pub scan_number-Scanned : (start : Position) (l : Lexer) → Scanned l start (scan_number start l)
scan_number-Scanned start l =
    Scanned-trans (skip_sign-Ahead l)
      (Begins-Scanned start (skip_sign l) (scan_number start l) (scan_number-Begins start l))

Begins-lt :
    (start : Position) (l : Lexer) (r : Token × Lexer)
    → at_end l ≡ false
    → is_digit (peek l 0) ≡ true
    → Begins start l r
    → length r.1.rest < length l.rest
unfolding skip_digits
Begins-lt start l r inside digit (inl s) =
    omega (arith, skip-lt l inside, Ahead-le (skip-Ahead (skip l)), Ahead-le s.ahead)
Begins-lt start l r inside digit (inr s) = omega (
  arith,
  Ahead-le s.ahead,
  skip_while-lt (λ m. is_digit (peek m 0) || peek m 0 == b'_') l inside (ground arith),
)

-- Where a number starts, at least one byte is read.
pub scan_number-lt :
    (start : Position) (l : Lexer)
    → at_end l ≡ false
    → is_number_start (peek l 0) (peek l 1) ≡ true
    → length (scan_number start l).1.rest < length l.rest
unfolding is_number_start
scan_number-lt start l inside h = elim (Bool-cases (peek l 0 == b'+' || peek l 0 == b'-')) [
  | inl minus ↦
      let body : skip_sign l ≡ skip l = unfold skip_sign in rw minus in
      let s =
        Begins-Scanned start (skip_sign l) (scan_number start l) (scan_number-Begins start l) in
      omega (arith, ap (λ (m : Lexer). length m.rest) body, skip-lt l inside, Ahead-le s.ahead)
  | inr plain ↦
      let body : skip_sign l ≡ l = unfold skip_sign in rw plain in
      Begins-lt start l (scan_number start l) inside (ground arith)
        (subst (λ m. Begins start m (scan_number start l)) body (scan_number-Begins start l))
]
