-- ===== src/Kdl/Lexer/Ahead.antt =====
-- What every method of the lexer keeps: it moves forward over the text, and its counters say how far.
use scrape_kdl.Common.Text.{Bytes}
use scrape_kdl.Common.Utf8.{decode_rune, decode_rune_width, decode_rune_newlines}
use scrape_kdl.Common.{
  ℕ, zero, suc, ◌+◌, ◌≤◌, ◌<◌, Bool, true, false, [], ◌∷◌, ◌++◌, ◌≡◌, ◌≢◌, refl, sym, ap, ◌∙◌,
  arith, take, length, count, append_assoc, length-append, length-drop, count-append,
  take-append-drop, length-take, Bool-cases, inl, inr,
}
use scrape_kdl.Kdl.Lexer.{Lexer, advance_over, advance, skip, skip_n, skip_while, at_end, is_nil}

-- `m` is `l` after some bytes were taken from the text.
pub record Ahead (l m : Lexer) : Type 0 where
  pub taken : Bytes
  pub splits : l.rest ≡ taken ++ m.rest
  pub moved : m.offset ≡ l.offset + length taken
  pub lines : m.line ≡ l.line + count b'\n' taken
  pub input_kept : m.input ≡ l.input
  pub path_kept : m.path ≡ l.path

pub Ahead-refl : (l : Lexer) → Ahead l l
Ahead-refl l = record {
  taken = [];
  splits = refl;
  moved = omega arith;
  lines = omega arith;
  input_kept = refl;
  path_kept = refl;
}

pub Ahead-trans : {l m n : Lexer} → Ahead l m → Ahead m n → Ahead l n
Ahead-trans {n} a b = record {
  taken = a.taken ++ b.taken;
  splits = a.splits ∙ ap (λ s. a.taken ++ s) b.splits ∙ sym (append_assoc a.taken b.taken n.rest);
  moved = omega (arith, a.moved, b.moved, length-append a.taken b.taken);
  lines = omega (arith, a.lines, b.lines, count-append b'\n' a.taken b.taken);
  input_kept = b.input_kept ∙ a.input_kept;
  path_kept = b.path_kept ∙ a.path_kept;
}

pub Ahead-le : {l m : Lexer} → Ahead l m → length m.rest ≤ length l.rest
Ahead-le {l} {m} a = omega (arith, ap length a.splits, length-append a.taken m.rest)

advance_over-Ahead : (l : Lexer) (s : Bytes) → l.rest ≡ s → Ahead l (advance_over l s).1
unfolding advance_over
advance_over-Ahead l [] e = Ahead-refl l
advance_over-Ahead l (b ∷ s) e =
    let size = (decode_rune (b ∷ s)).1 in
    record {
      taken = take size (b ∷ s);
      splits = e ∙ sym (take-append-drop size (b ∷ s));
      moved = omega (arith, length-take size (b ∷ s), decode_rune_width b s);
      lines = ground (arith, decode_rune_newlines b s);
      input_kept = refl;
      path_kept = refl;
    }

pub skip-Ahead : (l : Lexer) → Ahead l (skip l)
unfolding advance
skip-Ahead l = advance_over-Ahead l l.rest refl

-- Where a byte is left, `advance` takes one.
skip-lt_over : (l : Lexer) (s : Bytes) → s ≢ [] → length (advance_over l s).1.rest < length s
unfolding advance_over
skip-lt_over l [] h = absurd (h refl)
skip-lt_over l (b ∷ s) h =
    omega (arith, length-drop (decode_rune (b ∷ s)).1 (b ∷ s), decode_rune_width b s)

pub skip-lt : (l : Lexer) → at_end l ≡ false → length (skip l).rest < length l.rest
unfolding advance
skip-lt l h = skip-lt_over l l.rest (λ e. cc (ap is_nil e, h))

is_nil-of_length : (s : Bytes) → length s ≤ 0 → is_nil s ≡ true
is_nil-of_length [] h = refl
is_nil-of_length (c ∷ s) h = absurd (omega arith)

pub at_end-of_length : (l : Lexer) → length l.rest ≤ 0 → at_end l ≡ true
at_end-of_length l h = is_nil-of_length l.rest h

pub skip_n-Ahead : (n : ℕ) (l : Lexer) → Ahead l (skip_n n l)
unfolding skip_n
skip_n-Ahead zero l = Ahead-refl l
skip_n-Ahead (suc n) l = Ahead-trans (skip-Ahead l) (skip_n-Ahead n (skip l))

pub skip_while-Ahead : (test : Lexer → Bool) (f : ℕ) (l : Lexer) → Ahead l (skip_while test f l)
unfolding skip_while
skip_while-Ahead test zero l = Ahead-refl l
skip_while-Ahead test (suc f) l = elim (Bool-cases (test l)) [
  | inl on ↦ rw on (Ahead-trans (skip-Ahead l) (skip_while-Ahead test f (skip l)))
  | inr off ↦ rw off (Ahead-refl l)
]

skip_while-lt_fuel :
    (test : Lexer → Bool) (f : ℕ) (l : Lexer)
    → at_end l ≡ false
    → test l ≡ true
    → 0 < f
    → length (skip_while test f l).rest < length l.rest
unfolding skip_while
skip_while-lt_fuel test zero l inside on h = absurd (omega arith)
skip_while-lt_fuel test (suc f) l inside on h =
    rw on (omega (arith, skip-lt l inside, Ahead-le (skip_while-Ahead test f (skip l))))

-- A loop that begins at all takes a byte.
pub skip_while-lt :
    (test : Lexer → Bool) (l : Lexer)
    → at_end l ≡ false
    → test l ≡ true
    → length (skip_while test (length l.rest) l).rest < length l.rest
skip_while-lt test l inside on =
    skip_while-lt_fuel test (length l.rest) l inside on (omega (arith, skip-lt l inside))
