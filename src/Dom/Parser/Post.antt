-- ===== src/Dom/Parser/Post.antt =====
-- What the methods of the parser leave behind: a genuine error, or a result and a shorter text.
use scrape_kdl.Common.Outcome.{ok, err, ◌>>=◌}
use scrape_kdl.Common.Space.{is_space}
use scrape_kdl.Common.Text.{Bytes, equal}
use scrape_kdl.Common.{
  ℕ, suc, ◌+◌, ◌≤◌, ◌<◌, Bool, true, not, [], ◌∷◌, ◌≡◌, refl, arith, drop, length, length-drop,
  if_both,
}
use scrape_kdl.Dom.Parser.Cursor.{
  Cursor, is_genuine, Parsing, next_is, step, skip_spaces, skip_whitespace, is_ident_start,
  is_ident_continue, read_while, identifier_at, parse_identifier, with_byte,
}
use scrape_kdl.Dom.{to_lower}

-- A postcondition on the result of a method and the text that it leaves.
abbrev pub Ends {ℓ} : {A : Type ℓ} → (A → ℕ → Type 0) → Parsing A → Type 0
Ends P (ok (x, c)) = P x (length c.rest)
Ends P (err e) = is_genuine e ≡ true

pub Ends-bind {ℓ κ} :
    {A : Type ℓ} {B : Type κ} (P : A → ℕ → Type 0) (Q : B → ℕ → Type 0) (r : Parsing A)
    (f : A × Cursor → Parsing B)
    → Ends P r
    → ((x : A) (c : Cursor) → P x (length c.rest) → Ends Q (f (x, c)))
    → Ends Q (r >>= f)
Ends-bind P Q (ok (x, c)) f h k = k x c h
Ends-bind P Q (err e) f h k = h

pub Ends-imp {ℓ} :
    {A : Type ℓ} (P Q : A → ℕ → Type 0) (r : Parsing A)
    → ((x : A) (m : ℕ) → P x m → Q x m)
    → Ends P r
    → Ends Q r
Ends-imp P Q (ok (x, c)) f h = f x (length c.rest) h
Ends-imp P Q (err e) f h = h

-- Only the text that is left counts.
abbrev pub Within {ℓ} : {A : Type ℓ} → ℕ → A → ℕ → Type 0
Within n x m = m ≤ n

abbrev pub is_named : Bytes → Bool
is_named s = not (equal s [])

-- A name, and less text than there was.
abbrev pub NamedWithin : ℕ → Bytes → ℕ → Type 0
NamedWithin n x m = (is_named x ≡ true) × (m < n)

length-skip_spaces : (i : ℕ) (s : Bytes) → length (skip_spaces i s).rest ≤ length s
unfolding skip_spaces
length-skip_spaces i [] = omega arith
length-skip_spaces i (b ∷ s) =
    if_both (λ (c : Cursor). length c.rest ≤ suc (length s)) (is_space b)
      (omega (arith, length-skip_spaces (i + 1) s)) (omega arith)

pub length-skip_whitespace : (c : Cursor) → length (skip_whitespace c).rest ≤ length c.rest
unfolding skip_whitespace
length-skip_whitespace c = length-skip_spaces c.i c.rest

pub length-step : (c : Cursor) → length (step c).rest ≤ length c.rest
length-step c = omega (arith, length-drop 1 c.rest)

length-step_at :
    (b i : ℕ) (s : Bytes)
    → next_is b (record { i = i; rest = s }) ≡ true
    → length (drop 1 s) < length s
length-step_at b i [] h = absurd cc
length-step_at b i (a ∷ s) h = omega arith

pub length-step-next_is :
    (b : ℕ) (c : Cursor) → next_is b c ≡ true → length (step c).rest < length c.rest
length-step-next_is b c h = length-step_at b c.i c.rest h

pub length-read_while :
    (test : ℕ → Bool) (i : ℕ) (s : Bytes) → length (read_while test i s).1.rest ≤ length s
unfolding read_while
length-read_while test i [] = omega arith
length-read_while test i (b ∷ s) =
    if_both (λ (r : Bytes × Cursor). length r.1.rest ≤ suc (length s)) (test b)
      (omega (arith, length-read_while test (i + 1) s)) (omega arith)

identifier_at-Ends : (i : ℕ) (s : Bytes) → Ends (NamedWithin (length s)) (identifier_at i s)
unfolding identifier_at equal
identifier_at-Ends i [] = refl
identifier_at-Ends i (b ∷ s) =
    if_both (Ends (NamedWithin (suc (length s)))) (is_ident_start b)
      (refl, omega (arith, length-read_while is_ident_continue (i + 1) s)) refl

pub parse_identifier-Ends : (c : Cursor) → Ends (NamedWithin (length c.rest)) (parse_identifier c)
unfolding parse_identifier
parse_identifier-Ends c = identifier_at-Ends c.i c.rest

pub to_lower-is_named : (s : Bytes) → is_named s ≡ true → is_named (to_lower s) ≡ true
unfolding to_lower equal
to_lower-is_named [] h = h
to_lower-is_named (b ∷ s) h = refl

pub with_byte-Ends :
    (b n : ℕ) (r : Parsing Bytes) → Ends (Within n) r → Ends (Within n) (with_byte b r)
with_byte-Ends b n (ok (text, c)) h = h
with_byte-Ends b n (err e) h = h
