-- ===== src/Typesys/Syntax.antt =====
-- The parser of types: what it returns is well formed, and its fuel is enough on every input.
use scrape_kdl.Common.Outcome.{Outcome, ok, err, ◌>>=◌}
use scrape_kdl.Common.Space.{trim_space}
use scrape_kdl.Common.Text.{Bytes}
use scrape_kdl.Common.{
  ℕ, zero, suc, ◌≤◌, ◌<◌, true, false, [], ◌∷◌, ◌≡◌, ◌≢◌, arith, length, Bool-cases, inl, inr, ◌==◌,
}
use scrape_kdl.Typesys.Print.{well_formed}
use scrape_kdl.Typesys.{
  Ty, array, nullable, ParseError, out_of_fuel, make_nullable, parse_primitive, parse_suffixes,
  close_group, parse_base, parse_type, finish_parse, parse, skip_blanks, read_name,
  has_nullable_kind,
}

-- What a run of a parser on `s` ends with: a well-formed type and no more text than there was,
-- or an error that the program returns.
abbrev Good : ℕ → Outcome ParseError (Ty × Bytes) → Type 0
Good n (ok (t, rest)) = (well_formed t ≡ true) × (length rest ≤ n)
Good n (err e) = e ≢ out_of_fuel

length-skip_blanks : (s : Bytes) → length (skip_blanks s) ≤ length s
unfolding skip_blanks
length-skip_blanks [] = omega arith
length-skip_blanks (c ∷ s) = ground (arith, length-skip_blanks s)

length-read_name : (s : Bytes) → length (read_name s).1 ≤ length s
unfolding read_name
length-read_name [] = omega arith
length-read_name (c ∷ s) = ground (arith, length-read_name s)

parse_primitive-Good : (s : Bytes) → Good (length s) (parse_primitive s)
unfolding parse_primitive
parse_primitive-Good s = ground (arith, length-read_name s)

make_nullable-well_formed :
    (t : Ty)
    → well_formed t ≡ true
    → has_nullable_kind t ≡ false
    → well_formed (make_nullable t) ≡ true
unfolding make_nullable
make_nullable-well_formed (nullable t) wf h = cc
make_nullable-well_formed _ wf h = ground arith

parse_suffixes-Good :
    (t : Ty) (n : ℕ) (s : Bytes) → well_formed t ≡ true → length s ≤ n → Good n (parse_suffixes t s)
unfolding parse_suffixes
parse_suffixes-Good t n [] wf h = ground arith
parse_suffixes-Good t n (c ∷ []) wf h = ground (arith, make_nullable-well_formed t)
parse_suffixes-Good t n (c ∷ d ∷ s) wf h = ground (
  arith,
  make_nullable-well_formed t,
  parse_suffixes-Good t n (d ∷ s),
  parse_suffixes-Good (array t) n s,
  parse_suffixes-Good (make_nullable t) n (d ∷ s),
)

close_group-Good :
    (t : Ty) (n : ℕ) (s : Bytes) → well_formed t ≡ true → length s ≤ n → Good n (close_group t s)
unfolding close_group
close_group-Good t n [] wf h = ground arith
close_group-Good t n (c ∷ s) wf h = ground arith

-- A bound step by step: what follows a good result is good if it is on what that leaves.
Good-bind :
    (n m : ℕ) (r : Outcome ParseError (Ty × Bytes))
    (f : Ty × Bytes → Outcome ParseError (Ty × Bytes))
    → Good n r
    → ((t : Ty) (rest : Bytes) → well_formed t ≡ true → length rest ≤ n → Good m (f (t, rest)))
    → Good m (r >>= f)
Good-bind n m (ok (t, rest)) f (wf, h) k = k t rest wf h
Good-bind n m (err e) f h k = h

parse_base-Good :
    (inner : Bytes → Outcome ParseError (Ty × Bytes)) (s : Bytes)
    → ((s' : Bytes) → length s' < length s → Good (length s') (inner s'))
    → Good (length s) (parse_base inner s)
unfolding parse_base
parse_base-Good inner [] h = parse_primitive-Good []
parse_base-Good inner (c ∷ s) h = elim (Bool-cases (c == b'(')) [
  | inl group ↦ rw group (
      Good-bind (length s) (suc (length s)) (inner s) _ (h s (omega arith)) λ t rest wf le.
        close_group-Good t _ (skip_blanks rest) wf (omega (arith, length-skip_blanks rest)))
  | inr name ↦ rw name (parse_primitive-Good (c ∷ s))
]

parse_type-Good : (f : ℕ) (s : Bytes) → length s < f → Good (length s) (parse_type f s)
unfolding parse_type
parse_type-Good zero s h = absurd (omega arith)
parse_type-Good (suc f) s h =
    let inner = skip_blanks s in
    Good-bind (length inner) (length s) (parse_base (parse_type f) inner) _
      (parse_base-Good (parse_type f) inner
        (λ s' lt. parse_type-Good f s' (omega (arith, length-skip_blanks s))))
      λ t rest wf le. parse_suffixes-Good t (length s) rest wf (omega (arith, length-skip_blanks s))

-- A type that `Parse` returns is well formed, and the error of the model's own never shows.
abbrev pub Parsed : Outcome ParseError Ty → Type 0
Parsed (ok t) = well_formed t ≡ true
Parsed (err e) = e ≢ out_of_fuel

finish_parse-Parsed :
    (n : ℕ) (t : Ty) (rest : Bytes) → well_formed t ≡ true → Parsed (finish_parse n t rest)
unfolding finish_parse
finish_parse-Parsed n t [] wf = wf
finish_parse-Parsed n t (c ∷ s) wf = cc

Parsed-bind :
    (n m : ℕ) (r : Outcome ParseError (Ty × Bytes))
    → Good m r
    → Parsed (r >>= λ (t, rest). finish_parse n t (skip_blanks rest))
Parsed-bind n m (ok (t, rest)) h = finish_parse-Parsed n t (skip_blanks rest) h.0
Parsed-bind n m (err e) h = h

-- On every text `Parse` returns a well-formed type or one of the errors of the program: the fuel
-- for nested parentheses, the length of the trimmed text, never runs out.
pub parse-Parsed : (input : Bytes) → Parsed (parse input)
unfolding parse
parse-Parsed input =
    let s = trim_space input in
    Parsed-bind (length s) (length s) (parse_type (suc (length s)) s)
      (parse_type-Good (suc (length s)) s (omega arith))
