-- ===== src/Dom/Parser/WellFormed.antt =====
-- `ParseSelector` on every text: a well-formed selector, or an error of the program.
use scrape_kdl.Common.Outcome.{Outcome, ok, err, ◌>>=◌}
use scrape_kdl.Common.Text.{Bytes}
use scrape_kdl.Common.{ℕ, zero, suc, ◌≤◌, ◌<◌, Bool, true, ◌≡◌, refl, arith, all, length, if_both}
use scrape_kdl.Dom.Parser.Complex.{
  parse_combinator, ends_complex, parse_parts, parse_complex, parse_groups, finish_selector,
  parse_selector,
}
use scrape_kdl.Dom.Parser.Compound.{parse_compound}
use scrape_kdl.Dom.Parser.CompoundShape.{Compounded, parse_compound-Ends}
use scrape_kdl.Dom.Parser.Cursor.{
  Cursor, SelectorError, is_genuine, Parsing, at_end, next_is, step, skip_whitespace, moved,
}
use scrape_kdl.Dom.Parser.Post.{Ends, Ends-bind, length-skip_whitespace, length-step}
use scrape_kdl.Dom.Parser.Shape.{is_relation, is_part, is_complex, is_selector}
use scrape_kdl.Dom.Selector.{Combinator, CompoundSelector, ComplexSelector, Selector}

abbrev Related : ℕ → Combinator → ℕ → Type 0
Related n k m = (is_relation k ≡ true) × (m ≤ n)

parse_combinator-Ends :
    (spaced : Bool) (c : Cursor) → Ends (Related (length c.rest)) (parse_combinator spaced c)
unfolding parse_combinator
parse_combinator-Ends spaced c =
    let P = Ends (Related (length c.rest)) in
    let shorter : length (skip_whitespace (step c)).rest ≤ length c.rest =
      omega (arith, length-skip_whitespace (step c), length-step c) in
    if_both P (next_is b'>' c) (refl, shorter)
      (if_both P (next_is b'+' c) (refl, shorter)
        (if_both P (next_is b'~' c) (refl, shorter) (if_both P spaced (refl, omega arith) refl)))

abbrev AllParts : ℕ → ComplexSelector → ℕ → Type 0
AllParts n parts m = (all is_part parts ≡ true) × (m ≤ n)

abbrev Complexes : ℕ → ComplexSelector → ℕ → Type 0
Complexes n s m = (is_complex s ≡ true) × (m < n)

abbrev Selected : ℕ → Selector → ℕ → Type 0
Selected n s m = is_selector s ≡ true

-- A parser of compounds that may be trusted on every text of at most `n` bytes.
module _ (n : ℕ) (parse_one : Cursor → Parsing CompoundSelector)
    (parses : (c : Cursor)
      → length c.rest ≤ n
      → Ends (Compounded (length c.rest)) (parse_one c)) where
  parse_parts-Ends :
      (fuel : ℕ) (c : Cursor)
      → length c.rest ≤ n
      → length c.rest < fuel
      → Ends (AllParts (length c.rest)) (parse_parts parse_one fuel c)
  unfolding parse_parts
  parse_parts-Ends zero c le enough = absurd (omega arith)
  parse_parts-Ends (suc fuel) behind le enough =
      let c = skip_whitespace behind in
      let fewer = length-skip_whitespace behind in
      let m = length behind.rest in
      if_both (Ends (AllParts m)) (ends_complex c) (refl, fewer)
        (Ends-bind (Related (length c.rest)) (AllParts m) _ _
          (parse_combinator-Ends (moved behind c) c)
          λ k d related.
            Ends-bind (Compounded (length d.rest)) (AllParts m) _ _
              (parses d (omega (arith, related.1)))
              λ s e compounded.
                Ends-bind (AllParts (length e.rest)) (AllParts m) _ _
                  (parse_parts-Ends fuel e (omega (arith, related.1, compounded.1))
                    (omega (arith, related.1, compounded.1)))
                  λ parts f all_parts. (
                    ground (arith, related.0, compounded.0, all_parts.0),
                    omega (arith, related.1, compounded.1, all_parts.1),
                  ))

  parse_complex-Ends :
      (c : Cursor)
      → length c.rest ≤ n
      → Ends (Complexes (length c.rest)) (parse_complex parse_one c)
  unfolding parse_complex
  parse_complex-Ends c le =
      let m = length c.rest in
      Ends-bind (Compounded m) (Complexes m) _ _ (parses c le) λ s d compounded.
        Ends-bind (AllParts (length d.rest)) (Complexes m) _ _
          (parse_parts-Ends (suc (length d.rest)) d (omega (arith, compounded.1)) (omega arith))
          λ parts e all_parts.
            (ground (arith, compounded.0, all_parts.0), omega (arith, compounded.1, all_parts.1))

  parse_groups-Ends :
      (fuel : ℕ) (c : Cursor)
      → length c.rest ≤ n
      → length c.rest < fuel
      → Ends (Selected n) (parse_groups parse_one fuel c)
  unfolding parse_groups
  parse_groups-Ends zero c le enough = absurd (omega arith)
  parse_groups-Ends (suc fuel) c le enough =
      let start = skip_whitespace c in
      let fewer = length-skip_whitespace c in
      Ends-bind (Complexes (length start.rest)) (Selected n) _ _
        (parse_complex-Ends start (omega (arith, fewer)))
        λ group d complex.
          let e = skip_whitespace d in
          let f = skip_whitespace (step e) in
          let shorter : length f.rest < length c.rest = omega (
            arith,
            fewer,
            complex.1,
            length-skip_whitespace d,
            length-step e,
            length-skip_whitespace (step e),
          ) in
          if_both (Ends (Selected n)) (next_is b',' e)
            (if_both (Ends (Selected n)) (at_end f) refl (
              Ends-bind (Selected n) (Selected n) _ _
                (parse_groups-Ends fuel f (omega arith) (omega arith))
                λ groups g selected. ground (arith, complex.0)))
            (ground (arith, complex.0))

-- A well-formed selector, or an error that the program returns.
abbrev pub WellParsed : Outcome SelectorError Selector → Type 0
WellParsed (ok s) = is_selector s ≡ true
WellParsed (err e) = is_genuine e ≡ true

finish_selector-WellParsed :
    (n : ℕ) (r : Parsing Selector) → Ends (Selected n) r → WellParsed (r >>= finish_selector)
unfolding finish_selector
finish_selector-WellParsed n (ok (s, c)) h = if_both WellParsed (at_end (skip_whitespace c)) h refl
finish_selector-WellParsed n (err e) h = h

-- On every text `ParseSelector` returns an error of the program or a selector with at least one
-- group, in which the first part of a group has no combinator and every other one has one, every
-- compound has a component and no type beside `*`, no name is empty, every attribute has one of
-- the operators or none, and every pseudo-class has the argument it takes, down the negations.
-- The fuel of the model, the length of the text and one, never runs out.
pub parse_selector-WellParsed : (input : Bytes) → WellParsed (parse_selector input)
unfolding parse_selector
parse_selector-WellParsed input =
    let n = length input in
    finish_selector-WellParsed n _ (
      parse_groups-Ends n (parse_compound (suc n))
        (λ c le. parse_compound-Ends (suc n) c (omega arith)) (suc n)
        (record { i = 0; rest = input }) (omega arith) (omega arith))
