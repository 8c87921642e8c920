-- ===== src/Dom/Parser/Complex.antt =====
-- `parseComplex`, `parseSelectorList` and `ParseSelector`.
use scrape_kdl.Common.Outcome.{Outcome, ok, err, ◌>>=◌}
use scrape_kdl.Common.Text.{Bytes, codes}
use scrape_kdl.Common.{ℕ, zero, suc, Bool, ◌||◌, [], ◌∷◌, length, if◌then◌else◌}
use scrape_kdl.Diagnostic.{plain}
use scrape_kdl.Dom.Parser.Compound.{parse_compound}
use scrape_kdl.Dom.Parser.Cursor.{
  Cursor, SelectorError, out_of_fuel, Parsing, fail_with, at_end, next_is, step, skip_whitespace,
  moved,
}
use scrape_kdl.Dom.Selector.{
  Combinator, no_combinator, descendant, child, adjacent, general_sibling, CompoundSelector,
  ComplexSelector, Selector,
}

-- The combinator at the cursor, behind white space if `spaced`, and the cursor behind it.
unfoldable pub parse_combinator : Bool → Cursor → Parsing Combinator
parse_combinator spaced c =
    if next_is b'>' c
    then ok (child, skip_whitespace (step c))
    else if next_is b'+' c
    then ok (adjacent, skip_whitespace (step c))
    else if next_is b'~' c
    then ok (general_sibling, skip_whitespace (step c))
    else if spaced
    then ok (descendant, c)
    else fail_with c (plain (codes "expected combinator"))

abbrev pub ends_complex : Cursor → Bool
ends_complex c = at_end c || next_is b',' c || next_is b')' c

-- The loop over the parts behind the first one, on the parser of a compound.
unfoldable pub parse_parts :
    (Cursor → Parsing CompoundSelector) → ℕ → Cursor → Parsing ComplexSelector
parse_parts parse_one zero behind = err out_of_fuel
parse_parts parse_one (suc fuel) behind =
    let c = skip_whitespace behind in
    let rest = parse_combinator (moved behind c) c >>= λ (combinator, d). parse_one d >>= λ (s, e).
    parse_parts parse_one fuel e >>= λ (parts, f).
    ok (record { combinator = combinator; compound = s } ∷ parts, f) in
    if ends_complex c then ok ([], c) else rest

unfoldable pub parse_complex :
    (Cursor → Parsing CompoundSelector) → Cursor → Parsing ComplexSelector
parse_complex parse_one c = do
  (s, d) ← parse_one c
  (parts, e) ← parse_parts parse_one (suc (length d.rest)) d
  ok (record { combinator = no_combinator; compound = s } ∷ parts, e)

-- `parseSelectorList`. Each pass of its loop adds a group, so it never returns the error for none.
unfoldable pub parse_groups : (Cursor → Parsing CompoundSelector) → ℕ → Cursor → Parsing Selector
parse_groups parse_one zero c = err out_of_fuel
parse_groups parse_one (suc fuel) c = do
  (group, d) ← parse_complex parse_one (skip_whitespace c)
  let e = skip_whitespace d
  let f = skip_whitespace (step e)
  let rest = parse_groups parse_one fuel f >>= λ (groups, g). ok (group ∷ groups, g)
  if next_is b',' e
      then (if at_end f
          then fail_with f (plain (codes "selector list cannot end with comma"))
          else rest)
      else ok (group ∷ [], e)

unfoldable pub finish_selector : Selector × Cursor → Outcome SelectorError Selector
finish_selector (selector, c) =
    let end = skip_whitespace c in
    if at_end end then ok selector else fail_with end (plain (codes "unexpected token"))

-- `ParseSelector`.
unfoldable pub parse_selector : Bytes → Outcome SelectorError Selector
parse_selector input = do
  result ←
      parse_groups (parse_compound (suc (length input))) (suc (length input))
        (record { i = 0; rest = input })
  finish_selector result
