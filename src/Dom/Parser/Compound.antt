-- ===== src/Dom/Parser/Compound.antt =====
-- `parseCompound`.
use scrape_kdl.Common.Outcome.{ok, err, ◌>>=◌}
use scrape_kdl.Common.Text.{Bytes, codes, equal}
use scrape_kdl.Common.{
  ℕ, zero, suc, Bool, true, false, not, ◌||◌, [], ◌∷◌, ◌++◌, length, if◌then◌else◌,
}
use scrape_kdl.Diagnostic.{plain}
use scrape_kdl.Dom.Parser.Attribute.{parse_attribute}
use scrape_kdl.Dom.Parser.Cursor.{
  Cursor, out_of_fuel, Parsing, fail_with, next_is, step, is_ident_start, parse_identifier,
}
use scrape_kdl.Dom.Parser.Pseudo.{PseudoSelector, parse_pseudo}
use scrape_kdl.Dom.Selector.{CompoundSelector, compound, Pseudos, nil, pseudo}
use scrape_kdl.Dom.{to_lower}

-- `append(compound.Pseudos, p)`.
unfoldable pub append_pseudo : Pseudos → PseudoSelector → Pseudos
append_pseudo nil p = pseudo p.name p.nth p.negated nil
append_pseudo (pseudo name nth negated rest) p = pseudo name nth negated (append_pseudo rest p)

abbrev pub is_set : Bytes → Bool
is_set s = not (equal s [])

-- The four cases of the loop, each with the compound that it changes.
unfoldable pub add_id : CompoundSelector → Cursor → Parsing CompoundSelector
add_id (compound type_name universal id classes attributes pseudos) c = do
  (identifier, d) ← parse_identifier (step c)
  if is_set id
      then fail_with d (plain (codes "multiple ID selectors are unsupported"))
      else ok (compound type_name universal identifier classes attributes pseudos, d)

unfoldable pub add_class : CompoundSelector → Cursor → Parsing CompoundSelector
add_class (compound type_name universal id classes attributes pseudos) c = do
  (identifier, d) ← parse_identifier (step c)
  ok (compound type_name universal id (classes ++ identifier ∷ []) attributes pseudos, d)

unfoldable pub add_attribute : CompoundSelector → Cursor → Parsing CompoundSelector
add_attribute (compound type_name universal id classes attributes pseudos) c = do
  (attribute, d) ← parse_attribute c
  ok (compound type_name universal id classes (attributes ++ attribute ∷ []) pseudos, d)

unfoldable pub add_pseudo :
    (Bytes → Parsing CompoundSelector) → CompoundSelector → Cursor → Parsing CompoundSelector
unfolding append_pseudo
add_pseudo nested (compound type_name universal id classes attributes pseudos) c = do
  (p, d) ← parse_pseudo nested c
  ok (compound type_name universal id classes attributes (append_pseudo pseudos p), d)

abbrev pub continues : Cursor → Bool
continues c = next_is b'#' c || next_is b'.' c || next_is b'[' c || next_is b':' c

-- One pass of the loop, at a byte that `continues`.
unfoldable pub add_component :
    (Bytes → Parsing CompoundSelector) → CompoundSelector → Cursor → Parsing CompoundSelector
add_component nested s c =
    if next_is b'#' c
    then add_id s c
    else if next_is b'.' c
    then add_class s c
    else if next_is b'[' c
    then add_attribute s c
    else add_pseudo nested s c

-- The loop; `consumed` tells whether there is a component.
unfoldable pub components :
    (Bytes → Parsing CompoundSelector)
    → ℕ
    → Bool
    → CompoundSelector
    → Cursor
    → Parsing CompoundSelector
components nested zero consumed s c = err out_of_fuel
components nested (suc fuel) consumed s c =
    let rest = add_component nested s c >>= λ (s', d). components nested fuel true s' d in
    if continues c
    then rest
    else if consumed
    then ok (s, c)
    else fail_with c (plain (codes "expected compound selector"))

abbrev pub empty_compound : CompoundSelector
empty_compound = compound [] false [] [] [] nil

-- `!p.eof() && isIdentStart(p.peek())`.
abbrev pub starts_name : Cursor → Bool
starts_name c = starts c.rest
  where
    starts : Bytes → Bool
    starts [] = false
    starts (b ∷ s) = is_ident_start b

-- The body of `parseCompound`: the universal selector or a type, and the loop.
unfoldable pub compound_at : (Bytes → Parsing CompoundSelector) → Cursor → Parsing CompoundSelector
compound_at nested c =
    if next_is b'*' c
    then components nested (length c.rest) true (compound [] true [] [] [] nil) (step c)
    else if starts_name c
    then (parse_identifier c >>= λ (identifier, d).
        components nested (length c.rest) true (compound (to_lower identifier) false [] [] [] nil)
          d)
    else components nested (suc (length c.rest)) false empty_compound c

-- `parseCompound`; the fuel is for the depth of `:not`.
unfoldable pub parse_compound : ℕ → Cursor → Parsing CompoundSelector
parse_compound zero c = err out_of_fuel
parse_compound (suc fuel) c =
    compound_at (λ argument. parse_compound fuel (record { i = 0; rest = argument })) c
