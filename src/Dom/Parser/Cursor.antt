-- ===== src/Dom/Parser/Cursor.antt =====
-- The state of the parser, its errors, and the methods that read names and white space.
use scrape_kdl.Common.Outcome.{Outcome, ok, err}
use scrape_kdl.Common.Space.{is_space}
use scrape_kdl.Common.Text.{Bytes, codes}
use scrape_kdl.Common.{
  ℕ, ◌+◌, Bool, true, false, ◌&&◌, ◌||◌, [], ◌∷◌, drop, leb, ltb, ◌==◌, if◌then◌else◌,
}
use scrape_kdl.Diagnostic.{Message, plain}

-- `selectorParser`: the index and the text from there on.
pub record Cursor : Type 0 where
  pub i : ℕ
  pub rest : Bytes

-- The errors of `parseNth`: a text that `strconv.Atoi` rejects, or no `An+B`.
pub data NthError : Type 0 where
  not_a_number : Bytes → NthError
  invalid_form : NthError

-- What `errorf` returns: the byte and the reason. `out_of_fuel` belongs to the model only.
mutual
  pub data SelectorError : Type 0 where
    failed : (i : ℕ) → Reason → SelectorError
    out_of_fuel : SelectorError

  pub data Reason : Type 0 where
    saying : Message → Reason
    invalid_nth : Bytes → NthError → Reason
    invalid_not : SelectorError → Reason

-- An error that the program returns.
abbrev pub is_genuine : SelectorError → Bool
is_genuine out_of_fuel = false
is_genuine (failed i (saying m)) = true
is_genuine (failed i (invalid_nth name e)) = true
is_genuine (failed i (invalid_not e)) = is_genuine e

abbrev pub Parsing {ℓ} : Type ℓ → Type ℓ
Parsing A = Outcome SelectorError (A × Cursor)

abbrev pub fail_with {ℓ} : {A : Type ℓ} → Cursor → Message → Outcome SelectorError A
fail_with c m = err (failed c.i (saying m))

-- The method `eof`.
abbrev pub at_end : Cursor → Bool
at_end c = is_nil c.rest
  where
    is_nil : Bytes → Bool
    is_nil [] = true
    is_nil (b ∷ s) = false

-- `!p.eof() && p.peek() == b`.
abbrev pub next_is : ℕ → Cursor → Bool
next_is b c = begins c.rest
  where
    begins : Bytes → Bool
    begins [] = false
    begins (a ∷ s) = a == b

-- `p.i++`.
abbrev pub step : Cursor → Cursor
step c = record { i = c.i + 1; rest = drop 1 c.rest }

unfoldable pub skip_spaces : ℕ → Bytes → Cursor
skip_spaces i [] = record { i = i; rest = [] }
skip_spaces i (b ∷ s) =
    let next = skip_spaces (i + 1) s in if is_space b then next else record { i = i; rest = b ∷ s }

-- `skipWhitespace`; it answers whether the index moved.
unfoldable pub skip_whitespace : Cursor → Cursor
unfolding skip_spaces
skip_whitespace c = skip_spaces c.i c.rest

abbrev pub moved : Cursor → Cursor → Bool
moved from to = ltb from.i to.i

unfoldable pub is_ident_start : ℕ → Bool
is_ident_start c = c == b'_' || c == b'-' || leb b'a' c && leb c b'z' || leb b'A' c && leb c b'Z'

unfoldable pub is_ident_continue : ℕ → Bool
unfolding is_ident_start
is_ident_continue c = is_ident_start c || leb b'0' c && leb c b'9'

-- `for !p.eof() && test(p.peek()) { p.i++ }`, with the text that it passes.
unfoldable pub read_while : (ℕ → Bool) → ℕ → Bytes → Bytes × Cursor
read_while test i [] = ([], record { i = i; rest = [] })
read_while test i (b ∷ s) =
    let (text, c) = read_while test (i + 1) s in
    if test b then (b ∷ text, c) else ([], record { i = i; rest = b ∷ s })

-- A byte in front of the text that the rest of a loop has passed.
abbrev pub with_byte : ℕ → Parsing Bytes → Parsing Bytes
with_byte b (ok (text, c)) = ok (b ∷ text, c)
with_byte b (err e) = err e

-- `parseIdentifier`, on the text at the cursor.
unfoldable pub identifier_at : ℕ → Bytes → Parsing Bytes
unfolding read_while
identifier_at i [] = fail_with (record { i = i; rest = [] }) (plain (codes "expected identifier"))
identifier_at i (b ∷ s) =
    let (text, c) = read_while is_ident_continue (i + 1) s in
    if is_ident_start b
    then ok (b ∷ text, c)
    else fail_with (record { i = i; rest = b ∷ s }) (plain (codes "expected identifier"))

unfoldable pub parse_identifier : Cursor → Parsing Bytes
parse_identifier c = identifier_at c.i c.rest
