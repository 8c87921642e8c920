-- ===== src/Common/Strings.antt =====
-- Functions of Go's package `strings` that the built-ins call, as the package documents them.
pub mod Laws
use scrape_kdl.Common.Int.{ℤ, pos, negsuc}
use scrape_kdl.Common.Lists.{length}
use scrape_kdl.Common.Space.{Rune, runes, is_space}
use scrape_kdl.Common.Tests.{ltb, if◌then◌else◌}
use scrape_kdl.Common.Text.{Bytes, equal, has_prefix}
use Prim.Native.Nat.{ℕ, zero, suc, ◌+◌, ◌-◌}
use mathlib.Core.Bool.{Bool, true, false, ◌&&◌, ◌||◌}
use mathlib.Core.List.{List, [], ◌∷◌, ◌++◌}

-- `strings.Contains`.
unfoldable pub contains : Bytes → Bytes → Bool
unfolding has_prefix
contains [] part = has_prefix [] part
contains (c ∷ s) part = has_prefix (c ∷ s) part || contains s part

-- `strings.Join`: the first text, then each other one behind the separator.
unfoldable pub join_behind : List Bytes → Bytes → Bytes
join_behind [] sep = []
join_behind (x ∷ xs) sep = sep ++ (x ++ join_behind xs sep)

unfoldable pub join : List Bytes → Bytes → Bytes
unfolding join_behind
join [] sep = []
join (x ∷ xs) sep = x ++ join_behind xs sep

abbrev Pieces : Type 0
Pieces = Bytes × List Bytes

abbrev cut_here : Pieces → Pieces
cut_here (first, others) = ([], first ∷ others)

abbrev with_byte : ℕ → Pieces → Pieces
with_byte c (first, others) = (c ∷ first, others)

abbrev listed : Pieces → List Bytes
listed (first, others) = first ∷ others

-- The parts of a text between the places where `sep` is found from the left; `skip` counts the
-- bytes of `sep` that are still to be passed.
unfoldable pub pieces : Bytes → ℕ → Bytes → Pieces
unfolding has_prefix
pieces sep skip [] = ([], [])
pieces sep (suc skip) (c ∷ s) = pieces sep skip s
pieces sep zero (c ∷ s) =
    let found = has_prefix (c ∷ s) sep in
    let rest = pieces sep (if found then length sep - 1 else 0) s in
    if found then cut_here rest else with_byte c rest

-- `strings.Split` with a separator that is not empty.
unfoldable pub split : Bytes → Bytes → List Bytes
unfolding pieces
split s sep = listed (pieces sep 0 s)

-- `strings.Replace` of a text that is not empty, at most `budget` times.
unfoldable pub swap : Bytes → Bytes → (budget skip : ℕ) → Bytes → Bytes
unfolding has_prefix
swap old fresh budget skip [] = []
swap old fresh budget (suc skip) (c ∷ s) = swap old fresh budget skip s
swap old fresh budget zero (c ∷ s) =
    let found = ltb 0 budget && has_prefix (c ∷ s) old in
    let rest =
      swap old fresh (if found then budget - 1 else budget) (if found then length old - 1 else 0)
        s in
    if found then fresh ++ rest else c ∷ rest

-- Of the empty text: in front of each rune, and at the end.
unfoldable pub interleave : Bytes → (budget : ℕ) → List Rune → Bytes
interleave fresh budget [] = if ltb 0 budget then fresh else []
interleave fresh budget ((r, bs) ∷ rs) =
    (if ltb 0 budget then fresh else []) ++ (bs ++ interleave fresh (budget - 1) rs)

-- `strings.Replace`; a negative number of times is every time.
abbrev budget_of : Bytes → ℤ → ℕ
budget_of s (pos n) = n
budget_of s (negsuc n) = length s + 1

abbrev replace_text : Bytes → Bytes → Bytes → ℕ → Bytes
replace_text s [] fresh budget = interleave fresh budget (runes s)
replace_text s (c ∷ old) fresh budget = swap (c ∷ old) fresh budget 0 s

unfoldable pub replace : Bytes → (old fresh : Bytes) → (n : ℤ) → Bytes
unfolding equal swap interleave runes
replace s old fresh n = if equal old fresh then s else replace_text s old fresh (budget_of s n)

-- `strings.Fields`: the runs of runes that are not white space; `word` holds the one that is open.
abbrev put_word : Bytes → List Bytes → List Bytes
put_word [] words = words
put_word (c ∷ word) words = (c ∷ word) ∷ words

unfoldable pub fields_from : (word : Bytes) → List Rune → List Bytes
unfolding is_space
fields_from word [] = put_word word []
fields_from word ((r, bs) ∷ rs) =
    let rest = fields_from (if is_space r then [] else word ++ bs) rs in
    if is_space r then put_word word rest else rest

unfoldable pub fields : Bytes → List Bytes
unfolding runes fields_from
fields s = fields_from [] (runes s)
