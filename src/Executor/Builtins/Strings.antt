-- ===== src/Executor/Builtins/Strings.antt =====
-- internal/executor/builtins.go: the built-ins on texts and lists of texts.
use scrape_kdl.Common.Int.{ℤ, pos, negsuc}
use scrape_kdl.Common.Outcome.{ok, ◌>>=◌}
use scrape_kdl.Common.Space.{Rune, runes}
use scrape_kdl.Common.Strings.{join, split, fields, replace}
use scrape_kdl.Common.Text.{Bytes, codes}
use scrape_kdl.Common.Utf8.{encode_rune}
use scrape_kdl.Common.{ℕ, suc, ◌-◌, List, [], ◌∷◌, ◌++◌, length, take, drop, ltb, if◌then◌else◌}
use scrape_kdl.Executor.Builtins.Arguments.{
  Result, fails, require_string, required_string, required_int, optional_int, optional_natural,
}
use scrape_kdl.Executor.Builtins.Library.{Library}
use scrape_kdl.Executor.Calls.{TransformRuntime}
use scrape_kdl.Executor.Value.{Value, null, text, strings, items, Values, no_values, and_value}
use scrape_kdl.Ir.{NamedArgument}

-- The cases without arguments of `applyBuiltinRuntime`.
abbrev pub builtin_text : (Bytes → Bytes) → Value → Result Value
builtin_text f input = require_string input >>= λ s. ok (text (f s))

unfoldable pub normalize_whitespace : Bytes → Bytes
unfolding join fields
normalize_whitespace s = join (fields s) (codes " ")

abbrev pub null_if_empty : Bytes → Value
null_if_empty [] = null
null_if_empty (c ∷ s) = text (c ∷ s)

unfoldable pub empty_to_null : Value → Result Value
unfolding require_string
empty_to_null input = require_string input >>= λ s. ok (null_if_empty s)

-- `normalizeIndex`: where a length minus a number is negative, the index is 0.
unfoldable pub normalize_index : ℤ → ℕ → ℕ
normalize_index (negsuc n) size = size - suc n
normalize_index (pos n) size = if ltb size n then size else n

-- `string(runes)`: a rune that stands for a byte that is not UTF-8 is written as U+FFFD.
unfoldable pub spell : List Rune → Bytes
unfolding encode_rune
spell [] = []
spell ((r, bs) ∷ rs) = encode_rune r ++ spell rs

-- `string(runes[start:end])` behind the three lines on the indexes.
unfoldable pub slice_runes : List Rune → (start end : ℤ) → Bytes
unfolding normalize_index spell
slice_runes rs start end =
    let first = normalize_index start (length rs) in
    let last = normalize_index end (length rs) in spell (take (last - first) (drop first rs))

-- `parts[:limit]`, for a limit that is not negative.
abbrev pub limited {ℓ} : {A : Type ℓ} → ℤ → List A → List A
limited (negsuc n) parts = parts
limited (pos n) parts = take n parts

abbrev spell_each : List Rune → List Bytes
spell_each [] = []
spell_each ((r, bs) ∷ rs) = encode_rune r ∷ spell_each rs

-- The rest of `builtinSplit` behind the arguments; a limit of 0 takes no part.
unfoldable pub split_limited : Bytes → (separator : Bytes) → (limit : ℤ) → List Bytes
unfolding split runes encode_rune
split_limited s [] limit = spell_each (limited limit (runes s))
split_limited s (c ∷ separator) limit = limited limit (split s (c ∷ separator))

abbrev and_string : Bytes → Result (List Bytes) → Result (List Bytes)
and_string s r = r >>= λ ss. ok (s ∷ ss)

-- The loop of `builtinJoin` over a `[]any`.
unfoldable pub string_values : Values → Result (List Bytes)
string_values no_values = ok []
string_values (and_value (text s) vs) = and_string s (string_values vs)
string_values (and_value v vs) = fails (codes "join element %d is %T, not string")

unfoldable pub join_value : Value → (separator : Bytes) → Result Value
unfolding join string_values
join_value (strings ss) separator = ok (text (join ss separator))
join_value (items vs) separator = string_values vs >>= λ ss. ok (text (join ss separator))
join_value v separator = fails (codes "expected string[], got %T")

module _ (runtime : TransformRuntime) (library : Library) (arguments : List NamedArgument) where
  unfoldable pub builtin_prepend : Value → Result Value
  unfolding require_string required_string
  builtin_prepend input = do
    value ← require_string input
    prefix ← required_string runtime library arguments (codes "value")
    ok (text (prefix ++ value))

  unfoldable pub builtin_append : Value → Result Value
  unfolding require_string required_string
  builtin_append input = do
    value ← require_string input
    suffix ← required_string runtime library arguments (codes "value")
    ok (text (value ++ suffix))

  unfoldable pub builtin_replace : Value → Result Value
  unfolding require_string required_string optional_natural replace
  builtin_replace input = do
    value ← require_string input
    old_value ← required_string runtime library arguments (codes "old")
    new_value ← required_string runtime library arguments (codes "new")
    count ← optional_natural runtime library arguments (codes "count") (negsuc 0)
    ok (text (replace value old_value new_value count))

  unfoldable pub builtin_substring : Value → Result Value
  unfolding require_string required_int optional_int slice_runes runes
  builtin_substring input = do
    value ← require_string input
    start ← required_int runtime library arguments (codes "start")
    end ← optional_int runtime library arguments (codes "end") (pos (length (runes value)))
    ok (text (slice_runes (runes value) start end))

  unfoldable pub builtin_split : Value → Result Value
  unfolding require_string required_string optional_natural split_limited
  builtin_split input = do
    value ← require_string input
    separator ← required_string runtime library arguments (codes "separator")
    limit ← optional_natural runtime library arguments (codes "limit") (negsuc 0)
    ok (strings (split_limited value separator limit))

  unfoldable pub builtin_join : Value → Result Value
  unfolding required_string join_value
  builtin_join input = do
    separator ← required_string runtime library arguments (codes "separator")
    join_value input separator
