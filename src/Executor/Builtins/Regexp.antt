-- ===== src/Executor/Builtins/Regexp.antt =====
-- internal/executor/builtins.go: the built-ins with regular expressions.
use scrape_kdl.Common.Int.{ℤ, pos, negsuc}
use scrape_kdl.Common.Outcome.{ok, ◌>>=◌, ◌>>◌, check}
use scrape_kdl.Common.Space.{Rune, runes}
use scrape_kdl.Common.Strings.{contains}
use scrape_kdl.Common.Text.{Bytes, codes}
use scrape_kdl.Common.{
  ℕ, zero, suc, ◌-◌, not, ◌||◌, List, [], ◌∷◌, ◌++◌, take, drop, any, Option, none, some, get_or,
  leb, ◌==◌, if◌then◌else◌,
}
use scrape_kdl.Executor.Builtins.Arguments.{
  Result, fails, lifted, string_value, read_or, require_string, named_argument, required_string,
  optional_int, optional_natural,
}
use scrape_kdl.Executor.Builtins.Library.{Library, Regex, Indexes}
use scrape_kdl.Executor.Calls.{TransformRuntime}
use scrape_kdl.Executor.Output.Recovery.{other_error}
use scrape_kdl.Executor.Value.{Value, null, text}
use scrape_kdl.Ir.{NamedArgument}

-- The loop over the flags.
unfoldable pub check_flags : (seen : List ℕ) → List Rune → Result (Unit {0})
check_flags seen [] = ok tt
check_flags seen ((flag, bs) ∷ rs) = do
  check (flag == b'i' || flag == b'm' || flag == b's')
      (other_error (codes "unsupported regex flag %q"))
  check (not (any (◌==◌ flag) seen)) (other_error (codes "duplicate regex flag %q"))
  check_flags (flag ∷ seen) rs

abbrev pub with_flags : Bytes → (pattern : Bytes) → Bytes
with_flags [] pattern = pattern
with_flags (f ∷ flags) pattern = codes "(?" ++ ((f ∷ flags) ++ (codes ")" ++ pattern))

-- `value[from:to]`.
abbrev pub cut : Bytes → (from to : ℕ) → Bytes
cut value from to = take (to - from) (drop from value)

-- The bounds of the match itself, which is there.
abbrev pub whole_match : Indexes → ℕ × ℕ
whole_match indexes = bounds (get_or indexes 0 none)
  where
    bounds : Option (ℕ × ℕ) → ℕ × ℕ
    bounds none = (0, 0)
    bounds (some b) = b

-- The loop of `builtinRegexReplace` from the place `cursor`, with what is written behind it.
unfoldable pub replace_matches :
    Regex → (value replacement : Bytes) → (cursor : ℕ) → List Indexes → Bytes
replace_matches regex value replacement cursor [] = drop cursor value
replace_matches regex value replacement cursor (indexes ∷ matches) =
    let (from, to) = whole_match indexes in
    cut value cursor from
    ++ (regex.expand replacement value indexes
        ++ replace_matches regex value replacement to matches)

abbrev pub replaced : Regex → (value replacement : Bytes) → ℤ → Bytes
replaced regex value replacement (negsuc n) = regex.replace_all value replacement
replaced regex value replacement (pos zero) = value
replaced regex value replacement (pos (suc n)) =
    replace_matches regex value replacement 0 (regex.find_all value (suc n))

abbrev pub captured : Bytes → Option (ℕ × ℕ) → Value
captured value none = null
captured value (some (from, to)) = text (cut value from to)

-- `builtinRegexCapture` behind the arguments.
unfoldable pub capture : Regex → (value : Bytes) → (group : ℤ) → Result Value
capture regex value (negsuc n) = fails (codes "argument %q must be non-negative")
capture regex value (pos n) =
    if leb n regex.num_subexp
    then ok (captured value (get_or (regex.find value) n none))
    else fails (codes "capture group %d exceeds pattern capture count %d")

module _ (runtime : TransformRuntime) (library : Library) (arguments : List NamedArgument) where
  -- `compileRuntimeRegex`.
  unfoldable pub compile_runtime_regex : Result Regex
  unfolding required_string named_argument check_flags runes contains
  compile_runtime_regex = do
    pattern ← required_string runtime library arguments (codes "pattern")
    given ← named_argument runtime library arguments (codes "flags")
    flags ← read_or string_value (ok []) given
    check_flags [] (runes flags)
    let full = with_flags flags pattern
    check (not (contains full (codes "(?P<") || contains full (codes "(?<")))
        (other_error (codes "named capture groups are outside the portable RE2 profile"))
    lifted (library.compile full)

  unfoldable pub builtin_regex_replace : Value → Result Value
  unfolding require_string compile_runtime_regex required_string optional_natural replace_matches
  builtin_regex_replace input = do
    value ← require_string input
    regex ← compile_runtime_regex
    replacement ← required_string runtime library arguments (codes "replacement")
    count ← optional_natural runtime library arguments (codes "count") (negsuc 0)
    ok (text (replaced regex value replacement count))

  unfoldable pub builtin_regex_capture : Value → Result Value
  unfolding require_string compile_runtime_regex optional_int capture
  builtin_regex_capture input = do
    value ← require_string input
    regex ← compile_runtime_regex
    group ← optional_int runtime library arguments (codes "group") (pos 0)
    capture regex value group
