-- ===== src/Executor/Builtins/Urls.antt =====
-- internal/executor/builtins.go: the built-ins on URLs.
use scrape_kdl.Common.Int.{ℤ, pos, negsuc}
use scrape_kdl.Common.Outcome.{Outcome, ok, err, ◌>>=◌}
use scrape_kdl.Common.Strings.{split}
use scrape_kdl.Common.Text.{Bytes, codes, equal}
use scrape_kdl.Common.{
  suc, ◌-◌, Bool, not, List, [], ◌∷◌, Option, none, some, length, get_elem?, ltb, if◌then◌else◌,
}
use scrape_kdl.Executor.Builtins.Arguments.{
  Result, fails, lifted, natural, require_string, required_string, required_int, optional_int,
}
use scrape_kdl.Executor.Builtins.Library.{Library, Url}
use scrape_kdl.Executor.Calls.{TransformRuntime}
use scrape_kdl.Executor.Value.{Value, null, text}
use scrape_kdl.Ir.{NamedArgument}

-- `URL.IsAbs`.
unfoldable pub is_abs : Url → Bool
unfolding equal
is_abs u = not (equal u.scheme [])

abbrev pub text_or_null : Option Bytes → Value
text_or_null none = null
text_or_null (some s) = text s

-- `query[name]`.
unfoldable pub values_of : List (Bytes × List Bytes) → Bytes → List Bytes
unfolding equal
values_of [] name = []
values_of ((key, values) ∷ query) name = if equal key name then values else values_of query name

-- The last lines of `builtinPathSegment`: a negative index counts from the end.
unfoldable pub segment_at : List Bytes → ℤ → Value
segment_at segments (pos n) = text_or_null (get_elem? segments n)
segment_at segments (negsuc n) =
    if ltb n (length segments)
    then text_or_null (get_elem? segments (length segments - suc n))
    else null

abbrev pub path_or : Bytes → (value : Bytes) → Bytes
path_or [] value = value
path_or (c ∷ path) value = c ∷ path

module _ (library : Library) where
  -- The loop of `builtinPathSegment`.
  unfoldable pub decode_segments : List Bytes → Result (List Bytes)
  decode_segments [] = ok []
  decode_segments ([] ∷ segments) = decode_segments segments
  decode_segments ((c ∷ segment) ∷ segments) = do
    decoded ← lifted (library.path_unescape (c ∷ segment))
    rest ← decode_segments segments
    ok (decoded ∷ rest)

  abbrev pub parse_base : Outcome Bytes Url → Result Url
  parse_base (err e) = fails (codes "invalid absolute base URL %q")
  parse_base (ok u) = if is_abs u then ok u else fails (codes "invalid absolute base URL %q")

  unfoldable pub builtin_url_path : Value → Result Value
  unfolding require_string
  builtin_url_path input = do
    value ← require_string input
    parsed ← lifted (library.parse_url value)
    path ← lifted (library.path_unescape parsed.escaped_path)
    ok (text path)

module _ (runtime : TransformRuntime) (library : Library) (arguments : List NamedArgument) where
  unfoldable pub builtin_url_resolve : Value → Result Value
  unfolding require_string required_string is_abs
  builtin_url_resolve input = do
    value ← require_string input
    base_value ← required_string runtime library arguments (codes "base")
    base ← parse_base library (library.parse_url base_value)
    reference ← lifted (library.parse_url value)
    ok (text (library.resolve base reference))

  abbrev pub first_from : List Bytes → ℤ → Value
  first_from values (pos n) = text_or_null (get_elem? values n)
  first_from values (negsuc n) = null

  unfoldable pub builtin_url_query : Value → Result Value
  unfolding require_string required_string optional_int values_of
  builtin_url_query input = do
    value ← require_string input
    name ← required_string runtime library arguments (codes "name")
    requested ← optional_int runtime library arguments (codes "index") (pos 0)
    index ← natural requested
    parsed ← lifted (library.parse_url value)
    query ← lifted (library.parse_query parsed.raw_query)
    ok (first_from (values_of query name) index)

  unfoldable pub builtin_path_segment : Value → Result Value
  unfolding require_string required_int split decode_segments segment_at
  builtin_path_segment input = do
    value ← require_string input
    index ← required_int runtime library arguments (codes "index")
    parsed ← lifted (library.parse_url value)
    segments ← decode_segments library (split (path_or parsed.escaped_path value) (codes "/"))
    ok (segment_at segments index)
