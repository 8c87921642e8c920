-- ===== src/Executor/Builtins/Arguments.antt =====
-- internal/executor/builtins.go: the arguments of a built-in. The text of an error is its format.
use scrape_kdl.Common.Int.{ℤ, pos, negsuc}
use scrape_kdl.Common.Outcome.{Outcome, ok, err, ◌>>=◌}
use scrape_kdl.Common.Text.{Bytes, codes, equal}
use scrape_kdl.Common.{List, [], ◌∷◌, Bool, Option, none, some, if◌then◌else◌}
use scrape_kdl.Executor.Builtins.Library.{Library}
use scrape_kdl.Executor.Calls.{TransformRuntime, or_else}
use scrape_kdl.Executor.Output.Recovery.{Failure, other_error}
use scrape_kdl.Executor.Value
use scrape_kdl.Executor.Value.{Value, text, boolean, integer, double, number}
use scrape_kdl.Ir.{NamedArgument}
use scrape_kdl.Kdl.Literal.{parse_int}

abbrev pub Result {ℓ} : Type ℓ → Type ℓ
Result A = Outcome Failure A

abbrev pub fails {ℓ} : {A : Type ℓ} → Bytes → Result A
fails form = err (other_error form)

-- An error of a package, with its own text.
abbrev pub lifted {ℓ} : {A : Type ℓ} → Outcome Bytes A → Result A
lifted (ok a) = ok a
lifted (err e) = fails e

abbrev pub given {ℓ} : {A : Type ℓ} → Bytes → Option A → Result A
given form none = fails form
given form (some a) = ok a

unfoldable pub require_string : Value → Result Bytes
require_string (text s) = ok s
require_string v = fails (codes "expected string, got %T")

-- The map of the arguments: of two with one name the last is kept.
unfoldable pub find_argument : List NamedArgument → Bytes → Option Bytes
unfolding equal
find_argument [] name = none
find_argument (a ∷ arguments) name =
    or_else (find_argument arguments name) (if equal a.name name then some a.value else none)

unfoldable pub literal_int : Library → Value → Result ℤ
literal_int library (number s) = given (codes "strconv.ParseInt") (parse_int 10 32 s)
literal_int library (integer Value.int k) = ok k
literal_int library (integer Value.int64 k) = ok k
literal_int library (double f) = given (codes "must be an integer") (library.integral f)
literal_int library v = fails (codes "must be an integer, got %T")

abbrev pub string_value : Value → Result Bytes
string_value (text s) = ok s
string_value v = fails (codes "argument %q must be a string")

abbrev pub bool_value : Value → Result Bool
bool_value (boolean b) = ok b
bool_value v = fails (codes "argument %q must be boolean")

abbrev pub natural : ℤ → Result ℤ
natural (pos n) = ok (pos n)
natural (negsuc n) = fails (codes "argument %q must be non-negative")

-- A value that is there, read; where there is none, `otherwise`.
abbrev pub read_or {ℓ} : {A : Type ℓ} → (Value → Result A) → Result A → Option Value → Result A
read_or read otherwise none = otherwise
read_or read otherwise (some v) = read v

module _ (runtime : TransformRuntime) (library : Library) (arguments : List NamedArgument) where
  abbrev pub decoded : Option Bytes → Result (Option Value)
  decoded none = ok none
  decoded (some raw) = lifted (runtime.decode_json raw) >>= λ v. ok (some v)

  unfoldable pub named_argument : Bytes → Result (Option Value)
  unfolding find_argument
  named_argument name = decoded (find_argument arguments name)

  unfoldable pub required_string : Bytes → Result Bytes
  unfolding named_argument
  required_string name =
      named_argument name >>= read_or string_value (fails (codes "argument %q must be a string"))

  unfoldable pub required_int : Bytes → Result ℤ
  unfolding named_argument literal_int
  required_int name =
      named_argument name
      >>= read_or (literal_int library) (fails (codes "argument %q is required"))

  unfoldable pub optional_int : Bytes → ℤ → Result ℤ
  unfolding named_argument literal_int
  optional_int name fallback = named_argument name >>= read_or (literal_int library) (ok fallback)

  unfoldable pub optional_natural : Bytes → ℤ → Result ℤ
  unfolding named_argument literal_int
  optional_natural name fallback =
      named_argument name >>= read_or (λ v. literal_int library v >>= natural) (ok fallback)

  unfoldable pub optional_bool : Bytes → Bool → Result Bool
  unfolding named_argument
  optional_bool name fallback = named_argument name >>= read_or bool_value (ok fallback)

  unfoldable pub optional_string : Bytes → Bytes → Result Bytes
  unfolding named_argument
  optional_string name fallback = named_argument name >>= read_or string_value (ok fallback)
