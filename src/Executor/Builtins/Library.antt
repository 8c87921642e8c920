-- ===== src/Executor/Builtins/Library.antt =====
-- What the built-ins call of Go's packages where the model has no definition of it: the cases of
-- letters, `regexp`, floats, `math/big` and `net/url`.
use Prim.Native.Nat.{Ordering}
use scrape_kdl.Common.Int.{ℤ}
use scrape_kdl.Common.Outcome.{Outcome}
use scrape_kdl.Common.Text.{Bytes}
use scrape_kdl.Common.{ℕ, Bool, List, Option}
use scrape_kdl.Executor.Value.{Floating}

-- The indexes of a match: the bounds of the match and of each group, `none` for a group that took
-- no part (-1 in Go); the empty list is no match.
abbrev pub Indexes : Type 0
Indexes = List (Option (ℕ × ℕ))

-- A `*regexp.Regexp`: `NumSubexp`, `MatchString`, `FindStringSubmatchIndex`, its variant for up to a
-- number of matches, `ReplaceAllString` (text, replacement) and `ExpandString` (template, text).
pub record Regex : Type 0 where
  pub num_subexp : ℕ
  pub match_string : Bytes → Bool
  pub find : Bytes → Indexes
  pub find_all : Bytes → ℕ → List Indexes
  pub replace_all : Bytes → Bytes → Bytes
  pub expand : Bytes → Bytes → Indexes → Bytes

-- A `*url.URL`, by its fields and the methods that are called.
pub record Url : Type 0 where
  pub scheme : Bytes
  pub has_user : Bool
  pub host : Bytes
  pub hostname : Bytes
  pub raw_query : Bytes
  pub escaped_path : Bytes

-- `integral` is the integer of a float that `math.Trunc` leaves alone, `infinite_big` tells of a
-- text that `big.ParseFloat` reads whether it is infinite, and `compare_big` compares two of them.
pub record Library : Type 0 where
  pub to_lower : Bytes → Bytes
  pub to_upper : Bytes → Bytes
  pub compile : Bytes → Outcome Bytes Regex
  pub parse_float : (bits : ℕ) → Bytes → Option Floating
  pub integral : Floating → Option ℤ
  pub infinite_big : Bytes → Option Bool
  pub compare_big : Bytes → Bytes → Ordering
  pub parse_url : Bytes → Outcome Bytes Url
  pub resolve : (base reference : Url) → Bytes
  pub parse_query : Bytes → Outcome Bytes (List (Bytes × List Bytes))
  pub path_unescape : Bytes → Outcome Bytes Bytes
