-- ===== src/Contract.antt =====
-- internal/builtincontract/contract.go: what calls of the built-ins may look like.
use scrape_kdl.Common.Int.{ℤ, pos, negsuc}
use scrape_kdl.Common.Text.{Bytes, codes, equal}
use scrape_kdl.Common.{ℕ, List, [], ◌∷◌, Option, none, some, if◌then◌else◌}

pub data Expectation : Type 0 where
  string bool int non_negative_int number scalar : Expectation

pub record Definition : Type 0 where
  pub properties : List (Bytes × Expectation)
  pub required : List Bytes
  pub min_positional : ℕ
  pub max_positional : ℤ

abbrev pub only_named : List (Bytes × Expectation) → List Bytes → Definition
only_named properties required = record {
  properties = properties;
  required = required;
  min_positional = 0;
  max_positional = pos 0;
}

-- The map of the definitions, whose keys are distinct.
abbrev pub definitions : List (Bytes × Definition)
definitions =
    (codes "trim", only_named [] [])
    ∷ (codes "normalize-whitespace", only_named [] [])
    ∷ (codes "lowercase", only_named [] [])
    ∷ (codes "uppercase", only_named [] [])
    ∷ (
      codes "replace",
      only_named
          ((codes "old", string) ∷ (codes "new", string) ∷ (codes "count", non_negative_int) ∷ [])
          (codes "old" ∷ codes "new" ∷ []),
    )
    ∷ (
      codes "regex-replace",
      only_named
          ((codes "pattern", string)
            ∷ (codes "replacement", string)
            ∷ (codes "flags", string)
            ∷ (codes "count", non_negative_int)
            ∷ [])
          (codes "pattern" ∷ codes "replacement" ∷ []),
    )
    ∷ (
      codes "regex-capture",
      only_named
          ((codes "pattern", string)
            ∷ (codes "group", non_negative_int)
            ∷ (codes "flags", string)
            ∷ [])
          (codes "pattern" ∷ []),
    )
    ∷ (
      codes "substring",
      only_named ((codes "start", int) ∷ (codes "end", int) ∷ []) (codes "start" ∷ []),
    )
    ∷ (
      codes "split",
      only_named ((codes "separator", string) ∷ (codes "limit", non_negative_int) ∷ [])
          (codes "separator" ∷ []),
    )
    ∷ (codes "join", only_named ((codes "separator", string) ∷ []) (codes "separator" ∷ []))
    ∷ (codes "prepend", only_named ((codes "value", string) ∷ []) (codes "value" ∷ []))
    ∷ (codes "append", only_named ((codes "value", string) ∷ []) (codes "value" ∷ []))
    ∷ (
      codes "parse-int",
      only_named ((codes "as", string) ∷ (codes "radix", int) ∷ []) (codes "as" ∷ []),
    )
    ∷ (codes "parse-float", only_named ((codes "as", string) ∷ []) (codes "as" ∷ []))
    ∷ (
      codes "parse-bool",
      only_named
          ((codes "case-sensitive", bool) ∷ (codes "true", string) ∷ (codes "false", string) ∷ [])
          [],
    )
    ∷ (codes "to-string", only_named [] [])
    ∷ (codes "empty-to-null", only_named [] [])
    ∷ (codes "coalesce", only_named ((codes "value", scalar) ∷ []) (codes "value" ∷ []))
    ∷ (codes "url-resolve", only_named ((codes "base", string) ∷ []) (codes "base" ∷ []))
    ∷ (
      codes "url-query",
      only_named ((codes "name", string) ∷ (codes "index", non_negative_int) ∷ [])
          (codes "name" ∷ []),
    )
    ∷ (codes "url-path", only_named [] [])
    ∷ (codes "path-segment", only_named ((codes "index", int) ∷ []) (codes "index" ∷ []))
    ∷ (
      codes "assert-matches",
      only_named ((codes "pattern", string) ∷ (codes "flags", string) ∷ []) (codes "pattern" ∷ []),
    )
    ∷ (
      codes "assert-enum",
      record { properties = []; required = []; min_positional = 1; max_positional = negsuc 0 },
    )
    ∷ (codes "assert-min", only_named ((codes "value", number) ∷ []) (codes "value" ∷ []))
    ∷ (codes "assert-max", only_named ((codes "value", number) ∷ []) (codes "value" ∷ []))
    ∷ []

abbrev pub find {ℓ} : {A : Type ℓ} → Bytes → List (Bytes × A) → Option A
find name [] = none
find name ((key, definition) ∷ rest) =
    let found = find name rest in if equal key name then some definition else found

-- `Lookup`.
unfoldable pub lookup : Bytes → Option Definition
unfolding equal
lookup name = find name definitions
