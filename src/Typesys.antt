-- ===== src/Typesys.antt =====
-- internal/typesys/type.go: the types of the language, equality, assignability, printing and the
-- parser of type expressions.
pub mod Kinds
pub mod Print
pub mod Assign
pub mod Syntax
pub mod RoundTrip
use scrape_kdl.Common.Text.{Bytes, codes, equal, has_prefix}
use scrape_kdl.Common.Outcome.{Outcome, ok, err, ◌>>=◌}
use scrape_kdl.Common.Space.{trim_space}
use scrape_kdl.Common.{
  ℕ, zero, suc, ◌-◌, Bool, true, false, ◌&&◌, ◌||◌, List, [], ◌∷◌, ◌++◌, length, any, leb, ◌==◌,
  if◌then◌else◌,
}

-- The struct `Type`, split by its field `Kind`. `array_nil` and `nullable_nil` stand for the
-- values of those kinds whose pointer is nil, and `other` for any other string in `Kind`.
pub data Ty : Type 0 where
  primitive : Bytes → Ty
  array : Ty → Ty
  nullable : Ty → Ty
  array_nil nullable_nil : Ty
  other : Bytes → Ty

-- The keys of the map `primitives`.
abbrev pub primitives : List Bytes
primitives =
    codes "string"
    ∷ codes "bool"
    ∷ codes "int"
    ∷ codes "u8"
    ∷ codes "u16"
    ∷ codes "u32"
    ∷ codes "u64"
    ∷ codes "i8"
    ∷ codes "i16"
    ∷ codes "i32"
    ∷ codes "i64"
    ∷ codes "float"
    ∷ codes "f32"
    ∷ codes "f64"
    ∷ codes "object"
    ∷ codes "unknown"
    ∷ []

unfoldable pub is_primitive : Bytes → Bool
is_primitive name = any (equal name) primitives

-- The function `Nullable`: a nullable type is not wrapped again.
unfoldable pub make_nullable : Ty → Ty
make_nullable (nullable t) = nullable t
make_nullable nullable_nil = nullable_nil
make_nullable t = nullable t

abbrev pub invalid_text : Bytes
invalid_text = codes "<invalid>"

-- The method `String`.
unfoldable pub to_text : Ty → Bytes
to_text (primitive name) = name
to_text (array t) = to_text t ++ codes "[]"
to_text (nullable t) = to_text t ++ codes "?"
to_text array_nil = invalid_text
to_text nullable_nil = invalid_text
to_text (other kind) = invalid_text

-- The function `Equal`.
unfoldable pub equal_type : Ty → Ty → Bool
unfolding equal
equal_type (primitive n) (primitive m) = equal n m
equal_type (array a) (array b) = equal_type a b
equal_type (nullable a) (nullable b) = equal_type a b
equal_type _ _ = false

abbrev pub unknown_name : Bytes
unknown_name = codes "unknown"

unfoldable pub is_unknown : Ty → Bool
unfolding equal
is_unknown (primitive n) = equal n unknown_name
is_unknown _ = false

-- What `IsAssignable` goes on with on the left when the right side is nullable.
unfoldable pub strip_nullable : Ty → Ty
strip_nullable (nullable t) = t
strip_nullable t = t

-- The function `IsAssignable`, its last two steps by the shape of `to`.
unfoldable pub is_assignable : Ty → Ty → Bool
is_assignable (array a) (array b) = equal_type (array a) (array b) || is_assignable a b
is_assignable from (nullable t) =
    equal_type from (nullable t) || is_assignable (strip_nullable from) t
is_assignable from to = equal_type from to || is_unknown to

-- The errors of `Parse`. `out_of_fuel` belongs to the model only.
pub data ParseError : Type 0 where
  unexpected_syntax : ℕ → ParseError
  missing_parenthesis nested_nullable : ParseError
  unknown_primitive : Bytes → ParseError
  out_of_fuel : ParseError

abbrev pub is_blank : ℕ → Bool
is_blank c = c == b' ' || c == b'\t'

-- A parser is given the text from `p.i` on, and returns what it leaves.
unfoldable pub skip_blanks : Bytes → Bytes
skip_blanks [] = []
skip_blanks (c ∷ s) = let rest = skip_blanks s in if is_blank c then rest else c ∷ s

abbrev pub is_name_byte : ℕ → Bool
is_name_byte c = leb b'a' c && leb c b'z' || leb b'0' c && leb c b'9'

-- The loop that reads a name: the name and the text behind it.
unfoldable pub read_name : Bytes → Bytes × Bytes
read_name [] = ([], [])
read_name (c ∷ s) =
    let (name, rest) = read_name s in if is_name_byte c then (c ∷ name, rest) else ([], c ∷ s)

unfoldable pub parse_primitive : Bytes → Outcome ParseError (Ty × Bytes)
unfolding read_name is_primitive
parse_primitive s =
    let (name, rest) = read_name s in
    if is_primitive name then ok (primitive name, rest) else err (unknown_primitive name)

abbrev pub has_nullable_kind : Ty → Bool
has_nullable_kind (nullable t) = true
has_nullable_kind nullable_nil = true
has_nullable_kind t = false

-- The final loop of `parseType`: `skipSpace`, then `[]`, `?`, or the end of the type.
unfoldable pub parse_suffixes : Ty → Bytes → Outcome ParseError (Ty × Bytes)
unfolding make_nullable
parse_suffixes t [] = ok (t, [])
parse_suffixes t (c ∷ []) =
    if is_blank c
    then ok (t, [])
    else if c == b'?'
    then (if has_nullable_kind t then err nested_nullable else ok (make_nullable t, []))
    else ok (t, c ∷ [])
parse_suffixes t (c ∷ d ∷ s) =
    let spaced = parse_suffixes t (d ∷ s) in
    let element = parse_suffixes (array t) s in
    let lifted = parse_suffixes (make_nullable t) (d ∷ s) in
    if is_blank c
    then spaced
    else if c == b'[' && d == b']'
    then element
    else if c == b'?'
    then (if has_nullable_kind t then err nested_nullable else lifted)
    else ok (t, c ∷ d ∷ s)

unfoldable pub close_group : Ty → Bytes → Outcome ParseError (Ty × Bytes)
close_group t [] = err missing_parenthesis
close_group t (c ∷ s) = if c == b')' then ok (t, s) else err missing_parenthesis

-- The first half of `parseType`: a group in parentheses, read by `inner`, or a name.
unfoldable pub parse_base :
    (Bytes → Outcome ParseError (Ty × Bytes)) → Bytes → Outcome ParseError (Ty × Bytes)
unfolding parse_primitive close_group skip_blanks
parse_base inner [] = parse_primitive []
parse_base inner (c ∷ s) =
    if c == b'('
    then (do (t, rest) ← inner s; close_group t (skip_blanks rest))
    else parse_primitive (c ∷ s)

-- `parseType`. The fuel bounds the depth of parentheses.
unfoldable pub parse_type : ℕ → Bytes → Outcome ParseError (Ty × Bytes)
unfolding parse_base parse_suffixes skip_blanks
parse_type zero s = err out_of_fuel
parse_type (suc f) s = do
  (t, rest) ← parse_base (parse_type f) (skip_blanks s)
  parse_suffixes t rest

unfoldable pub finish_parse : ℕ → Ty → Bytes → Outcome ParseError Ty
finish_parse size t [] = ok t
finish_parse size t (c ∷ s) = err (unexpected_syntax (size - length (c ∷ s)))

-- `Parse`.
unfoldable pub parse : Bytes → Outcome ParseError Ty
parse input =
    let s = trim_space input in
    do (t, rest) ← parse_type (suc (length s)) s; finish_parse (length s) t (skip_blanks rest)
