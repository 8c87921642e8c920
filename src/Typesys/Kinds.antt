-- ===== src/Typesys/Kinds.antt =====
-- internal/typesys/type.go: the tests of a type's kind.
use scrape_kdl.Common.Text.{Bytes, codes, equal}
use scrape_kdl.Common.{Bool, false, not, ◌&&◌, List, [], ◌∷◌, any}
use scrape_kdl.Typesys.{Ty, primitive, array, nullable}

unfoldable pub is_string : Ty → Bool
unfolding equal
is_string (primitive n) = equal n (codes "string")
is_string _ = false

unfoldable pub is_string_array : Ty → Bool
unfolding is_string
is_string_array (array t) = is_string t
is_string_array _ = false

abbrev integer_names : List Bytes
integer_names =
    codes "int"
    ∷ codes "u8"
    ∷ codes "u16"
    ∷ codes "u32"
    ∷ codes "u64"
    ∷ codes "i8"
    ∷ codes "i16"
    ∷ codes "i32"
    ∷ codes "i64"
    ∷ []

-- The case of `IsNumeric`.
abbrev numeric_names : List Bytes
numeric_names =
    codes "int"
    ∷ codes "u8"
    ∷ codes "u16"
    ∷ codes "u32"
    ∷ codes "u64"
    ∷ codes "i8"
    ∷ codes "i16"
    ∷ codes "i32"
    ∷ codes "i64"
    ∷ codes "float"
    ∷ codes "f32"
    ∷ codes "f64"
    ∷ []

unfoldable pub is_numeric : Ty → Bool
is_numeric (primitive n) = any (equal n) numeric_names
is_numeric _ = false

unfoldable pub is_integer : Ty → Bool
is_integer (primitive n) = any (equal n) integer_names
is_integer _ = false

unfoldable pub is_scalar : Ty → Bool
is_scalar (nullable t) = is_scalar t
is_scalar (primitive n) = not (equal n (codes "object")) && not (equal n (codes "unknown"))
is_scalar _ = false
