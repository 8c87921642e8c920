-- ===== src/Executor/Integer.antt =====
-- `normalizeJSONInteger` keeps an integer that its target holds, and refuses every other one.
use scrape_kdl.Common.Int.{ℤ, pos, negsuc}
use scrape_kdl.Common.Text.{Bytes, codes, equal, has_prefix}
use scrape_kdl.Common.{◌+◌, Bool, none, some, ◌≡◌, refl, arith, if◌then◌else◌}
use scrape_kdl.Executor.Normalize.{
  fits_unsigned, fits_signed, to_unsigned, to_signed, two_63, narrow_unsigned, narrow_signed,
  convert_integer, json_integer, normalize_json_integer,
}
use scrape_kdl.Executor.Value.{
  IntType, int, int8, int16, int32, int64, uint, uint8, uint16, uint32, uint64, Value, integer,
  Numbers,
}

-- The integers that a type of Go holds.
unfoldable pub holds : IntType → ℤ → Bool
holds int k = fits_signed two_63 k
holds int8 k = fits_signed 128 k
holds int16 k = fits_signed 32768 k
holds int32 k = fits_signed 2147483648 k
holds int64 k = fits_signed two_63 k
holds uint k = fits_unsigned (two_63 + two_63) k
holds uint8 k = fits_unsigned 256 k
holds uint16 k = fits_unsigned 65536 k
holds uint32 k = fits_unsigned 4294967296 k
holds uint64 k = fits_unsigned (two_63 + two_63) k

-- The names of the integers of the language, with the type that holds their values.
pub data Target : Type 0 where
  int_target i8 i16 i32 i64 u8 u16 u32 u64 : Target

abbrev pub spelled : Target → Bytes
spelled int_target = codes "int"
spelled i8 = codes "i8"
spelled i16 = codes "i16"
spelled i32 = codes "i32"
spelled i64 = codes "i64"
spelled u8 = codes "u8"
spelled u16 = codes "u16"
spelled u32 = codes "u32"
spelled u64 = codes "u64"

abbrev pub held_in : Target → IntType
held_in int_target = int64
held_in i8 = int8
held_in i16 = int16
held_in i32 = int32
held_in i64 = int64
held_in u8 = uint8
held_in u16 = uint16
held_in u32 = uint32
held_in u64 = uint64

pub convert_integer-eq-holds :
    (t : Target) (k : ℤ)
    → convert_integer (spelled t) k
      ≡ (if holds (held_in t) k then some (integer (held_in t) k) else none)
unfolding convert_integer holds narrow_signed narrow_unsigned equal has_prefix fits_signed
    fits_unsigned to_signed to_unsigned
convert_integer-eq-holds int_target k = refl
convert_integer-eq-holds i64 k = refl
convert_integer-eq-holds u64 k = refl
convert_integer-eq-holds _ (pos n) = ground arith
convert_integer-eq-holds _ (negsuc n) = ground arith

-- For every integer type of the language, normalizeJSONInteger returns the integer that the value
-- stands for in the Go type that belongs to the name, if that type holds it, unchanged by the
-- conversion to fewer bits, and it refuses it otherwise.
pub normalize_json_integer-eq-holds :
    (numbers : Numbers) (t : Target) (v : Value) (k : ℤ)
    → json_integer numbers v ≡ some k
    → normalize_json_integer numbers v (spelled t)
      ≡ (if holds (held_in t) k then some (integer (held_in t) k) else none)
unfolding normalize_json_integer
normalize_json_integer-eq-holds numbers t v k h = rw h (convert_integer-eq-holds t k)
