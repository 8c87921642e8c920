-- ===== src/Compiler/Values.antt =====
-- Values of the types of the built-ins, and results that have a type or are errors.
use scrape_kdl.Common.Int.{ℤ}
use scrape_kdl.Common.Outcome.{ok, err, ◌>>=◌, ◌>>◌}
use scrape_kdl.Common.Text.{Bytes, codes, equal}
use scrape_kdl.Common.{Bool, List, [], ◌∷◌, refl, arith, ◌≡◌}
use scrape_kdl.Compiler.Builtins.{string_type}
use scrape_kdl.Executor.Builtins.Arguments.{Result}
use scrape_kdl.Executor.Calls.Returns.{Has}
use scrape_kdl.Executor.Calls.{TransformRuntime}
use scrape_kdl.Executor.Integer.{Target, spelled, held_in}
use scrape_kdl.Executor.Value.{
  Value, null, text, boolean, integer, strings, is_json_compatible, matches_runtime_type,
  matches_primitive,
}
use scrape_kdl.Typesys.{Ty, primitive, array, nullable}

module _ (runtime : TransformRuntime) where
  -- A value of the type, or an error.
  abbrev pub Gives : Ty → Result Value → Type 0
  Gives t (err e) = Unit
  Gives t (ok v) = Has runtime t v

  pub Gives-bind {ℓ} :
      {A : Type ℓ} (t : Ty) (r : Result A) (next : A → Result Value)
      → ((a : A) → r ≡ ok a → Gives t (next a))
      → Gives t (r >>= next)
  Gives-bind t (err e) next h = tt
  Gives-bind t (ok a) next h = h a refl

  pub Gives-check :
      (t : Ty) (r : Result (Unit {0})) (next : Result Value) → Gives t next → Gives t (r >> next)
  Gives-check t (err e) next h = tt
  Gives-check t (ok passed) next h = h

  pub text-Has : (s : Bytes) → Has runtime string_type (text s)
  unfolding matches_runtime_type matches_primitive is_json_compatible equal
  text-Has s = (refl, refl)

  pub null-Has : Has runtime (nullable string_type) null
  unfolding matches_runtime_type is_json_compatible
  null-Has = (refl, refl)

  pub text-Has_nullable : (s : Bytes) → Has runtime (nullable string_type) (text s)
  unfolding matches_runtime_type matches_primitive is_json_compatible equal
  text-Has_nullable s = (refl, refl)

  pub boolean-Has : (b : Bool) → Has runtime (primitive (codes "bool")) (boolean b)
  unfolding matches_runtime_type matches_primitive is_json_compatible equal
  boolean-Has b = (refl, refl)

  pub strings-Has : (ss : List Bytes) → Has runtime (array string_type) (strings ss)
  unfolding matches_runtime_type matches_primitive is_json_compatible equal
  strings-Has [] = (refl, refl)
  strings-Has (s ∷ ss) = (ground (arith, (strings-Has ss).0), refl)

  pub integer-Has :
      (target : Target) (k : ℤ)
      → Has runtime (primitive (spelled target)) (integer (held_in target) k)
  unfolding matches_runtime_type matches_primitive is_json_compatible equal
  integer-Has Target.int_target k = (refl, refl)
  integer-Has Target.i8 k = (refl, refl)
  integer-Has Target.i16 k = (refl, refl)
  integer-Has Target.i32 k = (refl, refl)
  integer-Has Target.i64 k = (refl, refl)
  integer-Has Target.u8 k = (refl, refl)
  integer-Has Target.u16 k = (refl, refl)
  integer-Has Target.u32 k = (refl, refl)
  integer-Has Target.u64 k = (refl, refl)
