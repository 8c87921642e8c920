-- ===== src/Typesys/Print.antt =====
-- Which values of `Type` the language can write down, and how their texts look.
use scrape_kdl.Common.Space.{is_visible}
use scrape_kdl.Common.Text.{Bytes, equal, equal_iff}
use scrape_kdl.Common.{
  Bool, true, false, not, ◌&&◌, List, [], ◌∷◌, ◌≡◌, refl, arith, all, all-append, any, Bool-cases,
  inl, inr,
}
use scrape_kdl.Typesys.{
  Ty, primitive, array, nullable, is_primitive, primitives, has_nullable_kind, is_name_byte,
  to_text,
}

-- A primitive of the table, an array of a well-formed type, or one that lifts a well-formed type
-- which is not nullable itself.
abbrev pub well_formed : Ty → Bool
well_formed (primitive name) = is_primitive name
well_formed (array t) = well_formed t
well_formed (nullable t) = well_formed t && not (has_nullable_kind t)
well_formed _ = false

abbrev is_name : Bytes → Bool
is_name [] = false
is_name (c ∷ s) = all is_name_byte (c ∷ s)

any-equal :
    (p : Bytes → Bool) (name : Bytes) (table : List Bytes)
    → all p table ≡ true
    → any (equal name) table ≡ true
    → p name ≡ true
any-equal p name [] h k = cc
any-equal p name (x ∷ table) h k = elim (Bool-cases (equal name x)) [
  | inl same ↦ rw ((equal_iff name x).0 same) (ground arith)
  | inr differs ↦ any-equal p name table (ground arith) (ground arith)
]

pub is_primitive-is_name : (name : Bytes) → is_primitive name ≡ true → is_name name ≡ true
unfolding is_primitive
is_primitive-is_name name h = any-equal is_name name primitives refl h

name-visible : (name : Bytes) → all is_name_byte name ≡ true → all is_visible name ≡ true
name-visible [] h = refl
name-visible (c ∷ s) h = ground (arith, name-visible s)

pub to_text-visible : (t : Ty) → well_formed t ≡ true → all is_visible (to_text t) ≡ true
unfolding to_text
to_text-visible (primitive []) h = refl
to_text-visible (primitive (c ∷ s)) h = name-visible (c ∷ s) (is_primitive-is_name (c ∷ s) h)
to_text-visible (array t) h =
    rw (all-append is_visible (to_text t)) (ground (arith, to_text-visible t))
to_text-visible (nullable t) h =
    rw (all-append is_visible (to_text t)) (ground (arith, to_text-visible t))
to_text-visible _ h = cc
