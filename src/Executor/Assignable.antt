-- ===== src/Executor/Assignable.antt =====
-- Assignability of types, read on the values of a run.
use scrape_kdl.Common.Text.{Bytes, codes, equal, equal_iff}
use scrape_kdl.Common.{true, List, [], ◌∷◌, ◌≡◌, refl, sym, arith, Bool-cases, inl, inr}
use scrape_kdl.Executor.Value.{
  Value, null, text, strings, items, Values, no_values, and_value, Numbers, is_json_compatible,
  matches_primitive, matches_runtime_type,
}
use scrape_kdl.Typesys.Assign.{equal_type-eq}
use scrape_kdl.Typesys.{
  Ty, primitive, array, nullable, array_nil, nullable_nil, other, equal_type, is_unknown,
  strip_nullable, is_assignable,
}

module _ (numbers : Numbers) where
  abbrev HasType : Value → Ty → Type 0
  HasType v t = matches_runtime_type numbers v t ≡ true

  abbrev Printable : Value → Type 0
  Printable v = is_json_compatible numbers v ≡ true

  unknown-matches : (v : Value) (t : Ty) → Printable v → is_unknown t ≡ true → HasType v t
  unfolding is_unknown matches_runtime_type matches_primitive equal
  unknown-matches null (primitive name) p h = h
  unknown-matches v (primitive name) p h = rw ((equal_iff name (codes "unknown")).0 h) p
  unknown-matches v (array t) p h = absurd cc
  unknown-matches v (nullable t) p h = absurd cc
  unknown-matches v array_nil p h = absurd cc
  unknown-matches v nullable_nil p h = absurd cc
  unknown-matches v (other kind) p h = absurd cc

  equal-matches : (v : Value) (a b : Ty) → equal_type a b ≡ true → HasType v a → HasType v b
  equal-matches v a b e h = rw (sym (equal_type-eq a b e)) h

  texts_mono :
      (a b : Ty)
      → ((v : Value) → Printable v → HasType v a → HasType v b)
      → (ss : List Bytes) → HasType (strings ss) (array a)
      → HasType (strings ss) (array b)
  unfolding matches_runtime_type is_json_compatible
  texts_mono a b imp [] h = refl
  texts_mono a b imp (s ∷ ss) h = ground (arith, imp (text s) refl, texts_mono a b imp ss)

  items_mono :
      (a b : Ty)
      → ((v : Value) → Printable v → HasType v a → HasType v b)
      → (vs : Values) → Printable (items vs)
      → HasType (items vs) (array a)
      → HasType (items vs) (array b)
  unfolding matches_runtime_type is_json_compatible
  items_mono a b imp no_values p h = refl
  items_mono a b imp (and_value v vs) p h = ground (arith, imp v, items_mono a b imp vs)

  array_mono :
      (a b : Ty)
      → ((v : Value) → Printable v → HasType v a → HasType v b)
      → (v : Value) → Printable v
      → HasType v (array a)
      → HasType v (array b)
  unfolding matches_runtime_type
  array_mono a b imp (strings ss) p h = texts_mono a b imp ss h
  array_mono a b imp (items vs) p h = items_mono a b imp vs p h
  array_mono a b imp v p h = absurd cc

  -- Where a type is assignable to another, a value of the first at run time that is compatible
  -- with JSON is a value of the second; the types may be malformed.
  pub is_assignable-matches :
      (v : Value) (from to : Ty)
      → is_assignable from to ≡ true
      → is_json_compatible numbers v ≡ true
      → matches_runtime_type numbers v from ≡ true
      → matches_runtime_type numbers v to ≡ true
  unfolding is_assignable matches_runtime_type strip_nullable
  is_assignable-matches v (array a) (array b) k p h =
      elim (Bool-cases (equal_type (array a) (array b))) [
        | inl e ↦ equal-matches v (array a) (array b) e h
        | inr e ↦ array_mono a b (λ w. is_assignable-matches w a b (ground arith)) v p h
      ]
  is_assignable-matches v (nullable a) (nullable t) k p h =
      elim (Bool-cases (equal_type (nullable a) (nullable t))) [
        | inl e ↦ equal-matches v (nullable a) (nullable t) e h
        | inr e ↦ ground (arith, is_assignable-matches v a t (ground arith) p)
      ]
  is_assignable-matches v from (nullable t) k p h =
      elim (Bool-cases (equal_type from (nullable t))) [
        | inl e ↦ equal-matches v from (nullable t) e h
        | inr e ↦ ground (arith, is_assignable-matches v from t (ground arith) p h)
      ]
  is_assignable-matches v from to k p h = elim (Bool-cases (equal_type from to)) [
    | inl e ↦ equal-matches v from to e h
    | inr e ↦ unknown-matches v to p (ground arith)
  ]
