-- ===== src/Executor/Conforms.antt =====
-- What `normalizeJSONResult` accepts has the type that it was asked for, and can be printed.
use scrape_kdl.Common.Text.{Bytes, codes, equal}
use scrape_kdl.Common.{true, Option, none, some, ◌≡◌, refl, arith, if_rule}
use scrape_kdl.Executor.Normalize.{
  normalize_primitive, normalize_each, texts, normalize_json_result, and_normalized, as_items,
  kept_if_compatible,
}
use scrape_kdl.Executor.Value.{
  Value, null, strings, items, Values, no_values, and_value, Numbers, all_values,
  is_json_compatible, are_json_compatible, matches_runtime_type,
}
use scrape_kdl.Typesys.{Ty, primitive, array, nullable, array_nil, nullable_nil, other}
use scrape_kdl.Executor.Primitive.{PrimitiveConforms, normalize_primitive-PrimitiveConforms}

module _ (numbers : Numbers) where
  -- The same for a type and for the values of an array.
  abbrev pub Conforms : Ty → Option Value → Type 0
  Conforms t none = Unit
  Conforms t (some v) =
      (matches_runtime_type numbers v t ≡ true) × (is_json_compatible numbers v ≡ true)

  abbrev EachConforms : Ty → Option Values → Type 0
  EachConforms t none = Unit
  EachConforms t (some vs) =
      (all_values (λ v. matches_runtime_type numbers v t) vs ≡ true)
      × (are_json_compatible numbers vs ≡ true)

  primitive-Conforms :
      (name : Bytes) (o : Option Value)
      → PrimitiveConforms numbers name o
      → Conforms (primitive name) o
  unfolding matches_runtime_type
  primitive-Conforms name none h = tt
  primitive-Conforms name (some null) h = absurd cc
  primitive-Conforms name (some v) h = (h.0, h.2)

  kept_if_compatible-Conforms :
      (t : Ty) (v : Value) (o : Option Value)
      → (is_json_compatible numbers v ≡ true → Conforms t o)
      → Conforms t (kept_if_compatible numbers v o)
  kept_if_compatible-Conforms t v o h =
      if_rule (Conforms t) (is_json_compatible numbers v) h (λ _. tt)

  nullable-Conforms : (t : Ty) (o : Option Value) → Conforms t o → Conforms (nullable t) o
  unfolding matches_runtime_type
  nullable-Conforms t none h = tt
  nullable-Conforms t (some v) h = (ground (arith, h.0), h.1)

  and_normalized-EachConforms :
      (t : Ty) (o : Option Value) (os : Option Values)
      → Conforms t o
      → EachConforms t os
      → EachConforms t (and_normalized o os)
  unfolding is_json_compatible
  and_normalized-EachConforms t none os h k = tt
  and_normalized-EachConforms t (some v) none h k = tt
  and_normalized-EachConforms t (some v) (some vs) h k = (ground arith, ground arith)

  normalize_each-EachConforms :
      (t : Ty) (f : Value → Option Value)
      → ((v : Value) → Conforms t (f v))
      → (vs : Values) → EachConforms t (normalize_each f vs)
  unfolding is_json_compatible
  normalize_each-EachConforms t f h no_values = (refl, refl)
  normalize_each-EachConforms t f h (and_value v vs) =
      and_normalized-EachConforms t (f v) (normalize_each f vs) (h v)
        (normalize_each-EachConforms t f h vs)

  as_items-Conforms :
      (t : Ty) (os : Option Values) → EachConforms t os → Conforms (array t) (as_items os)
  unfolding matches_runtime_type is_json_compatible
  as_items-Conforms t none h = tt
  as_items-Conforms t (some vs) h = h

  -- What normalizeJSONResult accepts for a type has that type at run time, down to the values of
  -- arrays, and it is compatible with JSON; this holds of every type, a malformed one included.
  pub normalize_json_result-Conforms :
      (v : Value) (t : Ty) → Conforms t (normalize_json_result numbers v t)
  unfolding normalize_json_result matches_runtime_type is_json_compatible
  normalize_json_result-Conforms null (nullable t) = (refl, refl)
  normalize_json_result-Conforms v (nullable t) =
      kept_if_compatible-Conforms (nullable t) v (normalize_json_result numbers v t) λ _.
        nullable-Conforms t (normalize_json_result numbers v t) (normalize_json_result-Conforms v t)
  normalize_json_result-Conforms null nullable_nil = (refl, refl)
  normalize_json_result-Conforms v nullable_nil = tt
  normalize_json_result-Conforms (strings ss) (array t) =
      as_items-Conforms t _
        (normalize_each-EachConforms t _ (λ v. normalize_json_result-Conforms v t) (texts ss))
  normalize_json_result-Conforms (items vs) (array t) =
      kept_if_compatible-Conforms (array t) (items vs) _ λ _.
        as_items-Conforms t _
          (normalize_each-EachConforms t _ (λ v. normalize_json_result-Conforms v t) vs)
  normalize_json_result-Conforms v (array t) = tt
  normalize_json_result-Conforms v array_nil = tt
  normalize_json_result-Conforms null (primitive name) =
      if_rule (Conforms (primitive name)) (equal name (codes "unknown")) (λ h. (h, refl)) (λ _. tt)
  normalize_json_result-Conforms v (primitive name) =
      kept_if_compatible-Conforms (primitive name) v (normalize_primitive numbers v name)
        λ compatible.
          primitive-Conforms name (normalize_primitive numbers v name)
            (normalize_primitive-PrimitiveConforms numbers v compatible refl name)
  normalize_json_result-Conforms v (other kind) = tt
