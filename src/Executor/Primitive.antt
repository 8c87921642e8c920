-- ===== src/Executor/Primitive.antt =====
-- `normalizeJSONResult` on primitive types: the switch over the name.
use scrape_kdl.Common.Int.{ℤ}
use scrape_kdl.Common.Text.{Bytes, codes, equal, equal_iff}
use scrape_kdl.Common.{Bool, true, false, ◌||◌, Option, none, some, ◌≡◌, refl, if_both, if_rule}
use scrape_kdl.Executor.Integer.{Target, spelled, held_in, holds, convert_integer-eq-holds}
use scrape_kdl.Executor.Integer
use scrape_kdl.Executor.Normalize.{
  convert_integer, json_integer, normalize_json_integer, json_float, convert_float,
  normalize_json_float, is_integer_name, is_float_name, normalize_primitive, converted, kept_if,
}
use scrape_kdl.Executor.Value.{
  Floating, Value, integer, double, Numbers, is_finite, is_null, is_object, is_text, is_boolean,
  float32_is_invalid, is_json_compatible, is_valid_double, matches_primitive,
}

-- A property that follows from a test on a name may be shown on that name.
at_name {ℓ} : (P : Bytes → Type ℓ) (name s : Bytes) → equal name s ≡ true → P s → P name
at_name P name s h p = rw ((equal_iff name s).0 h) p

or_rule {ℓ} : (P : Type ℓ) (a b : Bool) → (a ≡ true → P) → (b ≡ true → P) → (a || b) ≡ true → P
or_rule P true b f g h = f refl
or_rule P false b f g h = g h

-- A name of integers is that of a target.
integer_name_target :
    (name : Bytes) → is_integer_name name ≡ true → (t : Target) × (name ≡ spelled t)
integer_name_target name =
    let Found : Type 0 = (t : Target) × (name ≡ spelled t) in
    let found : (t : Target) → equal name (spelled t) ≡ true → Found =
      λ t h. (t, (equal_iff name (spelled t)).0 h) in
    or_rule Found _ _
      (or_rule Found _ _
        (or_rule Found _ _
          (or_rule Found _ _
            (or_rule Found _ _
              (or_rule Found _ _
                (or_rule Found _ _ (or_rule Found _ _ (found Integer.int_target) (found Integer.i8))
                  (found Integer.i16))
                (found Integer.i32))
              (found Integer.i64))
            (found Integer.u8))
          (found Integer.u16))
        (found Integer.u32))
      (found Integer.u64)

module _ (numbers : Numbers) where
  abbrev pub PrimitiveConforms : Bytes → Option Value → Type 0
  PrimitiveConforms name none = Unit
  PrimitiveConforms name (some v) =
      (matches_primitive numbers v name ≡ true)
      × (is_null v ≡ false)
      × (is_json_compatible numbers v ≡ true)

  int_type-matches :
      (t : Target) (k : ℤ) → matches_primitive numbers (integer (held_in t) k) (spelled t) ≡ true
  unfolding matches_primitive equal
  int_type-matches Integer.int_target k = refl
  int_type-matches Integer.i8 k = refl
  int_type-matches Integer.i16 k = refl
  int_type-matches Integer.i32 k = refl
  int_type-matches Integer.i64 k = refl
  int_type-matches Integer.u8 k = refl
  int_type-matches Integer.u16 k = refl
  int_type-matches Integer.u32 k = refl
  int_type-matches Integer.u64 k = refl

  convert_integer-PrimitiveConforms :
      (t : Target) (k : ℤ) → PrimitiveConforms (spelled t) (convert_integer (spelled t) k)
  unfolding is_json_compatible
  convert_integer-PrimitiveConforms t k = rw (convert_integer-eq-holds t k) (
      if_both (PrimitiveConforms (spelled t)) (holds (held_in t) k)
        (int_type-matches t k, refl, refl) tt)

  normalize_json_integer-PrimitiveConforms :
      (t : Target) (o : Option ℤ) → PrimitiveConforms (spelled t) (converted (spelled t) o)
  normalize_json_integer-PrimitiveConforms t none = tt
  normalize_json_integer-PrimitiveConforms t (some k) = convert_integer-PrimitiveConforms t k

  convert_single-PrimitiveConforms :
      (o : Option Floating)
      → PrimitiveConforms (codes "f32") (convert_float numbers (codes "f32") o)
  unfolding convert_float matches_primitive equal is_json_compatible
  convert_single-PrimitiveConforms none = tt
  convert_single-PrimitiveConforms (some f) =
      if_both (PrimitiveConforms (codes "f32")) (is_finite f)
        (if_rule (PrimitiveConforms (codes "f32")) (float32_is_invalid numbers (numbers.narrow f))
          (λ _. tt) (λ h. (rw h refl, refl, rw h refl)))
        tt

  abbrev IsDouble : Bytes → Type 0
  IsDouble name =
      ((v : Value) → matches_primitive numbers v name ≡ is_valid_double v)
      × (equal name (codes "f32") ≡ false)

  convert_double-PrimitiveConforms :
      (name : Bytes) (o : Option Floating)
      → IsDouble name
      → PrimitiveConforms name (convert_float numbers name o)
  unfolding convert_float is_json_compatible
  convert_double-PrimitiveConforms name none h = tt
  convert_double-PrimitiveConforms name (some f) h =
      if_rule (PrimitiveConforms name) (is_finite f)
        (λ h'. rw (h.1) (rw (h.0 (double f)) h', refl, h')) (λ _. tt)

  module _ (v : Value) (compatible : is_json_compatible numbers v ≡ true)
      (given : is_null v ≡ false) where
    kept_if-PrimitiveConforms :
        (name : Bytes) (test : Bool)
        → (test ≡ true → matches_primitive numbers v name ≡ true)
        → PrimitiveConforms name (kept_if test v)
    kept_if-PrimitiveConforms name test h =
        if_rule (PrimitiveConforms name) test (λ h'. (h h', given, compatible)) (λ _. tt)

    -- Each name has its case, and a name of integers is that of a target.
    pub normalize_primitive-PrimitiveConforms :
        (name : Bytes) → PrimitiveConforms name (normalize_primitive numbers v name)
    unfolding normalize_primitive normalize_json_integer normalize_json_float matches_primitive
        equal
    normalize_primitive-PrimitiveConforms name =
        let P = PrimitiveConforms in
        let kept : (s : Bytes) (test : Bool)
            → (test ≡ true → matches_primitive numbers v s ≡ true)
            → equal name s ≡ true
            → P name (kept_if test v) =
          λ s test f h.
            at_name (λ n. P n (kept_if test v)) name s h (kept_if-PrimitiveConforms s test f) in
        let converted_as : Bytes → Option Value =
          λ n. convert_float numbers n (json_float numbers v) in
        let float : (s : Bytes)
            → P s (converted_as s)
            → equal name s ≡ true
            → P name (converted_as name) =
          λ s p h. at_name (λ n. P n (converted_as n)) name s h p in
        if_rule (P name) (equal name (codes "unknown"))
          (kept (codes "unknown") true λ _. compatible)
          λ _.
            if_rule (P name) (equal name (codes "object"))
              (kept (codes "object") (is_object v) λ h. h)
              λ _.
                if_rule (P name) (equal name (codes "string"))
                  (kept (codes "string") (is_text v) λ h. h)
                  λ _.
                    if_rule (P name) (equal name (codes "bool"))
                      (kept (codes "bool") (is_boolean v) λ h. h)
                      λ _.
                        if_rule (P name) (is_integer_name name)
                          (λ h.
                            let (t, e) = integer_name_target name h in
                            rw e
                              (normalize_json_integer-PrimitiveConforms t (json_integer numbers v)))
                          λ _.
                            if_rule (P name) (is_float_name name)
                              (or_rule _ _ _
                                (or_rule _ _ _
                                  (float (codes "float") (
                                    convert_double-PrimitiveConforms (codes "float") _
                                      (λ v. refl, refl)))
                                  (float (codes "f32") (convert_single-PrimitiveConforms _)))
                                (float (codes "f64") (
                                  convert_double-PrimitiveConforms (codes "f64") _
                                    (λ v. refl, refl))))
                              λ _. tt
