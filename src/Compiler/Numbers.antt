-- ===== src/Compiler/Numbers.antt =====
-- The built-ins that read and write numbers and truth values.
use scrape_kdl.Common.Int.{pos}
use scrape_kdl.Common.Outcome.{Outcome, ok, err, check}
use scrape_kdl.Common.Text.{Bytes, codes, equal, equal_iff}
use scrape_kdl.Common.{
  Bool, true, false, not, ◌||◌, List, Option, none, some, if◌then◌else◌, ◌≡◌, refl, sym, ap, ◌∙◌,
  arith, if_rule, if_both, Bool-cases, inl, inr,
}
use scrape_kdl.Compiler.Builtins.{string_type, integer_type, is_float_name}
use scrape_kdl.Compiler.Values.{Gives, Gives-bind, Gives-check, text-Has, boolean-Has, integer-Has}
use scrape_kdl.Diagnostic.{Message}
use scrape_kdl.Executor.Builtins.Arguments.{
  Result, require_string, required_string, optional_int, optional_bool, optional_string,
}
use scrape_kdl.Executor.Builtins.Library.{Library}
use scrape_kdl.Executor.Builtins.Parse.{
  finite_float, parse_float_bits, float_bits, is_refused_float, parse_integer, read_bool,
  builtin_parse_int, builtin_parse_float, builtin_parse_bool, builtin_to_string,
}
use scrape_kdl.Executor.Builtins.Ranges.{InRange, parse_integer-InRange}
use scrape_kdl.Executor.Calls.Returns.{Has}
use scrape_kdl.Executor.Calls.{TransformRuntime}
use scrape_kdl.Executor.Integer.{Target, spelled}
use scrape_kdl.Executor.Output.Recovery.{other_error}
use scrape_kdl.Executor.Value.{
  Value, text, boolean, integer, single, double, Floating, is_finite, float32_is_invalid,
  is_json_compatible, matches_runtime_type, matches_primitive,
}
use scrape_kdl.Ir.{NamedArgument}
use scrape_kdl.Typesys.Kinds.{is_integer}
use scrape_kdl.Typesys.RoundTrip.{parse-to_text}
use scrape_kdl.Typesys.{Ty, primitive, is_primitive, to_text, parse, ParseError}

-- The name of a target is read as its type.
parse-spelled : (target : Target) → parse (spelled target) ≡ ok (primitive (spelled target))
unfolding to_text is_primitive equal
parse-spelled Target.int_target = parse-to_text (primitive (spelled Target.int_target)) refl
parse-spelled Target.i8 = parse-to_text (primitive (spelled Target.i8)) refl
parse-spelled Target.i16 = parse-to_text (primitive (spelled Target.i16)) refl
parse-spelled Target.i32 = parse-to_text (primitive (spelled Target.i32)) refl
parse-spelled Target.i64 = parse-to_text (primitive (spelled Target.i64)) refl
parse-spelled Target.u8 = parse-to_text (primitive (spelled Target.u8)) refl
parse-spelled Target.u16 = parse-to_text (primitive (spelled Target.u16)) refl
parse-spelled Target.u32 = parse-to_text (primitive (spelled Target.u32)) refl
parse-spelled Target.u64 = parse-to_text (primitive (spelled Target.u64)) refl

pub if_ok :
    (b : Bool) (t output : Ty) (e : Message)
    → (if b then ok t else err e) ≡ ok output
    → (b ≡ true) × (t ≡ output)
if_ok true t output e h = (refl, cc)
if_ok false t output e h = absurd cc

ok_injective : {a b : Ty} → ◌≡◌ {A = Outcome ParseError Ty} (ok a) (ok b) → a ≡ b
ok_injective h = cc

pub integer_type-ok :
    (r : Outcome ParseError Ty) (output : Ty) → integer_type r ≡ ok output → r ≡ ok output
integer_type-ok (err e) output h = absurd cc
integer_type-ok (ok t) output h = ap ok (if_ok (is_integer t) t output _ h).1

module _ (runtime : TransformRuntime) where
  InRange-Gives :
      (name : Bytes) (output : Ty) (r : Result Value)
      → InRange name r
      → parse name ≡ ok output
      → Gives runtime output r
  InRange-Gives name output (err e) h p = tt
  InRange-Gives name output (ok v) (target, k, named, is, held) p =
      let same : primitive (spelled target) ≡ output =
        ok_injective (sym (parse-spelled target) ∙ ap parse (sym named) ∙ p) in
      rw (is, ← same) (integer-Has runtime target k)

  pub builtin_to_string-Gives :
      (v : Value) → Gives runtime string_type (builtin_to_string runtime.numbers v)
  unfolding builtin_to_string
  builtin_to_string-Gives (text s) = text-Has runtime s
  builtin_to_string-Gives (boolean b) = text-Has runtime _
  builtin_to_string-Gives (integer t k) = text-Has runtime _
  builtin_to_string-Gives (single f) =
      if_both (Gives runtime string_type) (float32_is_invalid runtime.numbers f) tt
        (text-Has runtime _)
  builtin_to_string-Gives (double f) =
      if_both (Gives runtime string_type) (not (is_finite f)) tt (text-Has runtime _)
  builtin_to_string-Gives v = tt

  read_bool-Gives :
      (value yes_value no_value : Bytes)
      → Gives runtime (primitive (codes "bool")) (read_bool value yes_value no_value)
  unfolding read_bool
  read_bool-Gives value yes_value no_value =
      if_both (Gives runtime (primitive (codes "bool"))) (equal value yes_value)
        (boolean-Has runtime true)
        (if_both (Gives runtime (primitive (codes "bool"))) (equal value no_value)
          (boolean-Has runtime false) tt)

  module _ (library : Library) where
    -- What `strconv.ParseFloat` reads with 32 bits keeps its value as a `float32`.
    abbrev pub SingleFloats : Type 0
    SingleFloats =
        (s : Bytes) (f : Floating)
        → library.parse_float 32 s ≡ some f
        → is_finite f ≡ true
        → float32_is_invalid runtime.numbers (runtime.numbers.narrow f) ≡ false

    double_named :
        (name : Bytes) (f : Floating)
        → (equal name (codes "float") || equal name (codes "f64")) ≡ true
        → is_finite f ≡ true
        → Has runtime (primitive name) (double f)
    unfolding matches_runtime_type matches_primitive is_json_compatible equal
    double_named name f h finite = elim (Bool-cases (equal name (codes "float"))) [
      | inl e ↦ rw ((equal_iff name (codes "float")).0 e) (finite, finite)
      | inr e ↦
          let other : equal name (codes "f64") ≡ true = ground (arith, h, e) in
          rw ((equal_iff name (codes "f64")).0 other) (finite, finite)
    ]

    double-Gives :
        (name : Bytes) (o : Option Floating)
        → (equal name (codes "float") || equal name (codes "f64")) ≡ true
        → Gives runtime (primitive name) (finite_float runtime library 64 o)
    double-Gives name none h = tt
    double-Gives name (some f) h =
        if_rule (Gives runtime (primitive name)) (not (is_finite f)) (λ _. tt)
          λ finite. double_named name f h (ground arith)

    single-Gives :
        SingleFloats
        → (s : Bytes) (o : Option Floating) → library.parse_float 32 s ≡ o
        → Gives runtime (primitive (codes "f32")) (finite_float runtime library 32 o)
    unfolding matches_runtime_type matches_primitive is_json_compatible equal
    single-Gives narrows s none e = tt
    single-Gives narrows s (some f) e =
        if_rule (Gives runtime (primitive (codes "f32"))) (not (is_finite f)) (λ _. tt)
          λ finite. let small = narrows s f e (ground arith) in (ground arith, ground arith)

    parse_float_bits-Gives :
        SingleFloats
        → (value name : Bytes) → is_float_name name ≡ true
        → Gives runtime (primitive name) (parse_float_bits runtime library value (float_bits name))
    unfolding float_bits
    parse_float_bits-Gives narrows value name h = elim (Bool-cases (equal name (codes "f32"))) [
      | inl e ↦
          rw ((equal_iff name (codes "f32")).0 e)
            (single-Gives narrows value (library.parse_float 32 value) refl)
      | inr e ↦
          let other : (equal name (codes "float") || equal name (codes "f64")) ≡ true =
            ground (arith, h, e) in
          rw (e, other) (double-Gives name (library.parse_float 64 value) other)
    ]

    module _ (arguments : List NamedArgument) where
      pub builtin_parse_bool-Gives :
          (v : Value)
          → Gives runtime
              (primitive (codes "bool"))
              (builtin_parse_bool runtime library arguments v)
      unfolding builtin_parse_bool
      builtin_parse_bool-Gives v =
          let bool_type = primitive (codes "bool") in
          Gives-bind runtime bool_type (require_string v) _ λ s _.
            Gives-bind runtime bool_type
              (optional_bool runtime library arguments (codes "case-sensitive") false) _
              λ exact _.
                Gives-bind runtime bool_type
                  (optional_string runtime library arguments (codes "true") (codes "true")) _
                  λ yes_value _.
                    Gives-bind runtime bool_type
                      (optional_string runtime library arguments (codes "false") (codes "false")) _
                      λ no_value _.
                        let fold = λ (t : Bytes). if exact then t else library.to_lower t in
                        read_bool-Gives (fold s) (fold yes_value) (fold no_value)

      pub builtin_parse_int-Gives :
          (name : Bytes) (output : Ty) (v : Value)
          → required_string runtime library arguments (codes "as") ≡ ok name
          → parse name ≡ ok output
          → Gives runtime output (builtin_parse_int runtime library arguments v)
      unfolding builtin_parse_int
      builtin_parse_int-Gives name output v asked p =
          Gives-bind runtime output (require_string v) _ λ s _. rw asked (
            Gives-bind runtime output
              (optional_int runtime library arguments (codes "radix") (pos 10)) _
              λ radix _.
                InRange-Gives name output (parse_integer s name radix)
                  (parse_integer-InRange s name radix) p)

      pub builtin_parse_float-Gives :
          SingleFloats
          → (name : Bytes) (v : Value)
          → required_string runtime library arguments (codes "as") ≡ ok name
          → is_float_name name ≡ true
          → Gives runtime (primitive name) (builtin_parse_float runtime library arguments v)
      unfolding builtin_parse_float
      builtin_parse_float-Gives narrows name v asked h =
          Gives-bind runtime (primitive name) (require_string v) _ λ s _. rw asked (
            Gives-check runtime (primitive name)
              (check (not (is_refused_float library s))
                (other_error (codes "invalid finite decimal float %q")))
              (parse_float_bits runtime library s (float_bits name))
              (parse_float_bits-Gives narrows s name h))
