-- ===== src/Compiler/Strings.antt =====
-- The built-ins that return texts.
use Prim.Native.String.{String}
use scrape_kdl.Common.Int.{ℤ, pos, negsuc}
use scrape_kdl.Common.Space.{runes}
use scrape_kdl.Common.Strings.{split}
use scrape_kdl.Common.Text.{Bytes, codes}
use scrape_kdl.Common.{
  ℕ, suc, ◌-◌, List, [], ◌∷◌, length, Option, none, some, leb, ltb, get_or, get_elem?, if_both,
}
use scrape_kdl.Compiler.Builtins.{string_type}
use scrape_kdl.Compiler.Values.{
  Gives, Gives-bind, text-Has, null-Has, text-Has_nullable, strings-Has,
}
use scrape_kdl.Executor.Builtins.Arguments.{
  Result, lifted, natural, require_string, required_string, required_int, optional_int,
  optional_natural,
}
use scrape_kdl.Executor.Builtins.Library.{Library, Regex}
use scrape_kdl.Executor.Builtins.Regexp.{
  capture, captured, compile_runtime_regex, builtin_regex_replace, builtin_regex_capture,
}
use scrape_kdl.Executor.Builtins.Strings.{
  builtin_text, empty_to_null, null_if_empty, string_values, join_value, builtin_prepend,
  builtin_append, builtin_replace, builtin_substring, builtin_split, builtin_join,
}
use scrape_kdl.Executor.Builtins.Urls.{
  text_or_null, values_of, segment_at, path_or, decode_segments, parse_base, first_from,
  builtin_url_resolve, builtin_url_query, builtin_url_path, builtin_path_segment,
}
use scrape_kdl.Executor.Calls.Returns.{Has}
use scrape_kdl.Executor.Calls.{TransformRuntime}
use scrape_kdl.Executor.Value.{Value, strings, items}
use scrape_kdl.Ir.{NamedArgument}
use scrape_kdl.Typesys.{array, nullable}

module _ (runtime : TransformRuntime) where
  pub builtin_text-Gives :
      (f : Bytes → Bytes) (v : Value) → Gives runtime string_type (builtin_text f v)
  builtin_text-Gives f v =
      Gives-bind runtime string_type (require_string v) _ λ s e. text-Has runtime (f s)

  null_or_text-Has : (o : Option Bytes) → Has runtime (nullable string_type) (text_or_null o)
  null_or_text-Has none = null-Has runtime
  null_or_text-Has (some s) = text-Has_nullable runtime s

  null_if_empty-Has : (s : Bytes) → Has runtime (nullable string_type) (null_if_empty s)
  null_if_empty-Has [] = null-Has runtime
  null_if_empty-Has (c ∷ s) = text-Has_nullable runtime (c ∷ s)

  pub empty_to_null-Gives : (v : Value) → Gives runtime (nullable string_type) (empty_to_null v)
  unfolding empty_to_null
  empty_to_null-Gives v =
      Gives-bind runtime (nullable string_type) (require_string v) _ λ s e. null_if_empty-Has s

  captured-Has :
      (value : Bytes) (o : Option (ℕ × ℕ)) → Has runtime (nullable string_type) (captured value o)
  captured-Has value none = null-Has runtime
  captured-Has value (some (from, to)) = text-Has_nullable runtime _

  capture-Gives :
      (regex : Regex) (value : Bytes) (group : ℤ)
      → Gives runtime (nullable string_type) (capture regex value group)
  unfolding capture
  capture-Gives regex value (negsuc n) = tt
  capture-Gives regex value (pos n) =
      if_both (Gives runtime (nullable string_type)) (leb n regex.num_subexp)
        (captured-Has value (get_or (regex.find value) n none)) tt

  segment_at-Has :
      (segments : List Bytes) (index : ℤ)
      → Has runtime (nullable string_type) (segment_at segments index)
  unfolding segment_at
  segment_at-Has segments (pos n) = null_or_text-Has (get_elem? segments n)
  segment_at-Has segments (negsuc n) =
      if_both (Has runtime (nullable string_type)) (ltb n (length segments))
        (null_or_text-Has (get_elem? segments (length segments - suc n))) (null-Has runtime)

  join_value-Gives :
      (v : Value) (separator : Bytes) → Gives runtime string_type (join_value v separator)
  unfolding join_value
  join_value-Gives (strings ss) separator = text-Has runtime _
  join_value-Gives (items vs) separator =
      Gives-bind runtime string_type (string_values vs) _ λ ss e. text-Has runtime _
  join_value-Gives v separator = tt

module _ (runtime : TransformRuntime) (library : Library) (arguments : List NamedArgument) where
  -- The arguments that a built-in asks for.
  abbrev asked_string : String → Result Bytes
  asked_string name = required_string runtime library arguments (codes name)

  abbrev asked_natural : String → Result ℤ
  asked_natural name = optional_natural runtime library arguments (codes name) (negsuc 0)

  abbrev pub TextOf : (Value → Result Value) → Type 0
  TextOf f = (v : Value) → Gives runtime string_type (f v)

  abbrev pub NullOrTextOf : (Value → Result Value) → Type 0
  NullOrTextOf f = (v : Value) → Gives runtime (nullable string_type) (f v)

  first_from-Has :
      (values : List Bytes) (index : ℤ)
      → Has runtime (nullable string_type) (first_from runtime library arguments values index)
  first_from-Has values (pos n) = null_or_text-Has runtime (get_elem? values n)
  first_from-Has values (negsuc n) = null-Has runtime

  pub builtin_prepend-Gives : TextOf (builtin_prepend runtime library arguments)
  unfolding builtin_prepend
  builtin_prepend-Gives v =
      Gives-bind runtime string_type (require_string v) _ λ s _.
        Gives-bind runtime string_type (asked_string "value") _ λ prefix _. text-Has runtime _

  pub builtin_append-Gives : TextOf (builtin_append runtime library arguments)
  unfolding builtin_append
  builtin_append-Gives v =
      Gives-bind runtime string_type (require_string v) _ λ s _.
        Gives-bind runtime string_type (asked_string "value") _ λ suffix _. text-Has runtime _

  pub builtin_replace-Gives : TextOf (builtin_replace runtime library arguments)
  unfolding builtin_replace
  builtin_replace-Gives v = Gives-bind runtime string_type (require_string v) _ λ s _.
      Gives-bind runtime string_type (asked_string "old") _ λ old _.
        Gives-bind runtime string_type (asked_string "new") _ λ fresh _.
          Gives-bind runtime string_type (asked_natural "count") _ λ count _. text-Has runtime _

  pub builtin_substring-Gives : TextOf (builtin_substring runtime library arguments)
  unfolding builtin_substring
  builtin_substring-Gives v = Gives-bind runtime string_type (require_string v) _ λ s _.
      Gives-bind runtime string_type (required_int runtime library arguments (codes "start")) _
        λ start _.
          Gives-bind runtime string_type
            (optional_int runtime library arguments (codes "end") (pos (length (runes s)))) _
            λ end _. text-Has runtime _

  pub builtin_regex_replace-Gives : TextOf (builtin_regex_replace runtime library arguments)
  unfolding builtin_regex_replace
  builtin_regex_replace-Gives v = Gives-bind runtime string_type (require_string v) _ λ s _.
      Gives-bind runtime string_type (compile_runtime_regex runtime library arguments) _ λ regex _.
        Gives-bind runtime string_type (asked_string "replacement") _ λ replacement _.
          Gives-bind runtime string_type (asked_natural "count") _ λ count _. text-Has runtime _

  pub builtin_url_resolve-Gives : TextOf (builtin_url_resolve runtime library arguments)
  unfolding builtin_url_resolve
  builtin_url_resolve-Gives v = Gives-bind runtime string_type (require_string v) _ λ s _.
      Gives-bind runtime string_type (asked_string "base") _ λ base_value _.
        Gives-bind runtime string_type (parse_base library (library.parse_url base_value)) _
          λ base _.
            Gives-bind runtime string_type (lifted (library.parse_url s)) _
              λ reference _. text-Has runtime _

  pub builtin_regex_capture-Gives : NullOrTextOf (builtin_regex_capture runtime library arguments)
  unfolding builtin_regex_capture
  builtin_regex_capture-Gives v =
      Gives-bind runtime (nullable string_type) (require_string v) _ λ s _.
        Gives-bind runtime (nullable string_type) (compile_runtime_regex runtime library arguments)
          _
          λ regex _.
            Gives-bind runtime (nullable string_type)
              (optional_int runtime library arguments (codes "group") (pos 0)) _
              λ group _. capture-Gives runtime regex s group

  pub builtin_url_query-Gives : NullOrTextOf (builtin_url_query runtime library arguments)
  unfolding builtin_url_query
  builtin_url_query-Gives v = Gives-bind runtime (nullable string_type) (require_string v) _ λ s _.
      Gives-bind runtime (nullable string_type) (asked_string "name") _ λ name _.
        Gives-bind runtime (nullable string_type)
          (optional_int runtime library arguments (codes "index") (pos 0)) _
          λ requested _. Gives-bind runtime (nullable string_type) (natural requested) _ λ index _.
            Gives-bind runtime (nullable string_type) (lifted (library.parse_url s)) _ λ parsed _.
              Gives-bind runtime (nullable string_type)
                (lifted (library.parse_query parsed.raw_query)) _
                λ query _. first_from-Has (values_of query name) index

  pub builtin_path_segment-Gives : NullOrTextOf (builtin_path_segment runtime library arguments)
  unfolding builtin_path_segment
  builtin_path_segment-Gives v =
      Gives-bind runtime (nullable string_type) (require_string v) _ λ s _.
        Gives-bind runtime (nullable string_type)
          (required_int runtime library arguments (codes "index")) _
          λ index _.
            Gives-bind runtime (nullable string_type) (lifted (library.parse_url s)) _ λ parsed _.
              Gives-bind runtime (nullable string_type)
                (decode_segments library (split (path_or parsed.escaped_path s) (codes "/"))) _
                λ segments _. segment_at-Has runtime segments index

  pub builtin_url_path-Gives : TextOf (builtin_url_path library)
  unfolding builtin_url_path
  builtin_url_path-Gives v = Gives-bind runtime string_type (require_string v) _ λ s _.
      Gives-bind runtime string_type (lifted (library.parse_url s)) _ λ parsed _.
        Gives-bind runtime string_type (lifted (library.path_unescape parsed.escaped_path)) _
          λ path _. text-Has runtime path

  pub builtin_join-Gives : TextOf (builtin_join runtime library arguments)
  unfolding builtin_join
  builtin_join-Gives v =
      Gives-bind runtime string_type (asked_string "separator") _
        λ separator _. join_value-Gives runtime v separator

  pub builtin_split-Gives :
      (v : Value) → Gives runtime (array string_type) (builtin_split runtime library arguments v)
  unfolding builtin_split
  builtin_split-Gives v = Gives-bind runtime (array string_type) (require_string v) _ λ s _.
      Gives-bind runtime (array string_type) (asked_string "separator") _ λ separator _.
        Gives-bind runtime (array string_type) (asked_natural "limit") _
          λ limit _. strings-Has runtime _
