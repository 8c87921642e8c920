-- ===== src/Typesys/RoundTrip.antt =====
-- `Parse` reads back what `String` writes.
use scrape_kdl.Common.Outcome.{ok}
use scrape_kdl.Common.Space.{trim_space-visible}
use scrape_kdl.Common.Text.{Bytes, codes}
use scrape_kdl.Common.{
  ℕ, suc, true, false, [], ◌∷◌, ◌++◌, ◌≡◌, refl, append-nil, append_assoc, ◌∙◌, arith, length, ◌==◌,
  all,
}
use scrape_kdl.Typesys.Print.{well_formed, is_primitive-is_name, to_text-visible}
use scrape_kdl.Typesys.{
  Ty, primitive, array, nullable, nullable_nil, is_name_byte, is_blank, make_nullable,
  parse_primitive, parse_suffixes, parse_base, parse_type, finish_parse, parse, skip_blanks,
  read_name, has_nullable_kind, is_primitive, to_text,
}

-- A text that does not go on with a byte of a name.
abbrev IsEnd : Bytes → Type 0
IsEnd [] = Unit
IsEnd (c ∷ s) = is_name_byte c ≡ false

read_name-append :
    (name rest : Bytes)
    → all is_name_byte name ≡ true
    → IsEnd rest
    → read_name (name ++ rest) ≡ (name, rest)
unfolding read_name
read_name-append [] [] h e = refl
read_name-append [] (c ∷ s) h e = rw e
read_name-append (c ∷ name) rest h e =
    rw (read_name-append name rest (ground arith) e) (ground arith)

parse_type-primitive :
    (f : ℕ) (name rest : Bytes)
    → is_primitive name ≡ true
    → IsEnd rest
    → parse_type (suc f) (name ++ rest) ≡ parse_suffixes (primitive name) rest
unfolding parse_type parse_base skip_blanks parse_primitive
parse_type-primitive f [] rest h e = cc (is_primitive-is_name [] h)
parse_type-primitive f (c ∷ name) rest h e =
    let shape = is_primitive-is_name (c ∷ name) h in
    let plain : is_blank c ≡ false = ground arith in
    let opens : (c == b'(') ≡ false = ground arith in
    rw (plain, opens, read_name-append (c ∷ name) rest shape e) (rw h)

make_nullable-plain : (t : Ty) → has_nullable_kind t ≡ false → make_nullable t ≡ nullable t
unfolding make_nullable
make_nullable-plain (nullable t) h = cc
make_nullable-plain nullable_nil h = cc
make_nullable-plain _ h = refl

parse_suffixes-question :
    (t : Ty) (rest : Bytes)
    → has_nullable_kind t ≡ false
    → parse_suffixes t (b'?' ∷ rest) ≡ parse_suffixes (nullable t) rest
unfolding parse_suffixes
parse_suffixes-question t [] h = rw (h, make_nullable-plain t h) refl
parse_suffixes-question t (c ∷ s) h = rw (h, make_nullable-plain t h) refl

-- A printed type is read whole, whatever end of a name comes behind it.
parse_type-to_text :
    (f : ℕ) (t : Ty) (rest : Bytes)
    → well_formed t ≡ true
    → IsEnd rest
    → parse_type (suc f) (to_text t ++ rest) ≡ parse_suffixes t rest
unfolding to_text
parse_type-to_text f (primitive name) rest wf e = parse_type-primitive f name rest wf e
parse_type-to_text f (array t) rest wf e =
    rw append_assoc
      (parse_type-to_text f t (codes "[]" ++ rest) wf refl ∙ unfold parse_suffixes in refl)
parse_type-to_text f (nullable t) rest wf e =
    let plain : has_nullable_kind t ≡ false = ground arith in
    rw append_assoc (
      parse_type-to_text f t (codes "?" ++ rest) (ground arith) refl
      ∙ parse_suffixes-question t rest plain)
parse_type-to_text f _ rest wf e = cc

-- Parsing the text of a well-formed type gives that type.
pub parse-to_text : (t : Ty) → well_formed t ≡ true → parse (to_text t) ≡ ok t
unfolding parse parse_suffixes skip_blanks finish_parse
parse-to_text t wf =
    let text = to_text t in
    let whole : parse_type (suc (length text)) text ≡ ok (t, []) =
      rw append-nil at (parse_type-to_text (length text) t [] wf tt) in
    rw (trim_space-visible text (to_text-visible t wf), whole) refl
