-- ===== src/CanonicalJson/RoundTrip.antt =====
-- Reading a canonical string of JSON gives the text back.
use scrape_kdl.CanonicalJson.{
  lower_hexadecimal, control_escape, append_character, append_characters, append_string,
}
use scrape_kdl.CanonicalJson.Reader.{among_characters, digits, push, read_string, read_text}
use scrape_kdl.Common.Outcome.{Outcome, ok, err}
use scrape_kdl.Common.Space.{runes, runes_fuel}
use scrape_kdl.Common.Text.{Bytes}
use scrape_kdl.Common.Utf8.Encode.{encode_rune-ascii, decode_rune-Encodes, all_above}
use scrape_kdl.Common.Utf8.{valid, valid_fuel, encode_rune, decode_rune, decode_rune_width}
use scrape_kdl.Common.{
  ℕ, zero, suc, ◌+◌, ◌*◌, ◌/◌, ◌%◌, ◌≤◌, ◌<◌, true, false, ◌&&◌, ◌||◌, [], ◌∷◌, ◌++◌, all, drop,
  length, Option, none, some, leb, ltb, ◌==◌, ◌≡◌, refl, ap, ◌∙◌, sym, arith, Bool-cases, inl, inr,
  append_assoc, take-append-drop, length-drop, append-nil, if_rule, all_below-at,
}
use scrape_kdl.Kdl.Literal.{digit_value}

push_nil : (o : Option Bytes) → push [] o ≡ o
push_nil none = refl
push_nil (some s) = refl

push-append : (xs ys : Bytes) (o : Option Bytes) → push xs (push ys o) ≡ push (xs ++ ys) o
push-append xs ys none = refl
push-append xs ys (some s) = ap some (sym (append_assoc xs ys s))

read-plain :
    (c : ℕ) (s : Bytes)
    → (c == b'"' || c == b'\\' || ltb c 0x20) ≡ false
    → read_string among_characters (c ∷ s) ≡ push (c ∷ []) (read_string among_characters s)
unfolding read_string
read-plain c s h =
    let no_quote : (c == b'"') ≡ false = ground (arith, h) in
    let no_escape : (c == b'\\') ≡ false = ground (arith, h) in
    let no_control : ltb c 0x20 ≡ false = ground (arith, h) in
    rw (no_quote, no_escape, no_control) refl

read-high :
    (bs rest : Bytes)
    → all (λ b. leb 0x80 b) bs ≡ true
    → read_string among_characters (bs ++ rest) ≡ push bs (read_string among_characters rest)
read-high [] rest h = sym (push_nil (read_string among_characters rest))
read-high (b ∷ bs) rest h =
    read-plain b (bs ++ rest) (ground (arith, h))
    ∙ ap (push (b ∷ [])) (read-high bs rest (ground (arith, h)))
    ∙ push-append (b ∷ []) bs (read_string among_characters rest)

read-digit :
    (left value c d : ℕ) (s : Bytes)
    → digit_value c ≡ d
    → d < 16
    → read_string (digits (suc left) value) (c ∷ s) ≡ read_string (digits left (value * 16 + d)) s
unfolding read_string
read-digit left value c d s e h =
    let fits : ltb d 16 ≡ true = ground (arith, h) in rw (e, fits) refl

read-last_digit :
    (value c d : ℕ) (s : Bytes)
    → digit_value c ≡ d
    → d < 16
    → read_string (digits zero value) (c ∷ s)
      ≡ push (encode_rune (value * 16 + d)) (read_string among_characters s)
unfolding read_string
read-last_digit value c d s e h =
    let fits : ltb d 16 ≡ true = ground (arith, h) in rw (e, fits) refl

digit_value-lower_hexadecimal : (n : ℕ) → n < 16 → digit_value (lower_hexadecimal n) ≡ n
unfolding digit_value lower_hexadecimal
digit_value-lower_hexadecimal n lt =
    let t : (digit_value (lower_hexadecimal n) == n) ≡ true =
      all_below-at (λ k. digit_value (lower_hexadecimal k) == k) 16 n refl lt in
    ground (arith, t)

-- Behind a backslash, a `u` and four digits, the first two of which are zeros.
read-code :
    (s : Bytes) → read_string among_characters (b'\\' ∷ b'u' ∷ s) ≡ read_string (digits 3 0) s
unfolding read_string
read-code s = refl

read-control :
    (r : ℕ) (rest : Bytes)
    → r < 32
    → read_string among_characters (control_escape r ++ rest)
      ≡ push (encode_rune r) (read_string among_characters rest)
read-control r rest h =
    let high : r / 16 < 16 = omega arith in
    let low : r % 16 < 16 = omega arith in
    let behind : Bytes = lower_hexadecimal (r / 16) ∷ lower_hexadecimal (r % 16) ∷ rest in
    let whole : (((0 * 16 + 0) * 16 + 0) * 16 + r / 16) * 16 + r % 16 ≡ r = omega arith in
    read-code (b'0' ∷ b'0' ∷ behind)
    ∙ read-digit 2 0 b'0' 0 (b'0' ∷ behind) zero_digit (omega arith)
    ∙ read-digit 1 (0 * 16 + 0) b'0' 0 behind zero_digit (omega arith)
    ∙ read-digit 0 ((0 * 16 + 0) * 16 + 0) (lower_hexadecimal (r / 16)) (r / 16) _
        (digit_value-lower_hexadecimal (r / 16) high) high
    ∙ read-last_digit (((0 * 16 + 0) * 16 + 0) * 16 + r / 16) (lower_hexadecimal (r % 16)) (r % 16)
        rest (digit_value-lower_hexadecimal (r % 16) low) low
    ∙ rw whole refl
  where
    zero_digit : digit_value b'0' ≡ 0
    zero_digit = unfold digit_value in refl

read-visible :
    (r : ℕ) (rest : Bytes)
    → (r == b'"' || r == b'\\' || ltb r 0x20) ≡ false
    → read_string among_characters (encode_rune r ++ rest)
      ≡ push (encode_rune r) (read_string among_characters rest)
read-visible r rest h = elim (Bool-cases (ltb r 0x80)) [
  | inl low ↦ rw (encode_rune-ascii r low) (read-plain r rest h)
  | inr high ↦ read-high (encode_rune r) rest (all_above r high)
]

read-character :
    (r : ℕ) (rest : Bytes)
    → read_string among_characters (append_character r ++ rest)
      ≡ push (encode_rune r) (read_string among_characters rest)
unfolding append_character read_string encode_rune
read-character r rest =
    let P = λ (x : Bytes).
      read_string among_characters (x ++ rest)
      ≡ push (encode_rune r) (read_string among_characters rest) in
    if_rule P (r == b'"' || r == b'\\')
      (λ h. elim (Bool-cases (r == b'"')) [
        | inl e ↦ let at_sign : r ≡ b'"' = ground (arith, e) in rw at_sign refl
        | inr e ↦ let at_sign : r ≡ b'\\' = ground (arith, h, e) in rw at_sign refl
      ])
      λ unmarked.
        if_rule P (r == 8) (λ e. let at_sign : r ≡ 8 = ground (arith, e) in rw at_sign refl)
          λ _.
            if_rule P (r == 12) (λ e. let at_sign : r ≡ 12 = ground (arith, e) in rw at_sign refl)
              λ _.
                if_rule P (r == b'\n')
                  (λ e. let at_sign : r ≡ b'\n' = ground (arith, e) in rw at_sign refl)
                  λ _.
                    if_rule P (r == b'\r')
                      (λ e. let at_sign : r ≡ b'\r' = ground (arith, e) in rw at_sign refl)
                      λ _.
                        if_rule P (r == b'\t')
                          (λ e. let at_sign : r ≡ b'\t' = ground (arith, e) in rw at_sign refl)
                          λ _.
                            if_rule P (ltb r 0x20) (λ e. read-control r rest (ground (arith, e)))
                              λ visible. read-visible r rest (ground (arith, unmarked, visible))

read-characters :
    (f : ℕ) (s rest : Bytes)
    → length s ≤ f
    → valid_fuel f s ≡ true
    → read_string among_characters (append_characters (runes_fuel f s) ++ rest)
      ≡ push s (read_string among_characters rest)
unfolding append_characters runes_fuel valid_fuel
read-characters zero [] rest h v = sym (push_nil (read_string among_characters rest))
read-characters zero (b ∷ s) rest h v = absurd (omega arith)
read-characters (suc f) [] rest h v = sym (push_nil (read_string among_characters rest))
read-characters (suc f) (b ∷ s) rest h v =
    let r = (decode_rune (b ∷ s)).0 in
    let size = (decode_rune (b ∷ s)).1 in
    let left = drop size (b ∷ s) in
    let real : (r == 0xFFFD && size == 1) ≡ false = ground (arith, v) in
    let shorter : length left ≤ f =
      omega (arith, length-drop size (b ∷ s), decode_rune_width b s) in
    let X = read_string among_characters rest in
    ap (read_string among_characters)
      (append_assoc (append_character r) (append_characters (runes_fuel f left)) rest)
    ∙ read-character r (append_characters (runes_fuel f left) ++ rest)
    ∙ ap (push (encode_rune r)) (read-characters f left rest shorter (ground (arith, v)))
    ∙ push-append (encode_rune r) left X
    ∙ ap (λ t. push t X)
        (ap (λ t. t ++ left) (decode_rune-Encodes b s real) ∙ take-append-drop size (b ∷ s))

-- What `appendString` owes: a string of JSON for the text, or an error where it is not UTF-8.
abbrev pub IsStringOf : Bytes → Outcome Bytes Bytes → Type 0
IsStringOf s (ok t) = (valid s ≡ true) × (read_text t ≡ some s)
IsStringOf s (err e) = valid s ≡ false

read-closed : (s : Bytes) → push s (read_string among_characters (b'"' ∷ [])) ≡ some s
unfolding read_string
read-closed s = ap some (append-nil s)

read_text-quoted :
    (s : Bytes)
    → valid s ≡ true
    → read_text (b'"' ∷ append_characters (runes s) ++ b'"' ∷ []) ≡ some s
unfolding read_text runes valid
read_text-quoted s h = read-characters (length s) s (b'"' ∷ []) (omega arith) h ∙ read-closed s

-- For every text in UTF-8 appendString appends a string of JSON that stands for it: reading that as
-- RFC 8259 says, where a quotation mark, a backslash and the control characters must be escaped and
-- nothing follows the closing quotation mark, gives the text back byte for byte. For any other
-- text it ends with an error.
pub append_string-IsStringOf : (s : Bytes) → IsStringOf s (append_string s)
unfolding append_string
append_string-IsStringOf s = elim (Bool-cases (valid s)) [
  | inl h ↦ rw h (h, read_text-quoted s h)
  | inr h ↦ rw h h
]
