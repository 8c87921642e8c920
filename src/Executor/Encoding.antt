-- ===== src/Executor/Encoding.antt =====
-- `percentEncode` against the decoding of percent-encoded text of RFC 3986.
use native.Mathlib.Nat.{mod-lt, mod-add-div}
use scrape_kdl.Common.Text.{Bytes, codes}
use scrape_kdl.Common.{
  ℕ, suc, ◌+◌, ◌*◌, ◌/◌, ◌%◌, ◌<◌, Bool, true, false, not, ◌&&◌, ◌||◌, [], ◌∷◌, ◌++◌, all, ltb,
  ◌==◌, if◌then◌else◌, Option, none, some, ◌≡◌, refl, ap, ◌∙◌, arith, Bool-cases, inl, inr, lt→ltb,
  all-append, all_below-at, any, length, length-append,
}
use scrape_kdl.Executor.Template.{is_unreserved, hexadecimal, encode_byte, percent_encode}
use scrape_kdl.Kdl.Literal.{digit_value}

-- A byte in front of decoded text.
abbrev push : ℕ → Option Bytes → Option Bytes
push b none = none
push b (some s) = some (b ∷ s)

-- The decoding: `%` and two hexadecimal digits are a byte, any other byte stands for itself, and
-- `%` with anything else behind it is an error.
unfoldable pub percent_decode : Bytes → Option Bytes
unfolding digit_value
percent_decode [] = some []
percent_decode (c ∷ []) = if c == b'%' then none else some (c ∷ [])
percent_decode (c ∷ d ∷ []) =
    let rest = percent_decode (d ∷ []) in if c == b'%' then none else push c rest
percent_decode (c ∷ d ∷ e ∷ s) =
    let behind = percent_decode s in
    let rest = percent_decode (d ∷ e ∷ s) in
    if not (c == b'%')
    then push c rest
    else if ltb (digit_value d) 16 && ltb (digit_value e) 16
    then push (digit_value d * 16 + digit_value e) behind
    else none

abbrev same_test : Bool → Bool → Bool
same_test p q = p && q || not p && not q

digit_value-hexadecimal : (n : ℕ) → n < 16 → digit_value (hexadecimal n) ≡ n
unfolding digit_value hexadecimal
digit_value-hexadecimal n lt =
    let t : (digit_value (hexadecimal n) == n) ≡ true =
      all_below-at (λ k. digit_value (hexadecimal k) == k) 16 n refl lt in
    ground (arith, t)

not-percent : (b : ℕ) → is_unreserved b ≡ true → (b == b'%') ≡ false
unfolding is_unreserved
not-percent b h = ground arith

decode-plain :
    (b : ℕ) (s : Bytes) → (b == b'%') ≡ false → percent_decode (b ∷ s) ≡ push b (percent_decode s)
unfolding percent_decode
decode-plain b [] h = rw h refl
decode-plain b (c ∷ []) h = rw h refl
decode-plain b (c ∷ d ∷ s) h = rw h refl

decode-encoded :
    (b : ℕ) (s : Bytes)
    → b < 256
    → percent_decode (b'%' ∷ hexadecimal (b / 16) ∷ hexadecimal (b % 16) ∷ s)
      ≡ push b (percent_decode s)
unfolding percent_decode
decode-encoded b s h =
    let high : b / 16 < 16 = omega (arith, mod-add-div b 16) in
    let low : b % 16 < 16 = mod-lt b (omega arith) in
    rw
      (
        digit_value-hexadecimal (b / 16) high,
        digit_value-hexadecimal (b % 16) low,
        lt→ltb (b / 16) 16 high,
        lt→ltb (b % 16) 16 low,
      )
      (ap (λ x. push x (percent_decode s)) (omega (arith, mod-add-div b 16)))

decode-encode_byte :
    (b : ℕ) (s : Bytes) → b < 256 → percent_decode (encode_byte b ++ s) ≡ push b (percent_decode s)
unfolding encode_byte
decode-encode_byte b s h = elim (Bool-cases (is_unreserved b)) [
  | inl plain ↦ rw plain (decode-plain b s (not-percent b plain))
  | inr other ↦ rw other (decode-encoded b s h)
]

-- Decoding the result of `percentEncode` gives the text back, for every text of bytes.
pub decode-percent_encode :
    (s : Bytes) → all (λ b. ltb b 256) s ≡ true → percent_decode (percent_encode s) ≡ some s
unfolding percent_encode
decode-percent_encode [] h = unfold percent_decode in refl
decode-percent_encode (b ∷ s) h =
    decode-encode_byte b (percent_encode s) (ground arith)
    ∙ rw (decode-percent_encode s (ground arith)) refl

-- The unreserved characters of RFC 3986, section 2.3, one by one.
abbrev pub unreserved : Bytes
unreserved = codes "ABCDEFGHIJKLMNOPQRSTUVWXYZabcdefghijklmnopqrstuvwxyz0123456789-._~"

abbrev pub is_listed : Bytes → ℕ → Bool
is_listed names c = any (λ d. d == c) names

-- How many bytes of a text are not unreserved.
unfoldable pub reserved_count : Bytes → ℕ
reserved_count [] = 0
reserved_count (b ∷ s) =
    let rest = reserved_count s in if is_listed unreserved b then rest else suc rest

is_unreserved-is_listed : (b : ℕ) → b < 256 → is_unreserved b ≡ is_listed unreserved b
unfolding is_unreserved
is_unreserved-is_listed b lt =
    both (is_unreserved b) (is_listed unreserved b)
      (all_below-at (λ k. same_test (is_unreserved k) (is_listed unreserved k)) 256 b refl lt)
  where
    both : (p q : Bool) → same_test p q ≡ true → p ≡ q
    both true true h = refl
    both true false h = cc
    both false true h = cc
    both false false h = refl

-- An unreserved character or a percent sign.
abbrev pub is_safe : ℕ → Bool
is_safe c = is_listed unreserved c || c == b'%'

hexadecimal-is_listed : (n : ℕ) → n < 16 → is_listed unreserved (hexadecimal n) ≡ true
unfolding hexadecimal
hexadecimal-is_listed n lt = all_below-at (λ k. is_listed unreserved (hexadecimal k)) 16 n refl lt

encode_byte-safe :
    (b : ℕ)
    → b < 256
    → (all is_safe (encode_byte b) ≡ true)
      × (length (encode_byte b) ≡ (if is_listed unreserved b then 1 else 3))
unfolding encode_byte
encode_byte-safe b h =
    let agree = is_unreserved-is_listed b h in
    elim (Bool-cases (is_listed unreserved b)) [
      | inl plain ↦ rw (agree, plain, plain) (refl, refl)
      | inr other ↦
          let high : b / 16 < 16 = omega (arith, mod-add-div b 16) in
          let low : b % 16 < 16 = mod-lt b (omega arith) in
          rw (agree, other, hexadecimal-is_listed (b / 16) high, hexadecimal-is_listed (b % 16) low)
            (refl, refl)
    ]

-- What `percentEncode` returns for a text of bytes consists of unreserved characters of RFC 3986 and
-- percent signs, and is longer than the text by two bytes for each byte that is not unreserved.
pub percent_encode-safe :
    (s : Bytes)
    → all (λ b. ltb b 256) s ≡ true
    → (all is_safe (percent_encode s) ≡ true)
      × (length (percent_encode s) ≡ length s + 2 * reserved_count s)
unfolding percent_encode reserved_count
percent_encode-safe [] h = (refl, refl)
percent_encode-safe (b ∷ s) h =
    let here = encode_byte-safe b (ground arith) in
    let rest = percent_encode-safe s (ground arith) in
    (
      rw (all-append is_safe (encode_byte b) (percent_encode s), here.0) rest.0,
      ground (arith, here.1, rest.1, length-append (encode_byte b) (percent_encode s)),
    )
