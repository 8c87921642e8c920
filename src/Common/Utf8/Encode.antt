-- ===== src/Common/Utf8/Encode.antt =====
-- Encoding a rune that was decoded gives its bytes back.
use Prim.Native.Nat.{ℕ, ◌+◌, ◌-◌, ◌*◌, ◌/◌, ◌%◌}
use mathlib.Core.Path.{◌≡◌, refl}
use mathlib.Core.Bool.{true, false, ◌&&◌, ◌||◌}
use mathlib.Core.List.{[], ◌∷◌}
use native.Mathlib.Omega.{arith}
use mathlib.Core.Logic.{inl, inr}
use scrape_kdl.Common.Tests.{Bool-cases, ltb, leb, ◌==◌}
use scrape_kdl.Common.Lists.{all, take}
use scrape_kdl.Common.Text.{Bytes}
use scrape_kdl.Common.Utf8.{
  within, bad_rune, decode2, decode3, decode4, follows3, follows4, decode_rune, valid_rune,
  encode_rune,
}

-- A rune and the bytes that it was decoded from; an invalid byte is read as U+FFFD.
abbrev pub Encodes : ℕ × ℕ → Bytes → Type 0
Encodes (r, size) s = (r == 0xFFFD && size == 1) ≡ false → encode_rune r ≡ take size s

encode2 :
    (b0 b1 : ℕ)
    → within 0xC2 0xDF b0 ≡ true
    → within 0x80 0xBF b1 ≡ true
    → encode_rune ((b0 - 0xC0) * 64 + (b1 - 0x80)) ≡ b0 ∷ b1 ∷ []
unfolding encode_rune valid_rune
encode2 b0 b1 h k =
    let r = (b0 - 0xC0) * 64 + (b1 - 0x80) in
    let real : (ltb r 0xD800 || leb 0xE000 r && leb r 0x10FFFF) ≡ true = ground (arith, h, k) in
    let high : ltb r 0x80 ≡ false = ground (arith, h, k) in
    let low : ltb r 0x800 ≡ true = ground (arith, h, k) in
    let first : 0xC0 + r / 64 ≡ b0 = ground (arith, h, k) in
    let second : 0x80 + r % 64 ≡ b1 = ground (arith, h, k) in
    rw (real, high, low, first, second) refl

encode3 :
    (b0 b1 b2 : ℕ)
    → within 0xE0 0xEF b0 ≡ true
    → follows3 b0 b1 b2 ≡ true
    → encode_rune ((b0 - 0xE0) * 4096 + (b1 - 0x80) * 64 + (b2 - 0x80)) ≡ b0 ∷ b1 ∷ b2 ∷ []
unfolding encode_rune valid_rune follows3
encode3 b0 b1 b2 h k =
    let r = (b0 - 0xE0) * 4096 + (b1 - 0x80) * 64 + (b2 - 0x80) in
    let real : (ltb r 0xD800 || leb 0xE000 r && leb r 0x10FFFF) ≡ true = ground (arith, h, k) in
    let high : ltb r 0x80 ≡ false = ground (arith, h, k) in
    let over : ltb r 0x800 ≡ false = ground (arith, h, k) in
    let low : ltb r 0x10000 ≡ true = ground (arith, h, k) in
    let first : 0xE0 + r / 4096 ≡ b0 = ground (arith, h, k) in
    let second : 0x80 + r / 64 % 64 ≡ b1 = ground (arith, h, k) in
    let third : 0x80 + r % 64 ≡ b2 = ground (arith, h, k) in
    rw (real, high, over, low, first, second, third) refl

encode4 :
    (b0 b1 b2 b3 : ℕ)
    → within 0xF0 0xF4 b0 ≡ true
    → follows4 b0 b1 b2 b3 ≡ true
    → encode_rune ((b0 - 0xF0) * 262144 + (b1 - 0x80) * 4096 + (b2 - 0x80) * 64 + (b3 - 0x80))
      ≡ b0 ∷ b1 ∷ b2 ∷ b3 ∷ []
unfolding encode_rune valid_rune follows4
encode4 b0 b1 b2 b3 h k =
    let r = (b0 - 0xF0) * 262144 + (b1 - 0x80) * 4096 + (b2 - 0x80) * 64 + (b3 - 0x80) in
    let real : (ltb r 0xD800 || leb 0xE000 r && leb r 0x10FFFF) ≡ true = ground (arith, h, k) in
    let high : ltb r 0x80 ≡ false = ground (arith, h, k) in
    let over : ltb r 0x800 ≡ false = ground (arith, h, k) in
    let above : ltb r 0x10000 ≡ false = ground (arith, h, k) in
    let first : 0xF0 + r / 262144 ≡ b0 = ground (arith, h, k) in
    let second : 0x80 + r / 4096 % 64 ≡ b1 = ground (arith, h, k) in
    let third : 0x80 + r / 64 % 64 ≡ b2 = ground (arith, h, k) in
    let fourth : 0x80 + r % 64 ≡ b3 = ground (arith, h, k) in
    rw (real, high, over, above, first, second, third, fourth) refl

bad-Encodes : (s : Bytes) → Encodes bad_rune s
bad-Encodes s h = absurd cc

decode2-Encodes :
    (b0 : ℕ) (s : Bytes) → within 0xC2 0xDF b0 ≡ true → Encodes (decode2 b0 s) (b0 ∷ s)
unfolding decode2
decode2-Encodes b0 [] h = bad-Encodes (b0 ∷ [])
decode2-Encodes b0 (b1 ∷ s) h = elim (Bool-cases (within 0x80 0xBF b1)) [
  | inl k ↦ rw k (λ _. encode2 b0 b1 h k)
  | inr k ↦ rw k (bad-Encodes (b0 ∷ b1 ∷ s))
]

decode3-Encodes :
    (b0 : ℕ) (s : Bytes) → within 0xE0 0xEF b0 ≡ true → Encodes (decode3 b0 s) (b0 ∷ s)
unfolding decode3
decode3-Encodes b0 [] h = bad-Encodes (b0 ∷ [])
decode3-Encodes b0 (b1 ∷ []) h = bad-Encodes (b0 ∷ b1 ∷ [])
decode3-Encodes b0 (b1 ∷ b2 ∷ s) h = elim (Bool-cases (follows3 b0 b1 b2)) [
  | inl k ↦ rw k (λ _. encode3 b0 b1 b2 h k)
  | inr k ↦ rw k (bad-Encodes (b0 ∷ b1 ∷ b2 ∷ s))
]

decode4-Encodes :
    (b0 : ℕ) (s : Bytes) → within 0xF0 0xF4 b0 ≡ true → Encodes (decode4 b0 s) (b0 ∷ s)
unfolding decode4
decode4-Encodes b0 [] h = bad-Encodes (b0 ∷ [])
decode4-Encodes b0 (b1 ∷ []) h = bad-Encodes (b0 ∷ b1 ∷ [])
decode4-Encodes b0 (b1 ∷ b2 ∷ []) h = bad-Encodes (b0 ∷ b1 ∷ b2 ∷ [])
decode4-Encodes b0 (b1 ∷ b2 ∷ b3 ∷ s) h = elim (Bool-cases (follows4 b0 b1 b2 b3)) [
  | inl k ↦ rw k (λ _. encode4 b0 b1 b2 b3 h k)
  | inr k ↦ rw k (bad-Encodes (b0 ∷ b1 ∷ b2 ∷ b3 ∷ s))
]

pub encode_rune-ascii : (b : ℕ) → ltb b 0x80 ≡ true → encode_rune b ≡ b ∷ []
unfolding encode_rune valid_rune
encode_rune-ascii b h =
    let real : (ltb b 0xD800 || leb 0xE000 b && leb b 0x10FFFF) ≡ true = ground (arith, h) in
    rw (real, h) refl

pub decode_rune-Encodes : (b : ℕ) (s : Bytes) → Encodes (decode_rune (b ∷ s)) (b ∷ s)
unfolding decode_rune
decode_rune-Encodes b s = elim (Bool-cases (ltb b 0x80)) [
  | inl low ↦ rw low (λ _. encode_rune-ascii b low)
  | inr high ↦ elim (Bool-cases (within 0xC2 0xDF b)) [
    | inl two ↦ rw (high, two) (decode2-Encodes b s two)
    | inr not_two ↦ elim (Bool-cases (within 0xE0 0xEF b)) [
      | inl three ↦ rw (high, not_two, three) (decode3-Encodes b s three)
      | inr not_three ↦ elim (Bool-cases (within 0xF0 0xF4 b)) [
        | inl four ↦ rw (high, not_two, not_three, four) (decode4-Encodes b s four)
        | inr none ↦ rw (high, not_two, not_three, none) (bad-Encodes (b ∷ s))
      ]
    ]
  ]
]

-- The bytes of a rune above ASCII.
pub all_above : (r : ℕ) → ltb r 0x80 ≡ false → all (λ b. leb 0x80 b) (encode_rune r) ≡ true
unfolding encode_rune
all_above r h = ground (arith, h)
