-- ===== src/Common/Utf8.antt =====
-- The package `unicode/utf8` as the program uses it: decoding a rune, validity, encoding a rune.
pub mod Encode
use Prim.Native.Nat.{ℕ, zero, suc, ◌+◌, ◌-◌, ◌*◌, ◌/◌, ◌%◌, ◌≤◌}
use mathlib.Core.Path.{◌≡◌, refl}
use mathlib.Core.Bool.{Bool, true, false, not, ◌&&◌, ◌||◌}
use mathlib.Core.List.{[], ◌∷◌}
use native.Mathlib.Omega.{arith}
use mathlib.Core.Logic.{inl, inr}
use scrape_kdl.Common.Tests.{Bool-cases, ltb, leb, ◌==◌, if◌then◌else◌}
use scrape_kdl.Common.Lists.{length, drop, take, count}
use scrape_kdl.Common.Text.{Bytes}

abbrev within : ℕ → ℕ → ℕ → Bool
within lo hi c = leb lo c && leb c hi

-- `utf8.RuneError` with the width of an invalid byte.
abbrev bad_rune : ℕ × ℕ
bad_rune = (0xFFFD, 1)

unfoldable pub decode2 : ℕ → Bytes → ℕ × ℕ
decode2 b0 (b1 ∷ _) = if within 0x80 0xBF b1 then ((b0 - 0xC0) * 64 + (b1 - 0x80), 2) else bad_rune
decode2 b0 _ = bad_rune

-- Whether the bytes behind `b0` continue a sequence of three, or four, bytes.
follows3 : ℕ → ℕ → ℕ → Bool
follows3 b0 b1 b2 =
    within (if b0 == 0xE0 then 0xA0 else 0x80) (if b0 == 0xED then 0x9F else 0xBF) b1
    && within 0x80 0xBF b2

follows4 : ℕ → ℕ → ℕ → ℕ → Bool
follows4 b0 b1 b2 b3 =
    within (if b0 == 0xF0 then 0x90 else 0x80) (if b0 == 0xF4 then 0x8F else 0xBF) b1
    && within 0x80 0xBF b2
    && within 0x80 0xBF b3

unfoldable pub decode3 : ℕ → Bytes → ℕ × ℕ
unfolding follows3
decode3 b0 (b1 ∷ b2 ∷ _) =
    if follows3 b0 b1 b2 then ((b0 - 0xE0) * 4096 + (b1 - 0x80) * 64 + (b2 - 0x80), 3) else bad_rune
decode3 b0 _ = bad_rune

unfoldable pub decode4 : ℕ → Bytes → ℕ × ℕ
unfolding follows4
decode4 b0 (b1 ∷ b2 ∷ b3 ∷ _) =
    if follows4 b0 b1 b2 b3
    then ((b0 - 0xF0) * 262144 + (b1 - 0x80) * 4096 + (b2 - 0x80) * 64 + (b3 - 0x80), 4)
    else bad_rune
decode4 b0 _ = bad_rune

-- `utf8.DecodeRuneInString`: the rune and its width in bytes.
unfoldable pub decode_rune : Bytes → ℕ × ℕ
decode_rune [] = (0xFFFD, 0)
decode_rune (b0 ∷ s) =
    if ltb b0 0x80
    then (b0, 1)
    else if within 0xC2 0xDF b0
    then decode2 b0 s
    else if within 0xE0 0xEF b0
    then decode3 b0 s
    else if within 0xF0 0xF4 b0
    then decode4 b0 s
    else bad_rune

decode2_width : (b0 : ℕ) (s : Bytes) → (1 ≤ (decode2 b0 s).1) × ((decode2 b0 s).1 ≤ suc (length s))
unfolding decode2
decode2_width b0 [] = ground arith
decode2_width b0 (b1 ∷ s) = ground arith

decode3_width : (b0 : ℕ) (s : Bytes) → (1 ≤ (decode3 b0 s).1) × ((decode3 b0 s).1 ≤ suc (length s))
unfolding decode3
decode3_width b0 [] = ground arith
decode3_width b0 (b1 ∷ []) = ground arith
decode3_width b0 (b1 ∷ b2 ∷ s) = ground arith

decode4_width : (b0 : ℕ) (s : Bytes) → (1 ≤ (decode4 b0 s).1) × ((decode4 b0 s).1 ≤ suc (length s))
unfolding decode4
decode4_width b0 [] = ground arith
decode4_width b0 (b1 ∷ []) = ground arith
decode4_width b0 (b1 ∷ b2 ∷ []) = ground arith
decode4_width b0 (b1 ∷ b2 ∷ b3 ∷ s) = ground arith

-- A rune takes at least one byte, and no more than there are.
pub decode_rune_width :
    (b0 : ℕ) (s : Bytes)
    → (1 ≤ (decode_rune (b0 ∷ s)).1) × ((decode_rune (b0 ∷ s)).1 ≤ suc (length s))
unfolding decode_rune
decode_rune_width b0 s = ground (arith, decode2_width b0 s, decode3_width b0 s, decode4_width b0 s)

pub decode_rune-ascii : (b : ℕ) (s : Bytes) → ltb b 0x80 ≡ true → decode_rune (b ∷ s) ≡ (b, 1)
unfolding decode_rune
decode_rune-ascii b s h = rw h

unfoldable pub valid_fuel : ℕ → Bytes → Bool
valid_fuel zero s = true
valid_fuel (suc f) [] = true
valid_fuel (suc f) (b ∷ s) =
    let (r, size) = decode_rune (b ∷ s) in
    let rest = valid_fuel f (drop size (b ∷ s)) in if r == 0xFFFD && size == 1 then false else rest

-- `utf8.Valid`: no byte decodes to the error rune of width 1.
unfoldable pub valid : Bytes → Bool
unfolding valid_fuel decode_rune
valid s = valid_fuel (length s) s

-- `utf8.ValidRune`.
unfoldable pub valid_rune : ℕ → Bool
valid_rune r = ltb r 0xD800 || leb 0xE000 r && leb r 0x10FFFF

-- `utf8.AppendRune` on a valid rune; an invalid one is written as U+FFFD.
unfoldable pub encode_rune : ℕ → Bytes
unfolding valid_rune
encode_rune r =
    if not (valid_rune r)
    then 0xEF ∷ 0xBF ∷ 0xBD ∷ []
    else if ltb r 0x80
    then r ∷ []
    else if ltb r 0x800
    then (0xC0 + r / 64) ∷ (0x80 + r % 64) ∷ []
    else if ltb r 0x10000
    then (0xE0 + r / 4096) ∷ (0x80 + r / 64 % 64) ∷ (0x80 + r % 64) ∷ []
    else (0xF0 + r / 262144) ∷ (0x80 + r / 4096 % 64) ∷ (0x80 + r / 64 % 64) ∷ (0x80 + r % 64) ∷ []

-- A rune is the line feed exactly if its bytes hold one, which is then all of it.
abbrev NewlinesOf : ℕ × ℕ → Bytes → Type 0
NewlinesOf (r, size) s = count b'\n' (take size s) ≡ (if r == b'\n' then 1 else 0)

decode2_newlines :
    (b0 : ℕ) (s : Bytes) → within 0xC2 0xDF b0 ≡ true → NewlinesOf (decode2 b0 s) (b0 ∷ s)
unfolding decode2
decode2_newlines b0 [] h = ground arith
decode2_newlines b0 (b1 ∷ s) h = ground arith

follows3_bound :
    (b0 b1 b2 : ℕ)
    → within 0xE0 0xEF b0 ≡ true
    → follows3 b0 b1 b2 ≡ true
    → (0x80 ≤ b1) × (0x80 ≤ b2) × (0x800 ≤ (b0 - 0xE0) * 4096 + (b1 - 0x80) * 64 + (b2 - 0x80))
unfolding follows3
follows3_bound b0 b1 b2 h k = ground arith

follows4_bound :
    (b0 b1 b2 b3 : ℕ)
    → within 0xF0 0xF4 b0 ≡ true
    → follows4 b0 b1 b2 b3 ≡ true
    → (0x80 ≤ b1)
      × (0x80 ≤ b2)
      × (0x80 ≤ b3)
      × (0x10000 ≤ (b0 - 0xF0) * 262144 + (b1 - 0x80) * 4096 + (b2 - 0x80) * 64 + (b3 - 0x80))
unfolding follows4
follows4_bound b0 b1 b2 b3 h k = ground arith

decode3_newlines :
    (b0 : ℕ) (s : Bytes) → within 0xE0 0xEF b0 ≡ true → NewlinesOf (decode3 b0 s) (b0 ∷ s)
unfolding decode3
decode3_newlines b0 [] h = ground arith
decode3_newlines b0 (b1 ∷ []) h = ground arith
decode3_newlines b0 (b1 ∷ b2 ∷ s) h = ground (arith, follows3_bound b0 b1 b2)

decode4_newlines :
    (b0 : ℕ) (s : Bytes) → within 0xF0 0xF4 b0 ≡ true → NewlinesOf (decode4 b0 s) (b0 ∷ s)
unfolding decode4
decode4_newlines b0 [] h = ground arith
decode4_newlines b0 (b1 ∷ []) h = ground arith
decode4_newlines b0 (b1 ∷ b2 ∷ []) h = ground arith
decode4_newlines b0 (b1 ∷ b2 ∷ b3 ∷ s) h = ground (arith, follows4_bound b0 b1 b2 b3)

decode_rune_high :
    (b : ℕ) (s : Bytes) → ltb b 0x80 ≡ false → NewlinesOf (decode_rune (b ∷ s)) (b ∷ s)
unfolding decode_rune
decode_rune_high b s h = elim (Bool-cases (within 0xC2 0xDF b)) [
  | inl two ↦ rw (h, two) (decode2_newlines b s two)
  | inr not_two ↦ elim (Bool-cases (within 0xE0 0xEF b)) [
    | inl three ↦ rw (h, not_two, three) (decode3_newlines b s three)
    | inr not_three ↦ elim (Bool-cases (within 0xF0 0xF4 b)) [
      | inl four ↦ rw (h, not_two, not_three, four) (decode4_newlines b s four)
      | inr none ↦ rw (h, not_two, not_three, none) (ground arith)
    ]
  ]
]

-- The bytes of a rune hold a line feed exactly if the rune is one.
pub decode_rune_newlines : (b : ℕ) (s : Bytes) → NewlinesOf (decode_rune (b ∷ s)) (b ∷ s)
decode_rune_newlines b s = elim (Bool-cases (ltb b 0x80)) [
  | inl ascii ↦ rw (decode_rune-ascii b s ascii) (ground arith)
  | inr high ↦ decode_rune_high b s high
]

decode2_above : (b0 : ℕ) (s : Bytes) → within 0xC2 0xDF b0 ≡ true → leb 0x80 (decode2 b0 s).0 ≡ true
unfolding decode2
decode2_above b0 [] h = refl
decode2_above b0 (b1 ∷ s) h = ground arith

decode3_above : (b0 : ℕ) (s : Bytes) → within 0xE0 0xEF b0 ≡ true → leb 0x80 (decode3 b0 s).0 ≡ true
unfolding decode3
decode3_above b0 [] h = refl
decode3_above b0 (b1 ∷ []) h = refl
decode3_above b0 (b1 ∷ b2 ∷ s) h = ground (arith, follows3_bound b0 b1 b2)

decode4_above : (b0 : ℕ) (s : Bytes) → within 0xF0 0xF4 b0 ≡ true → leb 0x80 (decode4 b0 s).0 ≡ true
unfolding decode4
decode4_above b0 [] h = refl
decode4_above b0 (b1 ∷ []) h = refl
decode4_above b0 (b1 ∷ b2 ∷ []) h = refl
decode4_above b0 (b1 ∷ b2 ∷ b3 ∷ s) h = ground (arith, follows4_bound b0 b1 b2 b3)

-- A rune whose first byte is above ASCII is above it too.
pub decode_rune_above :
    (b : ℕ) (s : Bytes) → ltb b 0x80 ≡ false → leb 0x80 (decode_rune (b ∷ s)).0 ≡ true
unfolding decode_rune
decode_rune_above b s h = ground (arith, decode2_above b s, decode3_above b s, decode4_above b s)
