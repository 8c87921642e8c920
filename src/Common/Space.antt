-- ===== src/Common/Space.antt =====
-- Unicode white space as Go reads it: `unicode.IsSpace` and `strings.TrimSpace`.
use Prim.Native.Nat.{ℕ, zero, suc, ◌+◌, ◌≤◌}
use mathlib.Core.Path.{◌≡◌, refl, ap, ◌∙◌}
use mathlib.Core.Bool.{Bool, true, not, ◌&&◌, ◌||◌}
use mathlib.Core.List.{List, [], ◌∷◌, ◌++◌, reverse, reverse-reverse, reverse-cons, map}
use native.Mathlib.Omega.{arith}
use scrape_kdl.Common.Tests.{leb, ◌==◌, if◌then◌else◌, if_both}
use scrape_kdl.Common.Lists.{
  length, take, drop, all, all-reverse, length-append, length-take, length-drop,
}
use scrape_kdl.Common.Text.{Bytes}
use scrape_kdl.Common.Utf8.{decode_rune, decode_rune-ascii}

-- `unicode.IsSpace`.
unfoldable pub is_space : ℕ → Bool
is_space r =
    leb 9 r && leb r 13
    || r == 32
    || r == 0x85
    || r == 0xA0
    || r == 0x1680
    || leb 0x2000 r && leb r 0x200A
    || r == 0x2028
    || r == 0x2029
    || r == 0x202F
    || r == 0x205F
    || r == 0x3000

-- A rune with the bytes that it was decoded from.
abbrev pub Rune : Type 0
Rune = ℕ × Bytes

unfoldable pub runes_fuel : ℕ → Bytes → List Rune
runes_fuel zero s = []
runes_fuel (suc f) [] = []
runes_fuel (suc f) (b ∷ s) =
    let (r, size) = decode_rune (b ∷ s) in (r, take size (b ∷ s)) ∷ runes_fuel f (drop size (b ∷ s))

-- The runes of a text in order; a rune has at least one byte, so the length is enough fuel.
unfoldable pub runes : Bytes → List Rune
unfolding runes_fuel decode_rune
runes s = runes_fuel (length s) s

unfoldable pub bytes_of : List Rune → Bytes
bytes_of [] = []
bytes_of ((r, bs) ∷ rs) = bs ++ bytes_of rs

drop_spaces : List Rune → List Rune
drop_spaces [] = []
drop_spaces ((r, bs) ∷ rs) = let rest = drop_spaces rs in if is_space r then rest else (r, bs) ∷ rs

-- `strings.TrimSpace`.
unfoldable pub trim_space : Bytes → Bytes
unfolding runes bytes_of drop_spaces is_space
trim_space s = bytes_of (reverse (drop_spaces (reverse (drop_spaces (runes s)))))

-- Texts of visible ASCII characters are left alone.
abbrev pub is_visible : ℕ → Bool
is_visible b = leb 33 b && leb b 126

abbrev ascii_rune : ℕ → Rune
ascii_rune b = (b, b ∷ [])

abbrev is_text_rune : Rune → Bool
is_text_rune (r, bs) = not (is_space r)

decode_rune-visible : (b : ℕ) (s : Bytes) → is_visible b ≡ true → decode_rune (b ∷ s) ≡ (b, 1)
decode_rune-visible b s h = decode_rune-ascii b s (ground arith)

runes_fuel-visible :
    (s : Bytes) → all is_visible s ≡ true → runes_fuel (length s) s ≡ map ascii_rune s
unfolding runes_fuel
runes_fuel-visible [] h = refl
runes_fuel-visible (b ∷ s) h =
    let seen : is_visible b ≡ true = ground arith in
    rw (decode_rune-visible b s seen) (rw (runes_fuel-visible s (ground arith)) refl)

all-text_rune : (s : Bytes) → all is_visible s ≡ true → all is_text_rune (map ascii_rune s) ≡ true
unfolding is_space
all-text_rune [] h = refl
all-text_rune (b ∷ s) h = ground (arith, all-text_rune s)

drop_spaces-text : (rs : List Rune) → all is_text_rune rs ≡ true → drop_spaces rs ≡ rs
unfolding drop_spaces
drop_spaces-text [] h = refl
drop_spaces-text ((r, bs) ∷ rs) h = ground arith

bytes_of-ascii : (s : Bytes) → bytes_of (map ascii_rune s) ≡ s
unfolding bytes_of
bytes_of-ascii [] = refl
bytes_of-ascii (b ∷ s) = ap (◌∷◌ b) (bytes_of-ascii s)

-- `TrimSpace` returns a text of visible characters as it is.
pub trim_space-visible : (s : Bytes) → all is_visible s ≡ true → trim_space s ≡ s
unfolding trim_space
trim_space-visible s h =
    let text = all-text_rune s h in
    let plain = map ascii_rune s in
    ap (λ rs. bytes_of (reverse (drop_spaces (reverse (drop_spaces rs))))) (runes_fuel-visible s h)
    ∙ ap (λ rs. bytes_of (reverse (drop_spaces (reverse rs)))) (drop_spaces-text plain text)
    ∙ ap (λ rs. bytes_of (reverse rs))
        (drop_spaces-text (reverse plain) (all-reverse is_text_rune plain text))
    ∙ ap bytes_of (reverse-reverse plain)
    ∙ bytes_of-ascii s

-- `TrimSpace` adds nothing.
length-bytes_of_append :
    (before behind : List Rune)
    → length (bytes_of (before ++ behind)) ≡ length (bytes_of before) + length (bytes_of behind)
unfolding bytes_of
length-bytes_of_append [] behind = omega arith
length-bytes_of_append ((r, bs) ∷ rs) behind = omega (
  arith,
  length-append bs (bytes_of (rs ++ behind)),
  length-append bs (bytes_of rs),
  length-bytes_of_append rs behind,
)

length-bytes_of-reverse : (rs : List Rune) → length (bytes_of (reverse rs)) ≡ length (bytes_of rs)
unfolding bytes_of
length-bytes_of-reverse [] = refl
length-bytes_of-reverse ((r, bs) ∷ rs) = rw (reverse-cons) (
    omega (
      arith,
      length-bytes_of_append (reverse rs) ((r, bs) ∷ []),
      length-append bs (bytes_of rs),
      length-append bs [],
      length-bytes_of-reverse rs,
    ))

length-drop_spaces : (rs : List Rune) → length (bytes_of (drop_spaces rs)) ≤ length (bytes_of rs)
unfolding bytes_of drop_spaces
length-drop_spaces [] = omega arith
length-drop_spaces ((r, bs) ∷ rs) =
    if_both (λ kept. length (bytes_of kept) ≤ length (bs ++ bytes_of rs)) (is_space r)
      (omega (arith, length-append bs (bytes_of rs), length-drop_spaces rs)) (omega arith)

length-runes_fuel : (f : ℕ) (s : Bytes) → length (bytes_of (runes_fuel f s)) ≤ length s
unfolding bytes_of runes_fuel
length-runes_fuel zero s = omega arith
length-runes_fuel (suc f) [] = omega arith
length-runes_fuel (suc f) (b ∷ s) =
    let size = (decode_rune (b ∷ s)).1 in
    let behind = runes_fuel f (drop size (b ∷ s)) in
    omega (
      arith,
      length-append (take size (b ∷ s)) (bytes_of behind),
      length-take size (b ∷ s),
      length-drop size (b ∷ s),
      length-runes_fuel f (drop size (b ∷ s)),
    )

pub length-trim_space : (s : Bytes) → length (trim_space s) ≤ length s
unfolding trim_space runes
length-trim_space s =
    let first = drop_spaces (runes_fuel (length s) s) in
    omega (
      arith,
      length-bytes_of-reverse (drop_spaces (reverse first)),
      length-drop_spaces (reverse first),
      length-bytes_of-reverse first,
      length-drop_spaces (runes_fuel (length s) s),
      length-runes_fuel (length s) s,
    )
