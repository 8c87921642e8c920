-- ===== src/Diagnostic/Order.antt =====
-- `Sorted`: the list in order, with the same diagnostics, in a stable way.
use mathlib.Core.List.{Perm}
use scrape_kdl.Common.Sort.{slice_stable}
use scrape_kdl.Common.Sort.Laws.{
  filter, IsStrictWeak, is_sorted, equivalent, slice_stable-perm, slice_stable-is_sorted,
  slice_stable-filter,
}
use scrape_kdl.Common.Text.{
  Bytes, equal, less, equal_iff, equal_refl, less-asym, less-le_trans, less-total,
}
use scrape_kdl.Common.{
  ℕ, ◌<◌, Bool, true, false, not, ◌&&◌, List, [], ◌∷◌, all, ◌==◌, ◌≡◌, ◌⊎◌, inl, inr, refl, sym,
  ◌∙◌, arith, Bool-cases,
}
use scrape_kdl.Diagnostic.{Diagnostic, error, plain, before, sorted}

less_self : (a : Bytes) → less a a ≡ false
less_self a = ground (arith, less-asym a a)

less_irrefl : (a b : Bytes) → equal b a ≡ true → (less a b ≡ false) × (less b a ≡ false)
less_irrefl a b h = rw ((equal_iff b a).0 h) (less_self a, less_self a)

before-asym : (a b : Diagnostic) → before a b ≡ true → before b a ≡ false
unfolding before
before-asym a b h = ground (
  arith,
  equal_iff a.span.file b.span.file,
  equal_iff b.span.file a.span.file,
  less-asym a.span.file b.span.file,
  less-asym a.code b.code,
)

before-le_trans :
    (a b c : Diagnostic) → before b a ≡ false → before c b ≡ false → before c a ≡ false
unfolding before
before-le_trans a b c h k = ground (
  arith,
  equal_iff b.span.file a.span.file,
  equal_iff c.span.file b.span.file,
  equal_iff c.span.file a.span.file,
  less-total b.span.file a.span.file,
  less-le_trans a.span.file b.span.file c.span.file,
  less-le_trans a.code b.code c.code,
)

file_no_earlier : (a b : Diagnostic) → before b a ≡ false → less b.span.file a.span.file ≡ false
unfolding before
file_no_earlier a b h = elim (Bool-cases (equal b.span.file a.span.file)) [
  | inl e ↦ rw ((equal_iff b.span.file a.span.file).0 e) (less_self a.span.file)
  | inr e ↦ ground (arith, h, e)
]

before-IsStrictWeak : IsStrictWeak before
before-IsStrictWeak = record { asym = before-asym; le_trans = before-le_trans }

-- What `Total` of the parser takes: the order by the comparison itself.
pub sorted-is_sorted : (l : List Diagnostic) → is_sorted before (sorted l) ≡ true
unfolding sorted
sorted-is_sorted l = slice_stable-is_sorted before before-IsStrictWeak l

-- By file, then by the offset where they start, then by code: `a` stands no later than `b`.
abbrev pub NotLater : Diagnostic → Diagnostic → Type 0
NotLater a b =
    (less a.span.file b.span.file ≡ true)
    ⊎ (a.span.file ≡ b.span.file)
      × ((a.span.start.offset < b.span.start.offset)
          ⊎ (a.span.start.offset ≡ b.span.start.offset)
            × ((less a.code b.code ≡ true) ⊎ (a.code ≡ b.code)))

abbrev pub NotLaterThanAll : Diagnostic → List Diagnostic → Type 0
NotLaterThanAll a [] = Unit
NotLaterThanAll a (b ∷ bs) = NotLater a b × NotLaterThanAll a bs

abbrev pub InOrder : List Diagnostic → Type 0
InOrder [] = Unit
InOrder (a ∷ rest) = NotLaterThanAll a rest × InOrder rest

-- A diagnostic of that file, offset and code.
abbrev pub is_at : Bytes → ℕ → Bytes → Diagnostic → Bool
is_at file offset code d =
    equal d.span.file file && d.span.start.offset == offset && equal d.code code

-- What a stable sort of `l` is: the same diagnostics, by file, offset and code, where those that
-- agree in all three keep the order in which they were added.
pub record IsStableSort (l m : List Diagnostic) : Type 0 where
  pub perm : Perm m l
  pub ordered : InOrder m
  pub stable :
      (file : Bytes) (offset : ℕ) (code : Bytes)
      → filter (is_at file offset code) m ≡ filter (is_at file offset code) l

code-NotLater : (a b : Bytes) → less b a ≡ false → (less a b ≡ true) ⊎ (a ≡ b)
code-NotLater a b h = elim (Bool-cases (less a b)) [
  | inl earlier ↦ inl earlier
  | inr e ↦ inr ((equal_iff a b).0 (less-total a b e h))
]

offset-NotLater :
    (a b : Diagnostic)
    → (a.span.file ≡ b.span.file)
    → before b a ≡ false
    → (a.span.start.offset < b.span.start.offset)
      ⊎ (a.span.start.offset ≡ b.span.start.offset)
        × ((less a.code b.code ≡ true) ⊎ (a.code ≡ b.code))
unfolding before
offset-NotLater a b same h =
    let agree : equal b.span.file a.span.file ≡ true = rw same (equal_refl b.span.file) in
    elim (Bool-cases (b.span.start.offset == a.span.start.offset)) [
      | inl e ↦ inr (ground (arith, e), code-NotLater a.code b.code (ground (arith, h, agree, e)))
      | inr e ↦ inl (ground (arith, h, agree, e))
    ]

before-NotLater : (a b : Diagnostic) → before b a ≡ false → NotLater a b
before-NotLater a b h = elim (Bool-cases (less a.span.file b.span.file)) [
  | inl earlier ↦ inl earlier
  | inr e ↦
      let same : a.span.file ≡ b.span.file =
        (equal_iff a.span.file b.span.file).0
          (less-total a.span.file b.span.file e (file_no_earlier a b h)) in
      inr (same, offset-NotLater a b same h)
]

is_sorted-all :
    (a : Diagnostic) (l : List Diagnostic)
    → all (λ b. not (before b a)) l ≡ true
    → NotLaterThanAll a l
is_sorted-all a [] h = tt
is_sorted-all a (b ∷ bs) h = (before-NotLater a b (ground arith), is_sorted-all a bs (ground arith))

is_sorted-InOrder : (l : List Diagnostic) → is_sorted before l ≡ true → InOrder l
is_sorted-InOrder [] h = tt
is_sorted-InOrder (a ∷ l) h = (is_sorted-all a l (ground arith), is_sorted-InOrder l (ground arith))

-- Those that tie with a diagnostic are those of its file, offset and code.
equivalent-is_at :
    (k d : Diagnostic) → equivalent before k d ≡ is_at k.span.file k.span.start.offset k.code d
unfolding before
equivalent-is_at k d = ground (
  arith,
  equal_iff k.span.file d.span.file,
  equal_iff d.span.file k.span.file,
  equal_iff d.code k.code,
  less-total k.span.file d.span.file,
  less-total d.code k.code,
  less-asym k.span.file d.span.file,
  less-asym d.span.file k.span.file,
  less_irrefl k.code d.code,
  less-asym k.code d.code,
  less-asym d.code k.code,
)

filter-agrees :
    (p q : Diagnostic → Bool) (l : List Diagnostic)
    → ((d : Diagnostic) → p d ≡ q d)
    → filter p l ≡ filter q l
filter-agrees p q [] h = refl
filter-agrees p q (d ∷ l) h = rw (h d, filter-agrees p q l h) refl

-- A diagnostic of a file, an offset and a code.
abbrev probe : Bytes → ℕ → Bytes → Diagnostic
probe f n c = record {
  code = c;
  severity = error;
  message = plain [];
  span = record {
    file = f;
    start = record { offset = n; line = 0; column = 0 };
    stop = record { offset = n; line = 0; column = 0 };
  };
  path = [];
}

sorted-stable :
    (l : List Diagnostic) (file : Bytes) (offset : ℕ) (code : Bytes)
    → filter (is_at file offset code) (sorted l) ≡ filter (is_at file offset code) l
unfolding sorted
sorted-stable l file offset code =
    let k = probe file offset code in
    let agrees = λ (d : Diagnostic). equivalent-is_at k d in
    sym
      (filter-agrees (equivalent before k) (is_at file offset code) (slice_stable before l) agrees)
    ∙ slice_stable-filter before before-IsStrictWeak k l
    ∙ filter-agrees (equivalent before k) (is_at file offset code) l agrees

-- `Sorted` returns the diagnostics of the list by file, then offset, then code, each of them as often
-- as it stands in the list, and those that agree in all three in the order in which they were added.
pub sorted-IsStableSort : (l : List Diagnostic) → IsStableSort l (sorted l)
sorted-IsStableSort l = record {
  perm = unfold sorted in slice_stable-perm before l;
  ordered = is_sorted-InOrder (sorted l) (sorted-is_sorted l);
  stable = sorted-stable l;
}
