-- ===== src/Typesys/Assign.antt =====
-- `Equal` decides equality of well-formed types, and `IsAssignable` is a preorder.
use scrape_kdl.Common.Text.{Bytes, equal, equal_iff, equal_refl}
use scrape_kdl.Common.{[], true, false, ◌||◌, ◌≡◌, refl, ◌↔◌, ap, arith}
use scrape_kdl.Typesys.Print.{well_formed}
use scrape_kdl.Typesys.{
  Ty, primitive, array, nullable, array_nil, nullable_nil, other, equal_type, is_unknown,
  strip_nullable, is_assignable, unknown_name,
}

pub equal_type-eq : (a b : Ty) → equal_type a b ≡ true → a ≡ b
unfolding equal_type
equal_type-eq (primitive n) (primitive m) h = ap primitive ((equal_iff n m).0 h)
equal_type-eq (array a) (array b) h = ap array (equal_type-eq a b h)
equal_type-eq (nullable a) (nullable b) h = ap nullable (equal_type-eq a b h)
equal_type-eq _ _ h = cc

pub equal_type_refl : (a : Ty) → well_formed a ≡ true → equal_type a a ≡ true
unfolding equal_type
equal_type_refl (primitive n) h = equal_refl n
equal_type_refl (array a) h = equal_type_refl a h
equal_type_refl (nullable a) h = equal_type_refl a (ground arith)
equal_type_refl _ h = cc

-- For a well-formed left side, `Equal` answers true exactly on equal types.
pub equal_type_iff : (a b : Ty) → well_formed a ≡ true → (equal_type a b ≡ true) ↔ (a ≡ b)
equal_type_iff a b wf = (equal_type-eq a b, λ e. rw (← e) (equal_type_refl a wf))

equal-assignable : (a b : Ty) → equal_type a b ≡ true → is_assignable a b ≡ true
unfolding is_assignable
equal-assignable (array a) (array b) h = ground arith
equal-assignable a (nullable b) h = ground arith
equal-assignable _ _ h = ground arith

assignable-primitive :
    (a : Ty) (m : Bytes)
    → is_assignable a (primitive m) ≡ (equal_type a (primitive m) || equal m unknown_name)
unfolding is_assignable is_unknown
assignable-primitive (array a) m = refl
assignable-primitive _ m = refl

assignable-nullable :
    (a b : Ty)
    → is_assignable a (nullable b)
      ≡ (equal_type a (nullable b) || is_assignable (strip_nullable a) b)
unfolding is_assignable
assignable-nullable (array a) b = refl
assignable-nullable _ b = refl

-- Only an array is assignable to an array.
assignable-array :
    (a b : Ty)
    → is_assignable a (array b) ≡ true
    → (e : Ty) × (a ≡ array e) × (is_assignable e b ≡ true)
unfolding is_assignable equal_type is_unknown
assignable-array (array a) b h = (a, refl, ground (arith, equal-assignable a b))
assignable-array _ b h = cc

array-assignable : (a b : Ty) → is_assignable a b ≡ true → is_assignable (array a) (array b) ≡ true
unfolding is_assignable
array-assignable a b h = ground arith

-- Only `Equal` makes a type assignable to one of an unknown kind, and it never does.
not-assignable :
    (a : Ty) (k : Bytes)
    → (is_assignable a array_nil ≡ false)
      × (is_assignable a nullable_nil ≡ false)
      × (is_assignable a (other k) ≡ false)
unfolding is_assignable equal_type is_unknown
not-assignable (array a) k = (refl, refl, refl)
not-assignable _ k = (refl, refl, refl)

strip-assignable : (a b : Ty) → is_assignable a b ≡ true → is_assignable (strip_nullable a) b ≡ true
unfolding strip_nullable equal_type
strip-assignable (nullable a) (primitive m) h =
    ground (arith, assignable-primitive a m, assignable-primitive (nullable a) m)
strip-assignable (nullable a) (nullable b) h = ground (
  arith,
  assignable-nullable a b,
  assignable-nullable (nullable a) b,
  equal-assignable a b,
  strip-assignable a b,
)
strip-assignable (nullable a) (array b) h =
    let (e, same, _) = assignable-array (nullable a) b h in cc
strip-assignable (nullable a) array_nil h = ground (arith, not-assignable (nullable a) [])
strip-assignable (nullable a) nullable_nil h = ground (arith, not-assignable (nullable a) [])
strip-assignable (nullable a) (other k) h = ground (arith, not-assignable (nullable a) k)
strip-assignable _ b h = h

-- Every well-formed type is assignable to itself.
pub is_assignable_refl : (a : Ty) → well_formed a ≡ true → is_assignable a a ≡ true
is_assignable_refl a wf = equal-assignable a a (equal_type_refl a wf)

equal_trans :
    (a b c : Ty) → is_assignable a b ≡ true → equal_type b c ≡ true → is_assignable a c ≡ true
equal_trans a b c h e = rw (← equal_type-eq b c e) h

strip-both :
    (a b : Ty)
    → is_assignable a b ≡ true
    → is_assignable (strip_nullable a) (strip_nullable b) ≡ true
unfolding strip_nullable equal_type
strip-both (nullable a) (nullable b) h =
    ground (arith, assignable-nullable (nullable a) b, equal-assignable a b)
strip-both (primitive n) (nullable b) h = ground (arith, assignable-nullable (primitive n) b)
strip-both (array a) (nullable b) h = ground (arith, assignable-nullable (array a) b)
strip-both array_nil (nullable b) h = ground (arith, assignable-nullable array_nil b)
strip-both nullable_nil (nullable b) h = ground (arith, assignable-nullable nullable_nil b)
strip-both (other k) (nullable b) h = ground (arith, assignable-nullable (other k) b)
strip-both a (primitive n) h = strip-assignable a (primitive n) h
strip-both a (array b) h = strip-assignable a (array b) h
strip-both a array_nil h = strip-assignable a array_nil h
strip-both a nullable_nil h = strip-assignable a nullable_nil h
strip-both a (other k) h = strip-assignable a (other k) h

-- `IsAssignable` composes, on all types, malformed ones included.
pub is_assignable_trans :
    (a b c : Ty) → is_assignable a b ≡ true → is_assignable b c ≡ true → is_assignable a c ≡ true
is_assignable_trans a b (primitive m) h k =
    ground
      (arith, assignable-primitive b m, equal_trans a b (primitive m), assignable-primitive a m)
is_assignable_trans a b (nullable c) h k = ground (
  arith,
  assignable-nullable b c,
  equal_trans a b (nullable c),
  assignable-nullable a c,
  is_assignable_trans (strip_nullable a) (strip_nullable b) c (strip-both a b h),
)
is_assignable_trans a b (array c) h k =
    let (e, is_array, below) = assignable-array b c k in
    let (e', is_array', below') = assignable-array a e (rw (← is_array) h) in
    rw is_array' (array-assignable e' c (is_assignable_trans e' e c below' below))
is_assignable_trans a b array_nil h k = ground (arith, not-assignable b [])
is_assignable_trans a b nullable_nil h k = ground (arith, not-assignable b [])
is_assignable_trans a b (other s) h k = ground (arith, not-assignable b s)
