-- ===== src/Executor/Output/Shape.antt =====
-- The values that the output of a module allows.
use scrape_kdl.Common.Text.{Bytes, codes, equal}
use scrape_kdl.Common.{
  ℕ, Bool, true, false, not, ◌&&◌, ◌||◌, List, [], ◌∷◌, length, Option, none, some, ◌≡◌, ◌⊎◌, ◌==◌,
}
use scrape_kdl.Common.Int.{pos}
use scrape_kdl.Executor.Output.Recovery.{policy_of, less_ℤ, minimum_of, exceeds}
use scrape_kdl.Executor.Output.Walker.{values_of}
use scrape_kdl.Executor.Value
use scrape_kdl.Executor.Value.{
  Value, null, items, no_members, and_member, Numbers, matches_runtime_type,
}
use scrape_kdl.Ir.{
  Field, Collection, OutputObject, no_output, field_member, collection_member, nil_member,
}

abbrev pub is_none {ℓ} : {A : Type ℓ} → Option A → Bool
is_none none = true
is_none (some x) = false

-- A field may be null where it is optional without a default, or where its errors are recovered.
abbrev pub may_be_null : Field → Bool
may_be_null field =
    not field.required && is_none field.default
    || equal (policy_of field) (codes "null")
    || equal (policy_of field) (codes "warn")

abbrev pub has_key : Bytes → Value.Members → Bool
has_key name no_members = false
has_key name (and_member other v ms) = equal name other || has_key name ms

-- Each member of the object has a value.
abbrev pub names_present : OutputObject → Value.Members → Bool
names_present no_output ms = true
names_present (field_member field rest) ms = has_key field.name ms && names_present rest ms
names_present (collection_member c row rest) ms = has_key c.name ms && names_present rest ms
names_present (nil_member rest) ms = names_present rest ms

abbrev pub AllMembers : (Bytes → Value → Type 0) → Value.Members → Type 0
AllMembers P no_members = Unit
AllMembers P (and_member name v ms) = P name v × AllMembers P ms

-- An object with a value for each member, and with values for its members only.
abbrev pub IsObject : OutputObject → (Bytes → Value → Type 0) → Value → Type 0
IsObject object P v =
    (ms : Value.Members) × (v ≡ Value.object ms)
    × AllMembers P ms
    × (names_present object ms ≡ true)

abbrev pub Each : (Value → Type 0) → List Value → Type 0
Each P [] = Unit
Each P (v ∷ vs) = P v × Each P vs

-- The bounds on the rows of a collection; the upper one is not read for no rows.
abbrev pub within_bounds : Collection → ℕ → Bool
within_bounds c count =
    not (less_ℤ (pos count) (minimum_of c.required c.min_items))
    && (count == 0 || not (exceeds count c.max_items))

abbrev pub IsCollection : Collection → (Value → Type 0) → Value → Type 0
IsCollection c P v =
    (vs : List Value) × (v ≡ items (values_of vs))
    × (within_bounds c (length vs) ≡ true)
    × Each P vs

abbrev pub FieldFits : Numbers → Field → Value → Type 0
FieldFits numbers field v =
    (matches_runtime_type numbers v field.successful_type ≡ true)
    ⊎ ((v ≡ null) × (may_be_null field ≡ true))

-- A value that a member of that name allows, down the rows of collections.
unfoldable pub Fits : Numbers → OutputObject → Bytes → Value → Type 0
Fits numbers no_output name v = ⊥
Fits numbers (field_member field rest) name v =
    ((name ≡ field.name) × FieldFits numbers field v) ⊎ Fits numbers rest name v
Fits numbers (collection_member c row rest) name v =
    ((name ≡ c.name) × IsCollection c (IsObject row (λ n w. Fits numbers row n w)) v)
    ⊎ Fits numbers rest name v
Fits numbers (nil_member rest) name v = Fits numbers rest name v
