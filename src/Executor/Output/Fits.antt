-- ===== src/Executor/Output/Fits.antt =====
-- The result of a walk has the shape of the output.
use scrape_kdl.Common.Int.{ℤ, pos}
use scrape_kdl.Common.Outcome.{Outcome, ok, err}
use scrape_kdl.Common.Text.{Bytes, codes, equal, equal_iff, equal_refl}
use scrape_kdl.Common.{
  ℕ, ◌+◌, Bool, true, false, not, ◌||◌, List, [], ◌∷◌, ◌++◌, length, Option, ◌≡◌, refl, arith, inl,
  inr, ◌==◌, if_both, if_rule,
}
use scrape_kdl.Executor.Output.Post.{Yields, Yields-imp, always, after-Yields, execute_field-Fit}
use scrape_kdl.Executor.Output.Recovery.{
  OutputPath, member_of, row_of, Failure, Walk, Run, less_ℤ, minimum_of, exceeds,
  validate_collection_minimum, validate_collection_maximum,
}
use scrape_kdl.Executor.Output.Shape.{
  has_key, names_present, AllMembers, IsObject, Each, IsCollection, FieldFits, Fits,
}
use scrape_kdl.Executor.Output.Walker.{
  Services, set_member, is_execution_canceled, execution_context_error, after_row, finish_rows,
  execute_rows, execute_collection, execute_members, execute_object,
}
use scrape_kdl.Executor.Value
use scrape_kdl.Executor.Value.{Value, items, no_members, and_member}
use scrape_kdl.Ir.{Collection, OutputObject, no_output, field_member, collection_member, nil_member}

validate_maximum-Yields :
    (max_items : Option ℤ) (count : ℕ) (path : OutputPath) (s : Walk)
    → Yields
        (λ _. exceeds count max_items ≡ false)
        (validate_collection_maximum max_items count path, s)
unfolding validate_collection_maximum
validate_maximum-Yields max_items count path s =
    if_rule
      (λ (r : Outcome Failure (Unit {0})). Yields (λ _. exceeds count max_items ≡ false) (r, s))
      (exceeds count max_items) (λ _. tt) (λ h. h)

validate_minimum-Yields :
    (required : Bool) (min_items : ℤ) (count : ℕ) (path : OutputPath) (s : Walk)
    → Yields
        (λ _. less_ℤ (pos count) (minimum_of required min_items) ≡ false)
        (validate_collection_minimum required min_items count path, s)
unfolding validate_collection_minimum
validate_minimum-Yields required min_items count path s =
    let minimum = minimum_of required min_items in
    if_rule
      (λ (r : Outcome Failure (Unit {0})). Yields (λ _. less_ℤ (pos count) minimum ≡ false) (r, s))
      (less_ℤ (pos count) minimum) (λ _. tt) (λ h. h)

Each-append :
    (P : Value → Type 0) (vs : List Value) (v : Value) → Each P vs → P v → Each P (vs ++ v ∷ [])
Each-append P [] v h k = (k, tt)
Each-append P (w ∷ vs) v h k = (h.0, Each-append P vs v h.1 k)

-- What the rows so far satisfy in the loop of a collection.
abbrev Collected : Collection → (Value → Type 0) → List Value → Type 0
Collected c P vs = Each P vs × ((length vs == 0 || not (exceeds (length vs) c.max_items)) ≡ true)

module _ {Scope : Type 0} (services : Services Scope) (c : Collection) (P : Value → Type 0) where
  after_row-Yields :
      (path : OutputPath) (index : ℕ) (result : List Value) (rest : List Value → Run Value)
      → ((vs : List Value) (s : Walk) → Collected c P vs → Yields (IsCollection c P) (rest vs s))
      → Collected c P result
      → (r : Outcome Failure Value × Walk) → Yields P r
      → Yields (IsCollection c P) (after_row services c path index result rest r)
  unfolding after_row
  after_row-Yields path index result rest k h (err e, s) p =
      if_both (Yields (IsCollection c P))
        (is_execution_canceled e || not (equal c.on_row_error (codes "skip"))) tt (k result _ h)
  after_row-Yields path index result rest k h (ok v, s) p =
      let vs = result ++ v ∷ [] in
      after-Yields (λ _. exceeds (length vs) c.max_items ≡ false) (IsCollection c P) _ _
        (validate_maximum-Yields c.max_items (length vs) path s)
        λ _ s' below. k vs s' (Each-append P result v h.0 p, ground arith)

  finish_rows-Yields :
      (path : OutputPath) (result : List Value) (s : Walk)
      → Collected c P result
      → Yields (IsCollection c P) (finish_rows services c path result s)
  finish_rows-Yields path result s h =
      after-Yields (λ _. less_ℤ (pos (length result)) (minimum_of c.required c.min_items) ≡ false)
        (IsCollection c P) _ _
        (validate_minimum-Yields c.required c.min_items (length result) path s)
        λ _ s' enough. (result, refl, ground (arith, h.1), h.0)

  module _ (run_row : Scope → OutputPath → Run Value)
      (runs : (scope : Scope) (path : OutputPath) (s : Walk)
        → Yields P (run_row scope path s)) where
    execute_rows-Yields :
        (path : OutputPath) (index : ℕ) (rows : List Scope) (result : List Value) (s : Walk)
        → Collected c P result
        → Yields (IsCollection c P) (execute_rows services run_row c path index rows result s)
    unfolding execute_rows
    execute_rows-Yields path index [] result s h = finish_rows-Yields path result s h
    execute_rows-Yields path index (row ∷ rows) result s h =
        after-Yields (λ _. Unit {0}) (IsCollection c P) _ _ (always _)
          λ _ s' _.
            after_row-Yields path index result _
              (λ vs s'' h'. execute_rows-Yields path (index + 1) rows vs s'' h') h _
              (runs row (row_of path index) s')

    execute_collection-Yields :
        (scope : Scope) (path : OutputPath) (s : Walk)
        → Yields (IsCollection c P) (execute_collection services run_row scope c path s)
    unfolding execute_collection
    execute_collection-Yields scope path s =
        after-Yields (λ _. Unit {0}) (IsCollection c P) _ _ (always _)
          λ rows s' _. execute_rows-Yields path 0 rows [] s' (tt, refl)

-- The map of an object keeps its keys, has the one that is set, and holds no other value.
set_member-AllMembers :
    (P : Bytes → Value → Type 0) (name : Bytes) (v : Value) (ms : Value.Members)
    → P name v
    → AllMembers P ms
    → AllMembers P (set_member name v ms)
unfolding set_member
set_member-AllMembers P name v no_members p h = (p, tt)
set_member-AllMembers P name v (and_member other w ms) p h =
    if_both (AllMembers P) (equal name other) (p, h.1)
      (h.0, set_member-AllMembers P name v ms p h.1)

set_member-has_key :
    (name : Bytes) (v : Value) (ms : Value.Members) → has_key name (set_member name v ms) ≡ true
unfolding set_member
set_member-has_key name v no_members = rw (equal_refl name) refl
set_member-has_key name v (and_member other w ms) =
    if_both (λ ms'. has_key name ms' ≡ true) (equal name other) (rw (equal_refl name) refl)
      (ground (arith, set_member-has_key name v ms))

set_member-keeps_key :
    (key name : Bytes) (v : Value) (ms : Value.Members)
    → has_key key ms ≡ true
    → has_key key (set_member name v ms) ≡ true
unfolding set_member
set_member-keeps_key key name v no_members h = absurd cc
set_member-keeps_key key name v (and_member other w ms) h =
    if_rule (λ ms'. has_key key ms' ≡ true) (equal name other)
      (λ e. rw ((equal_iff name other).0 e) h)
      (λ _. ground (arith, set_member-keeps_key key name v ms))

-- What the loop over the members returns: all that was there, and the members that it came to.
abbrev Extended : (Bytes → Value → Type 0) → OutputObject → Value.Members → Value → Type 0
Extended P object before v =
    (ms : Value.Members) × (v ≡ Value.object ms)
    × AllMembers P ms
    × (names_present object ms ≡ true)
    × ((key : Bytes) → has_key key before ≡ true → has_key key ms ≡ true)

Extended-set :
    (P : Bytes → Value → Type 0) (object rest : OutputObject) (name : Bytes) (v : Value)
    (before : Value.Members)
    → ((ms : Value.Members)
        → has_key name ms ≡ true
        → names_present rest ms ≡ true
        → names_present object ms ≡ true)
    → (w : Value) → Extended P rest (set_member name v before) w
    → Extended P object before w
Extended-set P object rest name v before present w (ms, e, all, names, keys) = (
  ms,
  e,
  all,
  present ms (keys name (set_member-has_key name v before)) names,
  λ key given. keys key (set_member-keeps_key key name v before given),
)

module _ {Scope : Type 0} (services : Services Scope) where
  abbrev Extends :
      (Bytes → Value → Type 0)
      → OutputObject
      → Value.Members
      → Outcome Failure Value × Walk
      → Type 0
  Extends P object before = Yields (Extended P object before)

  members-Extends :
      (object : OutputObject) (P : Bytes → Value → Type 0)
      → ((name : Bytes) (v : Value) → Fits services.numbers object name v → P name v)
      → (scope : Scope) (path : OutputPath) (result : Value.Members) (s : Walk)
      → AllMembers P result
      → Extends P object result (execute_members services scope path object result s)
  unfolding execute_members Fits
  members-Extends no_output P imp scope path result s h =
      (result, refl, h, refl, λ key given. given)
  members-Extends (field_member field rest) P imp scope path result s h =
      let object = field_member field rest in
      after-Yields (λ _. Unit {0}) (Extended P object result) _ _ (always _)
        λ _ s' _.
          after-Yields (FieldFits services.numbers field) (Extended P object result) _ _
            (execute_field-Fit services scope field (member_of path field.name) s')
            λ v s'' fits.
              Yields-imp (Extended P rest (set_member field.name v result))
                (Extended P object result) _
                (Extended-set P object rest field.name v result (λ ms named others. ground arith))
                (members-Extends rest P (λ name w f. imp name w (inr f)) scope path
                  (set_member field.name v result) s''
                  (set_member-AllMembers P field.name v result (imp field.name v (inl (refl, fits)))
                    h))
  members-Extends (collection_member c row rest) P imp scope path result s h =
      let object = collection_member c row rest in
      let IsRow : Value → Type 0 = IsObject row (Fits services.numbers row) in
      after-Yields (λ _. Unit {0}) (Extended P object result) _ _ (always _)
        λ _ s' _.
          after-Yields (IsCollection c IsRow) (Extended P object result) _ _
            (execute_collection-Yields services c IsRow _
              (λ inner place s0.
                Yields-imp (Extended (Fits services.numbers row) row no_members) IsRow _
                  (λ v extended. (extended.0, extended.1, extended.2, extended.3))
                  (members-Extends row (Fits services.numbers row) (λ name w f. f) inner place
                    no_members s0 tt))
              scope (member_of path c.name) s')
            λ v s'' fits.
              Yields-imp (Extended P rest (set_member c.name v result)) (Extended P object result) _
                (Extended-set P object rest c.name v result (λ ms named others. ground arith))
                (members-Extends rest P (λ name w f. imp name w (inr f)) scope path
                  (set_member c.name v result) s''
                  (set_member-AllMembers P c.name v result (imp c.name v (inl (refl, fits))) h))
  members-Extends (nil_member rest) P imp scope path result s h =
      after-Yields (λ _. Unit {0}) (Extended P (nil_member rest) result)
        (execution_context_error services path s) _ (always _) λ _ s' _. tt

  -- Whatever its reader, its transforms and the context do, executeObject ends with an error or
  -- with an object that has a value for each member and holds nothing else: a field's value has
  -- its type or is a null that the field allows, a collection's rows are objects in turn, and
  -- their number lies within the bounds of the collection.
  pub execute_object-IsObject :
      (scope : Scope) (path : OutputPath) (object : OutputObject) (s : Walk)
      → Yields
          (IsObject object (Fits services.numbers object))
          (execute_object services scope path object s)
  unfolding execute_object
  execute_object-IsObject scope path object s =
      Yields-imp (Extended (Fits services.numbers object) object no_members)
        (IsObject object (Fits services.numbers object)) _
        (λ v extended. (extended.0, extended.1, extended.2, extended.3))
        (members-Extends object (Fits services.numbers object) (λ name w f. f) scope path no_members
          s tt)
