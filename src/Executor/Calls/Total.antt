-- ===== src/Executor/Calls/Total.antt =====
-- The calls of transforms end: no symbol runs twice at a time, so the depth is bounded.
use scrape_kdl.Common.Outcome.{ok, err}
use scrape_kdl.Common.Text.{Bytes, equal, equal_iff}
use scrape_kdl.Common.{
  ℕ, zero, suc, ◌+◌, ◌≤◌, ◌<◌, Bool, true, false, List, [], ◌∷◌, ◌≡◌, refl, arith, length, any,
  Option, none, some, Option-cases, inl, inr, Bool-cases, if◌then◌else◌, if_rule,
}
use scrape_kdl.Executor.Calls.{
  TransformRuntime, symbol_of, find_declared, Fueled, then_calls, apply_call, apply_each,
  run_transform, enter, apply_declared, apply_calls,
}
use scrape_kdl.Executor.Output.Recovery.{OutputPath}
use scrape_kdl.Executor.Value.{Value}
use scrape_kdl.Ir.{
  TransformTarget, builtin_target, declared_target, TransformCall, Transform, pipeline_transform,
  match_transform, external_transform,
}

abbrev pub ends : Fueled → Bool
ends none = false
ends (some r) = true

abbrev runs : List Bytes → Bytes → Bool
runs stack symbol = any (equal symbol) stack

-- The transforms that do not run.
abbrev idle : List Bytes → List Transform → ℕ
idle stack [] = 0
idle stack (t ∷ ts) = (if runs stack (symbol_of t) then 0 else 1) + idle stack ts

idle_mono :
    (symbol : Bytes) (stack : List Bytes) (ts : List Transform)
    → idle (symbol ∷ stack) ts ≤ idle stack ts
idle_mono symbol stack [] = omega arith
idle_mono symbol stack (t ∷ ts) = ground (arith, idle_mono symbol stack ts)

idle-length : (stack : List Bytes) (ts : List Transform) → idle stack ts ≤ length ts
idle-length stack [] = omega arith
idle-length stack (t ∷ ts) = ground (arith, idle-length stack ts)

-- A declared symbol that does not run yet makes one idle transform less.
idle-find_declared :
    (symbol : Bytes) (stack : List Bytes) (ts : List Transform) (t : Transform)
    → find_declared symbol ts ≡ some t
    → runs stack symbol ≡ false
    → idle (symbol ∷ stack) ts < idle stack ts
unfolding find_declared
idle-find_declared symbol stack [] t h fresh = absurd cc
idle-find_declared symbol stack (u ∷ ts) t h fresh = elim (Option-cases (find_declared symbol ts)) [
  | inr (v, e) ↦ ground (arith, idle-find_declared symbol stack ts v e fresh)
  | inl e ↦ elim (Bool-cases (equal (symbol_of u) symbol)) [
    | inl same ↦
        let idle_one : runs stack (symbol_of u) ≡ false =
          rw ((equal_iff (symbol_of u) symbol).0 same) fresh in
        ground (arith, idle_mono symbol stack ts)
    | inr differs ↦
        let absent : find_declared symbol (u ∷ ts) ≡ none = rw e (rw differs refl) in absurd cc
  ]
]

then_calls-ends :
    (path : OutputPath) (next : Value → Fueled) (r : Fueled)
    → ends r ≡ true
    → ((v : Value) → ends (next v) ≡ true)
    → ends (then_calls path next r) ≡ true
unfolding then_calls
then_calls-ends path next none h k = absurd cc
then_calls-ends path next (some (err e)) h k = refl
then_calls-ends path next (some (ok v)) h k = k v

module _ (runtime : TransformRuntime) where
  module _ (declared : Bytes → Value → Fueled)
      (total : (symbol : Bytes) (v : Value) → ends (declared symbol v) ≡ true) where
    apply_call-ends :
        (target : TransformTarget) (v : Value) (call : TransformCall)
        → ends (apply_call runtime declared target v call) ≡ true
    unfolding apply_call
    apply_call-ends (builtin_target kind name) v call = refl
    apply_call-ends (declared_target kind symbol) v call = total symbol v

    apply_each-ends :
        (path : OutputPath) (calls : List TransformCall) (v : Value)
        → ends (apply_each runtime declared path calls v) ≡ true
    unfolding apply_each
    apply_each-ends path [] v = refl
    apply_each-ends path (call ∷ calls) v =
        then_calls-ends path _ (apply_call runtime declared call.target v call)
          (apply_call-ends call.target v call) (λ w. apply_each-ends path calls w)

  run_transform-ends :
      (each : List TransformCall → Value → Fueled) (path : OutputPath) (t : Transform) (v : Value)
      → ((calls : List TransformCall) → ends (each calls v) ≡ true)
      → ends (run_transform runtime each path t v) ≡ true
  unfolding run_transform
  run_transform-ends each path (pipeline_transform kind base calls) v h = h calls
  run_transform-ends each path (match_transform kind base cases default) v h = refl
  run_transform-ends each path (external_transform kind base symbol) v h = refl

  enter-ends :
      (run : Transform → Fueled) (stack : List Bytes) (path : OutputPath) (symbol : Bytes)
      (o : Option Transform)
      → ((t : Transform) → o ≡ some t → runs stack symbol ≡ false → ends (run t) ≡ true)
      → ends (enter runtime run stack path symbol o) ≡ true
  unfolding enter
  enter-ends run stack path symbol none h = refl
  enter-ends run stack path symbol (some t) h =
      if_rule (λ r. ends r ≡ true) (runs stack symbol) (λ _. refl) (λ fresh. h t refl fresh)

  -- Where there is more fuel than there are transforms that do not run, applyDeclared ends, on
  -- every symbol and value, for recursive transforms too.
  apply_declared-ends :
      (fuel : ℕ) (stack : List Bytes) (path : OutputPath) (symbol : Bytes) (input : Value)
      → idle stack runtime.transforms < fuel
      → ends (apply_declared runtime fuel stack path symbol input) ≡ true
  unfolding apply_declared
  apply_declared-ends zero stack path symbol input h = absurd (omega arith)
  apply_declared-ends (suc fuel) stack path symbol input h =
      enter-ends _ stack path symbol (find_declared symbol runtime.transforms) λ t found fresh.
        run_transform-ends _ path t input λ calls.
          apply_each-ends _
            (λ s v.
              apply_declared-ends fuel (symbol ∷ stack) path s v
                (omega (arith, idle-find_declared symbol stack runtime.transforms t found fresh)))
            path calls input

  -- applyCalls ends on every list of calls and every value, for transforms that call themselves,
  -- directly or through others, too: depth, which the stack of running symbols bounds, never
  -- exceeds the number of the transforms.
  pub apply_calls-ends :
      (path : OutputPath) (calls : List TransformCall) (v : Value)
      → ends (apply_calls runtime path calls v) ≡ true
  unfolding apply_calls
  apply_calls-ends path calls v =
      apply_each-ends _
        (λ s w.
          apply_declared-ends (suc (length runtime.transforms)) [] path s w
            (omega (arith, idle-length [] runtime.transforms)))
        path calls v
