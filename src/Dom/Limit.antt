-- ===== src/Dom/Limit.antt =====
-- `QueryLimit`: its result is the front of that of `QueryAll`.
use scrape_kdl.Common.Int.{ℤ, pos, negsuc}
use scrape_kdl.Common.{
  ℕ, zero, suc, ◌<◌, Bool, true, false, not, ◌&&◌, List, [], ◌∷◌, ◌++◌, length, take, Option, none,
  some, ◌≡◌, refl, sym, ap, ◌∙◌, arith, Bool-cases, if_both, inl, inr, if◌then◌else◌, length-append,
  append_assoc, append-nil, take-length, take_all,
}
use scrape_kdl.Dom.Query.{
  seen, collect, unless_ended, walk, query_limit, query_all, children_of, is_element_at,
  matches_selector,
}
use scrape_kdl.Dom.Selector.{Selector}
use scrape_kdl.Dom.{Store}

-- What a walk with a limit from `r` owes to the walk without one, which ends with `full`: the same
-- result, if it did not stop, or the first `suc limit` of it.
pub record IsCut (limit : ℕ) (r : List ℕ × Bool) (full : List ℕ) : Type 0 where
  pub later : List ℕ
  pub splits : full ≡ r.0 ++ later
  pub going : r.1 ≡ false → (later ≡ []) × (length r.0 < suc limit)
  pub ended : r.1 ≡ true → length r.0 ≡ suc limit

-- A walk without a limit never stops and only adds to the result.
pub record IsGrown (result : List ℕ) (r : List ℕ × Bool) : Type 0 where
  pub added : List ℕ
  pub appends : r.0 ≡ result ++ added
  pub open_end : r.1 ≡ false

abbrev Step : Type 0
Step = List ℕ → List ℕ × Bool

pub unless_ended-IsGrown :
    (result : List ℕ) (r : List ℕ × Bool) (go_on : Step)
    → IsGrown result r
    → ((s : List ℕ) → IsGrown s (go_on s))
    → IsGrown result (unless_ended r go_on)
unless_ended-IsGrown result (s, true) go_on g k = absurd (ground (arith, g.open_end))
unless_ended-IsGrown result (s, false) go_on g k =
    let h = k s in
    record {
      added = g.added ++ h.added;
      appends = h.appends ∙ ap (λ x. x ++ h.added) g.appends ∙ append_assoc result g.added h.added;
      open_end = h.open_end;
    }

-- A step with a limit and the same step without one.
abbrev Agree : ℕ → Step → Step → Type 0
Agree limit f g = (s : List ℕ) → length s < suc limit → IsCut limit (f s) (g s).0

unless_ended-IsCut :
    (limit : ℕ) (r full : List ℕ × Bool) (f g : Step)
    → IsCut limit r full.0
    → full.1 ≡ false
    → ((s : List ℕ) → IsGrown s (g s))
    → Agree limit f g
    → IsCut limit (unless_ended r f) (unless_ended full g).0
unless_ended-IsCut limit r (s, true) f g c open_end grows agree = cc
unless_ended-IsCut limit (t, true) (s, false) f g c open_end grows agree =
    let h = grows s in
    record {
      later = c.later ++ h.added;
      splits = h.appends ∙ ap (λ x. x ++ h.added) c.splits ∙ append_assoc t c.later h.added;
      going = λ e. cc;
      ended = c.ended;
    }
unless_ended-IsCut limit (t, false) (s, false) f g c open_end grows agree =
    let (nothing, short) = c.going refl in
    let same : s ≡ t = c.splits ∙ rw nothing (append-nil t) in rw same (agree t short)

pub collect-IsGrown :
    (test : ℕ → Bool) (i : ℕ) (result : List ℕ) → IsGrown result (collect (pos 0) test i result)
unfolding collect
collect-IsGrown test i result =
    if_both (λ (r : List ℕ × Bool). IsGrown result r) (test i && not (seen result i))
      (record { added = i ∷ []; appends = refl; open_end = refl })
      (record { added = []; appends = sym (append-nil result); open_end = refl })

unchanged : (limit : ℕ) (s : List ℕ) → length s < suc limit → IsCut limit (s, false) s
unchanged limit s short = record {
  later = [];
  splits = sym (append-nil s);
  going = λ e. (refl, short);
  ended = λ e. cc;
}

collect-IsCut :
    (limit : ℕ) (test : ℕ → Bool) (i : ℕ)
    → Agree limit (collect (pos (suc limit)) test i) (collect (pos 0) test i)
unfolding collect
collect-IsCut limit test i s short = elim (Bool-cases (test i && not (seen s i))) [
  | inl new ↦ rw new (record {
    later = [];
    splits = sym (append-nil (s ++ i ∷ []));
    going = λ e. (refl, ground (arith, length-append s (i ∷ [])));
    ended = λ e. ground (arith, length-append s (i ∷ []));
  })
  | inr old ↦ rw old (unchanged limit s short)
]

pub walk-IsGrown :
    (f : ℕ) (store : Store) (test : ℕ → Bool) (children result : List ℕ)
    → IsGrown result (walk f store (pos 0) test children result)
unfolding walk
walk-IsGrown zero store test children result = record {
  added = [];
  appends = sym (append-nil result);
  open_end = refl;
}
walk-IsGrown (suc f) store test [] result = record {
  added = [];
  appends = sym (append-nil result);
  open_end = refl;
}
walk-IsGrown (suc f) store test (i ∷ is) result =
    if_both (λ (r : List ℕ × Bool). IsGrown result r) (is_element_at store i)
      (unless_ended-IsGrown result _ _
        (unless_ended-IsGrown result _ _ (collect-IsGrown test i result)
          (λ s. walk-IsGrown f store test (children_of store i) s))
        (λ s. walk-IsGrown (suc f) store test is s))
      (walk-IsGrown (suc f) store test is result)

walk-IsCut :
    (limit f : ℕ) (store : Store) (test : ℕ → Bool) (children : List ℕ)
    → Agree limit
        (walk f store (pos (suc limit)) test children)
        (walk f store (pos 0) test children)
unfolding walk
walk-IsCut limit zero store test children s short = unchanged limit s short
walk-IsCut limit (suc f) store test [] s short = unchanged limit s short
walk-IsCut limit (suc f) store test (i ∷ is) s short = elim (Bool-cases (is_element_at store i)) [
  | inl elem ↦ rw elem (
      unless_ended-IsCut limit _ _ _ _
        (unless_ended-IsCut limit _ _ _ _ (collect-IsCut limit test i s short)
          (collect-IsGrown test i s).open_end
          (λ t. walk-IsGrown f store test (children_of store i) t)
          (walk-IsCut limit f store test (children_of store i)))
        (unless_ended-IsGrown s _ _ (collect-IsGrown test i s)
          (λ t. walk-IsGrown f store test (children_of store i) t)).open_end
        (λ t. walk-IsGrown (suc f) store test is t) (walk-IsCut limit (suc f) store test is))
  | inr other ↦ rw other (walk-IsCut limit (suc f) store test is s short)
]

cut-take :
    (limit : ℕ) (r : List ℕ × Bool) (full : List ℕ)
    → IsCut limit r full
    → r.0 ≡ take (suc limit) full
cut-take limit (s, true) full c = sym (rw (← c.ended refl, c.splits) (take-length s c.later))
cut-take limit (s, false) full c =
    let (nothing, short) = c.going refl in
    let same : full ≡ s = c.splits ∙ rw nothing (append-nil s) in
    sym (rw same (take_all (suc limit) s (omega arith)))

-- A negative limit is none.
walk-negsuc :
    (k f : ℕ) (store : Store) (test : ℕ → Bool) (children : List ℕ)
    → walk f store (negsuc k) test children ≡ walk f store (pos 0) test children
unfolding walk collect
walk-negsuc k zero store test children = refl
walk-negsuc k (suc f) store test [] = refl
walk-negsuc k (suc f) store test (i ∷ is) = λ at s.
    if is_element_at store i
    then unless_ended
        (unless_ended (collect (pos 0) test i s)
          (walk-negsuc k f store test (children_of store i) at))
        (walk-negsuc k (suc f) store test is at)
    else walk-negsuc k (suc f) store test is at s

-- The front of a result that a limit keeps: all of it for a limit that is not positive.
abbrev pub cut : ℤ → List ℕ → List ℕ
cut (pos zero) result = result
cut (pos (suc limit)) result = take (suc limit) result
cut (negsuc k) result = result

-- `QueryLimit` returns the first `limit` elements of what `QueryAll` returns, and all of them for
-- a limit that is not positive, on every store, for every root and selector.
pub query_limit-cut :
    (store : Store) (root : Option ℕ) (selector : Selector) (limit : ℤ)
    → query_limit store root selector limit ≡ cut limit (query_all store root selector)
unfolding query_limit query_all
query_limit-cut store none selector (pos zero) = refl
query_limit-cut store none selector (pos (suc n)) = refl
query_limit-cut store none selector (negsuc k) = refl
query_limit-cut store (some i) selector (pos zero) = refl
query_limit-cut store (some i) selector (negsuc k) =
    ap (λ w. (w []).0) (walk-negsuc k _ store (matches_selector store selector) _)
query_limit-cut store (some i) selector (pos (suc n)) =
    cut-take n _ _ (
      walk-IsCut n _ store (matches_selector store selector) (children_of store i) [] (omega arith))
