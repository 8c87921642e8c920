-- ===== src/Executor/Builtins/Pieces.antt =====
-- `builtinSplit`, `builtinJoin` and `builtinReplace` against each other.
use scrape_kdl.Common.Int.{negsuc}
use scrape_kdl.Common.Outcome.{ok, ◌>>=◌}
use scrape_kdl.Common.Strings.Laws.{join-split, replace-eq-join}
use scrape_kdl.Common.Text.{Bytes, codes}
use scrape_kdl.Common.{ℕ, List, ◌∷◌, ◌≡◌, refl, ap}
use scrape_kdl.Executor.Builtins.Arguments.{require_string, required_string, optional_natural}
use scrape_kdl.Executor.Builtins.Library.{Library}
use scrape_kdl.Executor.Builtins.Strings.{
  builtin_replace, builtin_split, builtin_join, split_limited, join_value,
}
use scrape_kdl.Executor.Calls.{TransformRuntime}
use scrape_kdl.Executor.Value.{text}
use scrape_kdl.Ir.{NamedArgument}

module _ (runtime : TransformRuntime) (library : Library) where
  -- With a separator that is not empty and no limit, join puts a text together again from the parts
  -- that split took it apart into.
  pub builtin_join-builtin_split :
      (arguments : List NamedArgument) (c : ℕ) (separator s : Bytes)
      → required_string runtime library arguments (codes "separator") ≡ ok (c ∷ separator)
      → optional_natural runtime library arguments (codes "limit") (negsuc 0) ≡ ok (negsuc 0)
      → (builtin_split runtime library arguments (text s)
          >>= builtin_join runtime library arguments)
        ≡ ok (text s)
  unfolding builtin_split builtin_join require_string split_limited join_value
  builtin_join-builtin_split arguments c separator s cuts whole =
      rw (cuts, whole) (rw cuts (ap (λ t. ok (text t)) (join-split c separator s)))

  -- With a text to replace that is not empty and no count, replace returns what join makes with the
  -- new text of the parts that split takes the value apart into at the old one.
  pub builtin_replace-eq-join :
      (replacing splitting joining : List NamedArgument) (c : ℕ) (old fresh s : Bytes)
      → required_string runtime library replacing (codes "old") ≡ ok (c ∷ old)
      → required_string runtime library replacing (codes "new") ≡ ok fresh
      → optional_natural runtime library replacing (codes "count") (negsuc 0) ≡ ok (negsuc 0)
      → required_string runtime library splitting (codes "separator") ≡ ok (c ∷ old)
      → optional_natural runtime library splitting (codes "limit") (negsuc 0) ≡ ok (negsuc 0)
      → required_string runtime library joining (codes "separator") ≡ ok fresh
      → builtin_replace runtime library replacing (text s) ≡ (
          builtin_split runtime library splitting (text s) >>= builtin_join runtime library joining)
  unfolding builtin_replace builtin_split builtin_join require_string split_limited join_value
  builtin_replace-eq-join replacing splitting joining c old fresh s at_old at_new every cuts whole
        joins =
      rw (at_old, at_new, every, cuts, whole, joins, replace-eq-join c old fresh s 0) refl
