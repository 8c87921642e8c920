-- ===== src/Dom.antt =====
-- internal/dom/node.go: the nodes of a document. Pointers are indices into a store of nodes; the
-- fields `Parent`, `previousElement` and `lastElement` are `none` where the pointer is nil.
-- `TextContent` and the output of HTML are not modelled.
pub mod Selector
pub mod Parser
pub mod Nth
pub mod Progression
pub mod Match
pub mod Matches
pub mod Query
pub mod Limit
pub mod Adds
pub mod Below
use scrape_kdl.Common.Text.{Bytes, equal}
use scrape_kdl.Common.{
  ℕ, zero, suc, ◌+◌, Bool, true, false, not, List, [], ◌∷◌, ◌++◌, Option, none, some, get_elem?,
  leb, ◌&&◌, if◌then◌else◌,
}

pub data NodeType : Type 0 where
  document element text comment : NodeType

pub record Node : Type 0 where
  pub kind : NodeType
  pub tag : Bytes
  pub content : Bytes
  pub attrs : List (Bytes × Bytes)
  pub parent : Option ℕ
  pub children : List ℕ
  pub previous_element : Option ℕ
  pub last_element : Option ℕ
  pub element_index : ℕ
  pub type_index : ℕ
  pub element_count : ℕ
  pub type_counts : List (Bytes × ℕ)

abbrev pub Store : Type 0
Store = List Node

abbrev pub load : Store → ℕ → Option Node
load store i = get_elem? store i

unfoldable pub update : Store → ℕ → Node → Store
update [] i n = []
update (m ∷ store) zero n = n ∷ store
update (m ∷ store) (suc i) n = m ∷ update store i n

abbrev pub is_element : Node → Bool
is_element n = of_kind n.kind
  where
    of_kind : NodeType → Bool
    of_kind element = true
    of_kind _ = false

abbrev pub is_document : Node → Bool
is_document n = of_kind n.kind
  where
    of_kind : NodeType → Bool
    of_kind document = true
    of_kind _ = false

-- A map from strings to numbers: 0 where a key is missing.
unfoldable pub count_of : Bytes → List (Bytes × ℕ) → ℕ
unfolding equal
count_of key [] = 0
count_of key ((k, n) ∷ counts) = let rest = count_of key counts in if equal k key then n else rest

-- `counts[key]++`.
unfoldable pub increment : Bytes → List (Bytes × ℕ) → List (Bytes × ℕ)
unfolding equal
increment key [] = (key, 1) ∷ []
increment key ((k, n) ∷ counts) =
    let rest = increment key counts in if equal k key then (k, n + 1) ∷ counts else (k, n) ∷ rest

-- What `appendChild` writes to the parent `p` at `i`, when the child at `c` is `n`.
unfoldable pub adopting : ℕ → Node → Node → Node
unfolding increment
adopting c n p =
    if is_element n
    then record p {
      last_element = some c;
      element_count = p.element_count + 1;
      type_counts = increment n.tag p.type_counts;
      children = p.children ++ c ∷ [];
    }
    else record p { children = p.children ++ c ∷ [] }

-- What `appendChild` writes to the child `n`, when the parent at `i` is `p`.
unfoldable pub adopted : ℕ → Node → Node → Node
unfolding increment count_of
adopted i p n =
    if is_element n
    then record n {
      parent = some i;
      previous_element = p.last_element;
      element_index = p.element_count + 1;
      type_index = count_of n.tag (increment n.tag p.type_counts);
    }
    else record n { parent = some i }

abbrev link : Store → ℕ → ℕ → Option Node → Option Node → Option Store
link store i c (some p) (some n) = some (update (update store i (adopting c n p)) c (adopted i p n))
link store i c _ _ = none

-- The method `appendChild`, of the node at `i` with the child at `c`; a nil pointer is an error.
unfoldable pub append_child : Store → ℕ → ℕ → Option Store
unfolding update
append_child store i c = link store i c (load store i) (load store c)

-- `strings.ToLower` on an ASCII string, which the names of attributes in selectors are.
unfoldable pub to_lower : Bytes → Bytes
to_lower [] = []
to_lower (c ∷ s) = (if leb b'A' c && leb c b'Z' then c + 32 else c) ∷ to_lower s

unfoldable pub find_attr : Bytes → List (Bytes × Bytes) → Option Bytes
unfolding equal
find_attr name [] = none
find_attr name ((k, v) ∷ attrs) =
    let rest = find_attr name attrs in if equal k name then some v else rest

-- The method `Attr`.
unfoldable pub attr : Node → Bytes → Option Bytes
attr n name = if is_element n then find_attr (to_lower name) n.attrs else none

-- What `IsEmpty` says of one child.
abbrev pub is_blank_child : Option Node → Bool
is_blank_child none = true
is_blank_child (some n) = of_kind n.kind n.content
  where
    of_kind : NodeType → Bytes → Bool
    of_kind element s = false
    of_kind text [] = true
    of_kind text (c ∷ s) = false
    of_kind _ s = true
