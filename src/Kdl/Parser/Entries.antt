-- ===== src/Kdl/Parser/Entries.antt =====
-- The methods that read values, nodes and documents.
use scrape_kdl.Common.Text.{Bytes, codes}
use scrape_kdl.Common.{
  ℕ, zero, suc, not, ◌&&◌, ◌||◌, List, [], ◌∷◌, ◌++◌, Option, none, some, if◌then◌else◌,
}
use scrape_kdl.Diagnostic.{plain, formatted}
use scrape_kdl.Kdl.Ast.{Value, ValueKind, Property, Node, node, Nodes, append_node}
use scrape_kdl.Kdl.Parser.{
  Parser, advance, syntax_error, kind_of, is_eof, is_separator, is_rbrace, is_lbrace, is_slashdash,
  is_lparen, is_equals, is_identifier, is_name, ends_node, skip_separator,
  skip_slashdash_line_space, recover_node, skip_type_annotation, reject_annotation,
}
use scrape_kdl.Kdl.Token.{TokenKind, string, int, float, bool, null, Token, TokenValue, text_value}
use scrape_kdl.Source.{Span, merge}

abbrev pub value_kind : TokenKind → Option ValueKind
value_kind string = some ValueKind.string
value_kind int = some ValueKind.int
value_kind float = some ValueKind.float
value_kind bool = some ValueKind.bool
value_kind null = some ValueKind.null
value_kind _ = none

abbrev pub value_of : Token → ValueKind → Value
value_of t k = record { kind = k; raw = t.text; value = t.value; span = t.span }

abbrev pub parse_value_as : Parser → Option ValueKind → Option Value × Parser
parse_value_as p none = (none, p)
parse_value_as p (some k) = (some (value_of p.cur k), advance p)

unfoldable pub parse_value : Parser → Option Value × Parser
parse_value p = parse_value_as p (value_kind (kind_of p))

-- A node under construction.
pub record Draft : Type 0 where
  pub name : Bytes
  pub arguments : List Value
  pub properties : List Property

abbrev pub last_span : Span → List Span → Span
last_span s [] = s
last_span s (t ∷ ts) = last_span t ts

abbrev pub spans_of {ℓ} : {A : Type ℓ} → (A → Span) → List A → List Span
spans_of f [] = []
spans_of f (x ∷ xs) = f x ∷ spans_of f xs

-- The function `previousEnd`.
unfoldable pub previous_end : Span → Draft → Span
previous_end start d =
    last_span (last_span start (spans_of (λ p. p.span) d.properties))
      (spans_of (λ v. v.span) d.arguments)

abbrev pub finish : Draft → Nodes → Span → Node
finish d children s = node d.name d.arguments d.properties children s

abbrev pub token_text : TokenValue → Bytes
token_text (text_value s) = s
token_text _ = []

-- The name of a node: a string's value, or the text of an identifier.
abbrev pub node_title : TokenKind → Token → Bytes
node_title string t = token_text t.value
node_title _ t = t.text

abbrev pub new_draft : Parser → Draft
new_draft p = record { name = node_title (kind_of p) p.cur; arguments = []; properties = [] }

abbrev pub add_property : Draft → Token → Option Value → Draft
add_property d name none = d
add_property d name (some v) = record d {
  properties =
      d.properties ++ record { name = name.text; value = v; span = merge name.span v.span } ∷ [];
}

-- `name=value`, from the name on.
unfoldable pub parse_property : Draft → Parser → Draft × Parser
parse_property d p = let (v, q) = parse_value (advance (advance p)) in (add_property d p.cur v, q)

abbrev pub add_argument : Draft → Option Value × Parser → Draft × Parser
add_argument d (some v, p) = (record d { arguments = d.arguments ++ v ∷ [] }, p)
add_argument d (none, p) = (
  d,
  advance (
      syntax_error p (formatted (codes "unexpected token %q in node") (p.cur.text ∷ []))
        p.cur.span),
)

-- The `default` of the switch in `parseNode`: a property, an argument, or a token that does not
-- belong there.
unfoldable pub parse_entry : Draft → Parser → Draft × Parser
parse_entry d p =
    if is_identifier (kind_of p) && is_equals p.peek.kind
    then parse_property d p
    else add_argument d (parse_value p)

-- What `parseNode` does behind the children of a node; `open_brace` is the span of the brace.
unfoldable pub close_children : Span → Draft → Span → Nodes → Parser → Node × Parser
close_children start d open_brace children p =
    if is_rbrace (kind_of p)
    then (finish d children (merge start p.cur.span), skip_separator (advance p))
    else (
      finish d children (merge start open_brace),
      skip_separator (syntax_error p (plain (codes "unterminated child block")) open_brace),
    )

unfoldable pub end_node : Span → Draft → Parser → Node × Parser
end_node start d p = (finish d Nodes.nil (merge start (previous_end start d)), skip_separator p)

abbrev pub require_value : Span → Parser → Bytes → Option Value × Parser → Parser
require_value marker p text (some v, q) = q
require_value marker p text (none, q) = syntax_error q (plain text) marker

unfoldable pub skip_suppressed_value : Span → Parser → Parser
skip_suppressed_value marker p =
    if is_name (kind_of p) && is_equals p.peek.kind
    then (let q = advance (advance p) in
        let r = if is_lparen (kind_of q) then skip_type_annotation q else q in
        require_value marker r (codes "slashdashed property is missing a value") (parse_value r))
    else require_value marker p
        (codes "slashdash inside a node must suppress an argument, property, or children block")
        (parse_value p)

unfoldable pub double_slashdash : Parser → Parser
double_slashdash p = advance (
    syntax_error p (plain (codes "a slashdash cannot directly suppress another slashdash"))
      p.cur.span)

-- The type annotation in front of what a slashdash suppresses.
unfoldable pub skip_suppressed_annotation : Parser → Parser
skip_suppressed_annotation p =
    if is_lparen (kind_of p) then skip_slashdash_line_space (skip_type_annotation p) else p

unfoldable pub close_skipped_block : Span → Parser → Parser
close_skipped_block open_brace p =
    if is_rbrace (kind_of p)
    then advance p
    else syntax_error p (plain (codes "unterminated slashdashed child block")) open_brace

abbrev pub then_run {ℓ κ} : {A : Type ℓ} {B : Type κ} → Option A → (A → Option B) → Option B
then_run none f = none
then_run (some a) f = f a

abbrev pub add_node : Nodes → Option Node → Nodes
add_node ns none = ns
add_node ns (some n) = append_node ns n

-- The mutual methods, on fuel.
unfoldable mutual
  pub parse_node : ℕ → Parser → Option (Option Node × Parser)
  parse_node zero p = none
  parse_node (suc f) p =
      let q = if is_lparen (kind_of p) then reject_annotation p else p in
      let entries = parse_entries f q.cur.span (new_draft q) (advance q) in
      if is_name (kind_of q)
      then then_run entries (λ (n, r). some (some n, r))
      else some
          (none, recover_node (syntax_error q (plain (codes "expected node name")) q.cur.span))

  -- The loop of `parseNode`.
  pub parse_entries : ℕ → Span → Draft → Parser → Option (Node × Parser)
  parse_entries zero start d p = none
  parse_entries (suc f) start d p =
      let children = parse_children f Nodes.nil (advance p) in
      let annotated = parse_entries f start d (reject_annotation p) in
      let suppressed = skip_slashdashed_component f p in
      let entry = parse_entries f start (parse_entry d p).0 (parse_entry d p).1 in
      if ends_node (kind_of p)
      then some (end_node start d p)
      else if is_lbrace (kind_of p)
      then then_run children (λ (ns, q). some (close_children start d p.cur.span ns q))
      else if is_lparen (kind_of p)
      then annotated
      else if is_slashdash (kind_of p)
      then then_run suppressed (parse_entries f start d)
      else entry

  -- The loop of `parseChildren`, with the nodes read so far.
  pub parse_children : ℕ → Nodes → Parser → Option (Nodes × Parser)
  parse_children zero ns p = none
  parse_children (suc f) ns p =
      let separated = parse_children f ns (advance p) in
      let suppressed = skip_slashdashed_node f p in
      let child = parse_node f p in
      if is_eof (kind_of p) || is_rbrace (kind_of p)
      then some (ns, p)
      else if is_separator (kind_of p)
      then separated
      else if is_slashdash (kind_of p)
      then then_run suppressed (parse_children f ns)
      else then_run child (λ (n, q). parse_children f (add_node ns n) q)

  pub skip_slashdashed_node : ℕ → Parser → Option Parser
  skip_slashdashed_node zero p = none
  skip_slashdashed_node (suc f) p =
      let q = skip_slashdash_line_space (advance p) in
      let r = skip_suppressed_annotation q in
      let skipped = parse_node f r in
      if is_slashdash (kind_of q)
      then some (double_slashdash q)
      else if not (is_name (kind_of r))
      then some (
          syntax_error r (plain (codes "slashdash before a node must be followed by a node"))
            p.cur.span)
      else then_run skipped (λ (n, s). some s)

  pub skip_slashdashed_component : ℕ → Parser → Option Parser
  skip_slashdashed_component zero p = none
  skip_slashdashed_component (suc f) p =
      let q = skip_slashdash_line_space (advance p) in
      let r = skip_suppressed_annotation q in
      let block = parse_children f Nodes.nil (advance r) in
      if is_slashdash (kind_of q)
      then some (double_slashdash q)
      else if is_lbrace (kind_of r)
      then then_run block (λ (ns, s). some (close_skipped_block r.cur.span s))
      else some (skip_suppressed_value p.cur.span r)
