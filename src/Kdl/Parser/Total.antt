-- ===== src/Kdl/Parser/Total.antt =====
-- The parser returns on every text, within the fuel that `Parse` gives it.
use scrape_kdl.Common.Text.{Bytes}
use scrape_kdl.Common.Utf8.{valid}
use scrape_kdl.Common.{
  ℕ, zero, suc, ◌+◌, ◌*◌, ◌≤◌, ◌<◌, true, false, not, ◌||◌, ◌⊎◌, ap, ◌≡◌, refl, arith, Bool-cases,
  inl, inr, if_both, if_rule, Option, none, some, List,
}
use scrape_kdl.Common.Sort.Laws.{is_sorted}
use scrape_kdl.Diagnostic.{Diagnostic, Message, plain, before}
use scrape_kdl.Diagnostic.Order.{sorted-is_sorted}
use scrape_kdl.Kdl.Ast.{Value, ValueKind, Node, Nodes, Document}
use scrape_kdl.Kdl.Ast
use scrape_kdl.Kdl.Parser.Document.{
  document_loop, unexpected_brace, new_parser, document_of, reject_encoding, fuel, parse,
}
use scrape_kdl.Kdl.Parser.Entries.{
  Draft, new_draft, parse_entry, skip_suppressed_annotation, add_node, parse_node, parse_entries,
  parse_children, skip_slashdashed_node, skip_slashdashed_component,
}
use scrape_kdl.Kdl.Parser.Size.{
  size-advance, size-advance_lt, not-eof, size-reject_annotation_lt, size-recover_node,
  size-recover_node_lt,
}
use scrape_kdl.Kdl.Parser.{
  Parser, advance, syntax_error, kind_of, is_eof, is_separator, is_rbrace, is_lbrace, is_slashdash,
  is_lparen, is_name, ends_node, size, skip_slashdash_line_space, recover_node, reject_annotation,
}
use scrape_kdl.Source.{Span}
use scrape_kdl.Kdl.Parser.Runs.{
  Ends, then_run-Ends, name-real, separator-real, inside-real, Ends-value,
}
use scrape_kdl.Kdl.Parser.Shrink.{
  parse_entry-lt, close_children-le, end_node-le, skip_suppressed_value-le, double_slashdash-le,
  skip_suppressed_annotation-le, close_skipped_block-le, suppressed-lt, named_at, named_at-cases,
  named_at-le,
}

abbrev SmallerNode : Parser → Option Node × Parser → Type 0
SmallerNode p (n, q) = (size q ≤ size p) × (ends_node (kind_of p) ≡ false → size q < size p)

abbrev Smaller {ℓ} : {A : Type ℓ} → Parser → A × Parser → Type 0
Smaller p (x, q) = size q ≤ size p

-- A missing name is recovered from.
recovered :
    (p : Parser) (q : Parser) (text : Message)
    → (q ≡ p) ⊎ (size q < size p)
    → SmallerNode p (none, recover_node (syntax_error q text q.cur.span))
recovered p q text (inl same) =
    let r = syntax_error q text q.cur.span in
    (
      omega (arith, size-recover_node r, ap size same),
      λ real. omega (arith, size-recover_node_lt r (rw same real), ap size same),
    )
recovered p q text (inr less) =
    let r = syntax_error q text q.cur.span in
    (omega (arith, size-recover_node r), λ real. omega (arith, size-recover_node r))

Smaller-weaken {ℓ} :
    {A : Type ℓ} (p q : Parser) (r : Option (A × Parser))
    → size q ≤ size p
    → Ends (Smaller q) r
    → Ends (Smaller p) r
Smaller-weaken p q none h e = e
Smaller-weaken p q (some (x, s)) h e = omega arith

named_smaller :
    (p q : Parser) (r : Node × Parser)
    → size q ≤ size p
    → size (advance q) < size q
    → size r.1 ≤ size (advance q)
    → SmallerNode p (some r.0, r.1)
named_smaller p q r h k le = (omega arith, λ _. omega arith)

mutual
  unfolding parse_node

  parse_node-Ends :
      (f : ℕ) (p : Parser) → 2 * size p + 1 ≤ f → Ends (SmallerNode p) (parse_node f p)
  parse_node-Ends zero p h = absurd (omega arith)
  parse_node-Ends (suc f) p h =
      let q = named_at p in
      if_rule (Ends (SmallerNode p)) (is_name (kind_of q))
        (λ name.
          then_run-Ends (Smaller (advance q)) (SmallerNode p) _ _
            (parse_entries-Ends f q.cur.span (new_draft q) (advance q)
              (omega (arith, named_at-le p, size-advance_lt q (name-real (kind_of q) name))))
            (λ r le.
              named_smaller p q r (named_at-le p) (size-advance_lt q (name-real (kind_of q) name))
                le))
        λ _. recovered p q _ (named_at-cases p)

  parse_entries-Ends :
      (f : ℕ) (start : Span) (d : Draft) (p : Parser)
      → 2 * size p + 2 ≤ f
      → Ends (Smaller p) (parse_entries f start d p)
  parse_entries-Ends zero start d p h = absurd (omega arith)
  parse_entries-Ends (suc f) start d p h =
      let P = Ends (Smaller {A = Node} p) in
      if_rule P (ends_node (kind_of p)) (λ _. end_node-le start d p)
        λ inside.
          let real = not-eof (kind_of p) inside in
          if_rule P (is_lbrace (kind_of p))
            (λ _.
              then_run-Ends (Smaller (advance p)) (Smaller p) _ _
                (parse_children-Ends f Ast.nil (advance p) (omega (arith, size-advance_lt p real)))
                (λ (ns, q) le.
                  omega (arith, size-advance p, close_children-le start d p.cur.span ns q, le)))
            λ _.
              if_rule P (is_lparen (kind_of p))
                (λ opens.
                  Smaller-weaken p (reject_annotation p) _
                    (omega (arith, size-reject_annotation_lt p real))
                    (parse_entries-Ends f start d (reject_annotation p)
                      (omega (arith, size-reject_annotation_lt p real))))
                λ _.
                  if_rule P (is_slashdash (kind_of p))
                    (λ _.
                      then_run-Ends (λ q. size q < size p) (Smaller p) _ _
                        (skip_slashdashed_component-Ends f p real (omega arith))
                        (λ q lt.
                          Smaller-weaken p q _ (omega arith)
                            (parse_entries-Ends f start d q (omega arith))))
                    λ _.
                      Smaller-weaken p (parse_entry d p).1 _
                        (omega (arith, parse_entry-lt d p real))
                        (parse_entries-Ends f start (parse_entry d p).0 (parse_entry d p).1
                          (omega (arith, parse_entry-lt d p real)))

  parse_children-Ends :
      (f : ℕ) (ns : Nodes) (p : Parser)
      → 2 * size p + 2 ≤ f
      → Ends (Smaller p) (parse_children f ns p)
  parse_children-Ends zero ns p h = absurd (omega arith)
  parse_children-Ends (suc f) ns p h =
      let P = Ends (Smaller {A = Nodes} p) in
      if_rule P (is_eof (kind_of p) || is_rbrace (kind_of p)) (λ _. omega arith)
        λ open_block.
          if_rule P (is_separator (kind_of p))
            (λ sep.
              let lt = size-advance_lt p (separator-real (kind_of p) sep) in
              Smaller-weaken p (advance p) _ (size-advance p)
                (parse_children-Ends f ns (advance p) (omega (arith, lt))))
            λ no_separator.
              let inside = inside-real (kind_of p) open_block no_separator in
              if_rule P (is_slashdash (kind_of p))
                (λ dash.
                  then_run-Ends (λ q. size q < size p) (Smaller p) _ _
                    (skip_slashdashed_node-Ends f p (not-eof (kind_of p) inside) (omega arith))
                    (λ q lt.
                      Smaller-weaken p q _ (omega arith)
                        (parse_children-Ends f ns q (omega arith))))
                λ _.
                  then_run-Ends (SmallerNode p) (Smaller p) _ _ (parse_node-Ends f p (omega arith))
                    (λ (n, q) (le, lt).
                      Smaller-weaken p q _ le
                        (parse_children-Ends f (add_node ns n) q (omega (arith, lt inside))))

  skip_slashdashed_node-Ends :
      (f : ℕ) (p : Parser)
      → is_eof (kind_of p) ≡ false
      → 2 * size p + 1 ≤ f
      → Ends (λ q. size q < size p) (skip_slashdashed_node f p)
  skip_slashdashed_node-Ends zero p real h = absurd (omega arith)
  skip_slashdashed_node-Ends (suc f) p real h =
      let q = skip_slashdash_line_space (advance p) in
      let r = skip_suppressed_annotation q in
      let P = Ends (λ (s : Parser). size s < size p) in
      let short = suppressed-lt p real in
      let shorter = skip_suppressed_annotation-le q in
      if_both P (is_slashdash (kind_of q)) (omega (arith, short, double_slashdash-le q)) (
        if_both P (not (is_name (kind_of r))) (omega (arith, short, shorter)) (
          then_run-Ends (SmallerNode r) (λ s. size s < size p) _ _
            (parse_node-Ends f r (omega (arith, short, shorter)))
            (λ (n, s) (le, _). omega (arith, short, shorter))))

  skip_slashdashed_component-Ends :
      (f : ℕ) (p : Parser)
      → is_eof (kind_of p) ≡ false
      → 2 * size p + 1 ≤ f
      → Ends (λ q. size q < size p) (skip_slashdashed_component f p)
  skip_slashdashed_component-Ends zero p real h = absurd (omega arith)
  skip_slashdashed_component-Ends (suc f) p real h =
      let q = skip_slashdash_line_space (advance p) in
      let r = skip_suppressed_annotation q in
      let P = Ends (λ (s : Parser). size s < size p) in
      let short = suppressed-lt p real in
      let shorter = skip_suppressed_annotation-le q in
      if_both P (is_slashdash (kind_of q)) (omega (arith, short, double_slashdash-le q)) (
        if_rule P (is_lbrace (kind_of r))
          (λ _.
            then_run-Ends (Smaller (advance r)) (λ s. size s < size p) _ _
              (parse_children-Ends f Ast.nil (advance r)
                (omega (arith, short, shorter, size-advance r)))
              (λ (ns, s) le.
                omega (arith, short, shorter, size-advance r, close_skipped_block-le r.cur.span s)))
          λ _. omega (arith, short, shorter, skip_suppressed_value-le p.cur.span r))

document_loop-Ends :
    (f : ℕ) (ns : Nodes) (p : Parser)
    → 2 * size p + 2 ≤ f
    → Ends (λ (r : Nodes × Parser). is_eof (kind_of r.1) ≡ true) (document_loop f ns p)
unfolding document_loop
document_loop-Ends zero ns p h = absurd (omega arith)
document_loop-Ends (suc f) ns p h =
    let Q = λ (r : Nodes × Parser). is_eof (kind_of r.1) ≡ true in
    let P = Ends Q in
    if_rule P (is_eof (kind_of p)) (λ ended. ended)
      λ real.
        let lt = size-advance_lt p real in
        if_rule P (is_separator (kind_of p))
          (λ _. document_loop-Ends f ns (advance p) (omega (arith, lt)))
          λ no_separator.
            if_rule P (is_rbrace (kind_of p))
              (λ _.
                document_loop-Ends f ns (unexpected_brace p)
                  (omega (arith, size-advance_lt (syntax_error p (plain _) p.cur.span) real)))
              λ no_brace.
                let inside = inside-real (kind_of p) (ground arith) no_separator in
                if_rule P (is_slashdash (kind_of p))
                  (λ _.
                    then_run-Ends (λ q. size q < size p) Q _ _
                      (skip_slashdashed_node-Ends f p real (omega arith))
                      (λ q less. document_loop-Ends f ns q (omega arith)))
                  λ _.
                    then_run-Ends (SmallerNode p) Q _ _ (parse_node-Ends f p (omega arith))
                      (λ (n, q) (le, less).
                        document_loop-Ends f (add_node ns n) q (omega (arith, less inside)))

-- On every text `Parse` returns a document and its diagnostics, which are in order: its loops end,
-- and the fuel, twice the number of tokens that can be left, is enough.
pub parse-total :
    (file text : Bytes)
    → (r : Document × List Diagnostic) × (parse file text ≡ some r) × (is_sorted before r.1 ≡ true)
unfolding parse
parse-total file text =
    let p = new_parser file text in
    let (r, ran, _) =
      Ends-value (λ (x : Nodes × Parser). is_eof (kind_of x.1) ≡ true)
        (document_loop (fuel p) Ast.nil p) (document_loop-Ends (fuel p) Ast.nil p (omega arith)) in
    elim (Bool-cases (valid text)) [
      | inl utf8 ↦ (document_of file p.cur.span.start r, rw (utf8, ran), sorted-is_sorted _)
      | inr bad ↦ (reject_encoding file, rw bad, unfold reject_encoding in refl)
    ]
