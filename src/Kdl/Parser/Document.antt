-- ===== src/Kdl/Parser/Document.antt =====
-- `parseDocument` and `Parse`.
use scrape_kdl.Common.Text.{Bytes, codes}
use scrape_kdl.Common.Utf8.{valid}
use scrape_kdl.Common.{
  ℕ, zero, suc, ◌+◌, ◌*◌, List, [], ◌∷◌, ◌++◌, Option, none, some, if◌then◌else◌,
}
use scrape_kdl.Diagnostic.{Diagnostic, plain, error, sorted}
use scrape_kdl.Kdl.Ast.{Node, Nodes, Document}
use scrape_kdl.Kdl.Ast
use scrape_kdl.Kdl.Lexer.Next.{next}
use scrape_kdl.Kdl.Lexer.{new_lexer}
use scrape_kdl.Kdl.Parser.Entries.{parse_node, skip_slashdashed_node, add_node, then_run}
use scrape_kdl.Kdl.Parser.{
  Parser, advance, syntax_error, kind_of, is_eof, is_separator, is_rbrace, is_slashdash, size,
}
use scrape_kdl.Source.{Position, Span}

abbrev pub unexpected_brace : Parser → Parser
unexpected_brace p = advance (syntax_error p (plain (codes "unexpected closing brace")) p.cur.span)

-- The loop of `parseDocument`, with the nodes read so far.
unfoldable pub document_loop : ℕ → Nodes → Parser → Option (Nodes × Parser)
document_loop zero ns p = none
document_loop (suc f) ns p =
    let separated = document_loop f ns (advance p) in
    let braced = document_loop f ns (unexpected_brace p) in
    let suppressed = then_run (skip_slashdashed_node f p) (document_loop f ns) in
    let child = then_run (parse_node f p) (λ (n, q). document_loop f (add_node ns n) q) in
    if is_eof (kind_of p)
    then some (ns, p)
    else if is_separator (kind_of p)
    then separated
    else if is_rbrace (kind_of p)
    then braced
    else if is_slashdash (kind_of p)
    then suppressed
    else child

-- The lexer with its first two tokens read.
unfoldable pub new_parser : Bytes → Bytes → Parser
new_parser path text =
    let (t, l) = next (new_lexer path text) in
    let (u, m) = next l in record { lex = m; cur = t; peek = u; diags = [] }

abbrev pub document_of : Bytes → Position → Nodes × Parser → Document × List Diagnostic
document_of file from (ns, p) = (
  record {
    path = file;
    nodes = ns;
    span = record { file = file; start = from; stop = p.cur.span.stop };
  },
  sorted (p.diags ++ p.lex.diags),
)

abbrev pub first_position : Position
first_position = record { offset = 0; line = 1; column = 1 }

abbrev pub empty_span : Bytes → Span
empty_span file = record { file = file; start = first_position; stop = first_position }

-- The result for a text that is not valid UTF-8.
unfoldable pub reject_encoding : Bytes → Document × List Diagnostic
reject_encoding file = (
  record { path = file; nodes = Ast.nil; span = empty_span file },
  record {
    code = codes "E_KDL_SYNTAX";
    severity = error;
    message = plain (codes "document is not valid UTF-8");
    span = empty_span file;
    path = [];
  }
      ∷ [],
)

-- The fuel that a parser with this much text left can use at most.
abbrev pub fuel : Parser → ℕ
fuel p = 2 * size p + 2

-- The function `Parse`.
unfoldable pub parse : Bytes → Bytes → Option (Document × List Diagnostic)
parse file text =
    let p = new_parser file text in
    let run = document_loop (fuel p) Ast.nil p in
    if valid text
    then then_run run (λ r. some (document_of file p.cur.span.start r))
    else some (reject_encoding file)
