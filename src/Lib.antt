-- ===== src/Lib.antt =====
-- A model of the core of scrape-kdl and its proofs.
--
-- scrape-kdl reads KDL files that describe how to take structured data from web pages, compiles
-- them and runs them. What is modelled, file by file:
--   Source       internal/source/span.go: positions, spans, `Merge`
--   Diagnostic   internal/diagnostic/diagnostic.go: `Add`, `HasErrors`, `Sorted`
--   Typesys      internal/typesys/type.go: `Type`, `Nullable`, `String`, `Equal`, `IsAssignable`,
--                `Parse`, and the tests of a kind (Typesys/Kinds)
--   Kdl          internal/kdl: token.go (Kdl/Token), lexer.go (Kdl/Lexer, with Kdl/Literal for
--                the numbers), ast.go (Kdl/Ast) and parser.go (Kdl/Parser)
--   Dom          internal/dom: the nodes of node.go in a store (Dom), and of selector.go the syntax
--                (Dom/Selector), its parser (Dom/Parser), `matches` of A * n + B (Dom/Nth), the
--                tests of one element (Dom/Match), `matchesComplex` and `QueryLimit` (Dom/Query)
--   Executor     internal/executor: `percentEncode` of template.go (Executor/Template), with the
--                decoding that it is measured by (Executor/Encoding); the values of a run with
--                `matchesRuntimeType` and `isJSONCompatible` of executor.go (Executor/Value), and
--                `validRuntimeType` (Executor/ValidType); `normalizeJSONResult` of browser.go
--                (Executor/Normalize); output_semantics.go and output_walker.go
--                (Executor/Output/Recovery and Walker) with `finalizeResult` of types.go and
--                `executeDocument` (Executor/Output/Result); of transforms.go `applyCalls` and
--                `applyDeclared` (Executor/Calls) and the tests of transforms and calls before a
--                run (Executor/Calls/Preflight); input.go (Executor/Inputs), `expandTemplate` of
--                template.go (Executor/Expand), urlguard.go and `enforceURLPolicy` of policy.go
--                (Executor/Guard); builtins.go (Executor/Builtins: the arguments
--                with json.go in Arguments, the built-ins in Strings, Parse, Regexp, Urls and
--                Asserts, `applyBuiltinRuntime` in Apply, and Wiring, which puts the built-ins and
--                their contract into the run of transforms)
--   Contract     internal/builtincontract/contract.go: the table and `Lookup`
--   Compiler     internal/compiler: the readers and tests of nodes of helpers.go
--                (Compiler/Helpers) and the types of calls of built-ins of builtins.go
--                (Compiler/Builtins), which Compiler/Soundness relates to their runs
--   CanonicalJson  internal/canonicaljson/canonical.go: `appendString`, with the reader of strings
--                of JSON that it is measured by (CanonicalJson/Reader)
--   Limits       internal/limits/duration.go: `Milliseconds`
--   Ir           internal/ir/types.go: the inputs, URL templates, output and transforms of a
--                compiled module
--   Common       lists, bytes, UTF-8, white space and sorting as Go's library defines them
--   Tests        runs on fixed inputs
-- The parser of Kdl pulls tokens from the lexer one ahead, both report to lists of diagnostics,
-- and `Parse` sorts what they reported.
--
-- Text is a list of bytes, each a natural number. A method takes the state and returns the new
-- one: the lexer keeps the text from its offset on in `rest`, the parser its lexer, two tokens
-- and its diagnostics. The messages of `fmt.Sprintf` are kept as the format and its arguments,
-- and the value of a float as the digits that it was read from.
--
-- A loop of the lexer takes the bytes that are left as fuel, since each of its rounds takes one
-- at least. The parser's mutual methods take fuel and return `none` where it runs out; `Parse`
-- gives twice the tokens that can be left, and two. The parser of types takes one more than the
-- length of its text, which bounds the depth of its parentheses; the loops of the parser of
-- selectors and the depth of `:not` are bounded by the same number.
--
-- A pointer to a node is its index in a store, a list of nodes. The loops along pointers and the
-- walk of the tree take the number of nodes as fuel, which no chain of distinct nodes exceeds.
-- Where a theorem needs that the pointers form a tree, its hypothesis is that a node stands behind
-- its parent and its earlier siblings in the store, as in document order.
--
-- What Go's packages do with numbers and JSON is a parameter of the executor's models, and so are
-- the reader of a document, the calls of transforms and the context of the walker, and the
-- built-ins, their signatures and the functions of the host for the calls. The built-ins take
-- the cases of letters, `regexp`, `net/url`, the reading of floats and `math/big` as parameters,
-- and so does the template of the URL. The guard of URLs takes the parser of addresses and the
-- resolver as parameters; an address is a number with its zone, and the methods of `net/netip`
-- on it are written out. A map of inputs is the list of its entries. A message or a path is kept
-- as its parts. The calls of transforms take one more than the number of the transforms as
-- fuel, which bounds the depth of the calls.
--
-- Not modelled: printing (`WriteText`, `WriteJSON`, `Span.String`), the numbers and the order of
-- keys of canonical JSON, the rest of the compiler
-- and of the executor with its fetching and its browser adapters, the HTML parser, the output
-- of HTML, the writer of authoring, the decoding of results by reflection, the command lines and
-- the test drivers.
pub mod CanonicalJson
pub mod Common
pub mod Source
pub mod Diagnostic
pub mod Typesys
pub mod Limits
pub mod Contract
pub mod Ir
pub mod Kdl
pub mod Dom
pub mod Executor
pub mod Compiler
pub mod Tests
