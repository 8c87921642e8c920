-- ===== src/Executor/Builtins/Wiring.antt =====
-- The built-ins and their contract, as the run of transforms uses them.
use scrape_kdl.Common.Text.{Bytes}
use scrape_kdl.Common.{Option, none, some, map}
use scrape_kdl.Contract.{Definition, Expectation, lookup}
use scrape_kdl.Executor.Builtins.Apply.{apply_builtin_runtime}
use scrape_kdl.Executor.Builtins.Library.{Library}
use scrape_kdl.Executor.Calls.Preflight.{Signature}
use scrape_kdl.Executor.Calls.{TransformRuntime}

abbrev key : Bytes × Expectation → Bytes
key (name, expectation) = name

abbrev signature_of : Option Definition → Option Signature
signature_of none = none
signature_of (some d) = some (record {
  min_positional = d.min_positional;
  max_positional = d.max_positional;
  properties = map key d.properties;
  required = d.required;
})

-- `builtincontract.Lookup`, as the tests before a run use it.
unfoldable pub signature : Bytes → Option Signature
unfolding lookup
signature name = signature_of (lookup name)

-- A runtime with the built-ins of the program.
abbrev pub wired : TransformRuntime → Library → TransformRuntime
wired runtime library = record {
  transforms = runtime.transforms;
  external = runtime.external;
  apply_builtin = apply_builtin_runtime runtime library;
  decode_json = runtime.decode_json;
  numbers = runtime.numbers;
  print_integer = runtime.print_integer;
  deep_equal = runtime.deep_equal;
}
