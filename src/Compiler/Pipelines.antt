-- ===== src/Compiler/Pipelines.antt =====
-- Calls that the compiler has typed, in a run with the built-ins of the program.
use scrape_kdl.Common.Outcome.{ok, err}
use scrape_kdl.Common.Text.{Bytes}
use scrape_kdl.Common.{List, ◌≡◌}
use scrape_kdl.Compiler.Builtins.{apply_builtin}
use scrape_kdl.Compiler.Numbers.{SingleFloats}
use scrape_kdl.Compiler.Soundness.{CopiedFrom, apply_builtin_runtime-Gives}
use scrape_kdl.Compiler.Values.{Gives}
use scrape_kdl.Executor.Builtins.Apply.{apply_builtin_runtime}
use scrape_kdl.Executor.Builtins.Arguments.{Result}
use scrape_kdl.Executor.Builtins.Library.{Library}
use scrape_kdl.Executor.Builtins.Wiring.{signature, wired}
use scrape_kdl.Executor.Calls.Preflight.{
  preflight_transforms, preflight_calls, preflight_call_continuity,
}
use scrape_kdl.Executor.Calls.Returns.{
  Has, Returns, TypedBuiltins, PrintableExternals, SoundCalls, SoundTransforms,
}
use scrape_kdl.Executor.Calls.Typed.{apply_calls-Returns}
use scrape_kdl.Executor.Calls.{TransformRuntime, apply_calls}
use scrape_kdl.Executor.Output.Recovery.{OutputPath}
use scrape_kdl.Executor.Value.{Value}
use scrape_kdl.Ir.{TransformCall}
use scrape_kdl.Kdl.Ast.{Node}
use scrape_kdl.Typesys.{Ty}

module _ (runtime : TransformRuntime) (library : Library) where
  -- A call of a built-in with the output that the compiler computes for its node.
  abbrev pub Compiled : Bytes → TransformCall → Type 0
  Compiled name call =
      (n : Node) × CopiedFrom runtime library n call
      × (apply_builtin name call.input n ≡ ok call.output)

  given_Has :
      (t : Ty) (r : Result Value) (w : Value) → Gives runtime t r → r ≡ ok w → Has runtime t w
  given_Has t (err e) w h k = absurd cc
  given_Has t (ok v) w h k = let same : v ≡ w = cc in rw (← same) h

  Compiled-TypedBuiltins :
      SingleFloats runtime library → TypedBuiltins (wired runtime library) Compiled
  Compiled-TypedBuiltins narrows name v w call (n, copied, typed) has e =
      given_Has call.output (apply_builtin_runtime runtime library name v call) w
        (apply_builtin_runtime-Gives runtime library narrows name call.input n call v copied typed
          has)
        e

  -- Compiled transforms keep the types that the compiler gave to their calls: where every call of a
  -- built-in has the output that applyBuiltin returned for its node, and the transforms and the
  -- calls passed the tests before a run, with the contract of the built-ins, applyCalls with the
  -- built-ins of the program takes a value of the first type that is compatible with JSON to an
  -- error or to such a value of the last type. The functions of the host are assumed to return
  -- values that are compatible with JSON, and strconv.ParseFloat to read with 32 bits only floats
  -- that a float32 holds.
  pub apply_calls-wired-Returns :
      SingleFloats runtime library
      → PrintableExternals runtime
      → (calls : List TransformCall) (initial expected : Ty) (path place : OutputPath) (v : Value)
      → preflight_transforms (wired runtime library) signature runtime.transforms ≡ ok tt
      → preflight_calls (wired runtime library) signature calls path ≡ ok tt
      → preflight_call_continuity calls initial expected path ≡ ok tt
      → SoundTransforms Compiled runtime.transforms
      → SoundCalls Compiled calls
      → Has runtime initial v
      → Returns runtime expected (apply_calls (wired runtime library) place calls v)
  apply_calls-wired-Returns narrows externals calls initial expected path place v =
      apply_calls-Returns (wired runtime library) signature Compiled
        (Compiled-TypedBuiltins narrows) externals calls initial expected path place v
