-- ===== src/Tests.antt =====
-- Runs of the models on inputs that can be followed in the source.
mod CanonicalJson
mod Kdl
mod Typesys
mod Diagnostic
mod Dom
mod Executor
mod Values
mod Output
mod Calls
mod Builtins
mod Inputs
mod Guard
