-- ===== src/Compiler.antt =====
-- internal/compiler: the parts of the compiler that are modelled.
pub mod Helpers
pub mod Builtins
pub mod Values
pub mod Strings
pub mod Numbers
pub mod Asserts
pub mod Soundness
pub mod Pipelines
