-- ===== src/Executor.antt =====
-- internal/executor: the parts of the run of a module that are modelled.
pub mod Value
pub mod Normalize
pub mod Integer
mod Primitive
pub mod Conforms
pub mod Assignable
pub mod ValidType
pub mod Output
pub mod Calls
pub mod Builtins
pub mod Template
pub mod Inputs
pub mod Expand
pub mod Guard
pub mod Encoding
