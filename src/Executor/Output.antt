-- ===== src/Executor/Output.antt =====
-- internal/executor/output_semantics.go and output_walker.go: the walk over the output of a module.
-- Each method takes the warnings and the mark for partial results, which the walker points to, and
-- returns them with its result or its error.
pub mod Recovery
pub mod Walker
pub mod Shape
pub mod Post
pub mod Steps
pub mod Result
pub mod Fits
pub mod Ran
pub mod Skips
