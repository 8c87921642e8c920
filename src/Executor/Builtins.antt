-- ===== src/Executor/Builtins.antt =====
-- internal/executor/builtins.go: the built-in transforms.
pub mod Library
pub mod Arguments
pub mod Strings
pub mod Parse
pub mod Regexp
pub mod Urls
pub mod Asserts
pub mod Apply
pub mod Wiring
pub mod Slices
pub mod Digits
pub mod IntegerRoundTrip
pub mod Pieces
pub mod Ranges
