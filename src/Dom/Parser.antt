-- ===== src/Dom/Parser.antt =====
-- internal/dom/selector.go: the parser of selectors. A method takes the cursor and returns the new
-- one; `not` hands its argument to a parser of its own, and fuel bounds the depth of that.
pub mod Cursor
pub mod Attribute
pub mod Nth
pub mod Pseudo
pub mod Compound
pub mod Complex
mod Post
mod Shape
mod AttributeShape
mod PseudoShape
mod CompoundShape
pub mod WellFormed
