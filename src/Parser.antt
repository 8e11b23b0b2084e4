-- ===== src/Parser.antt =====
-- internal/parser: the parser of expressions.
pub mod Classify
pub mod State
pub mod Recovery
pub mod Levels
pub mod Function
pub mod Call
pub mod Primary
mod Scenarios
