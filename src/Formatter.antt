-- ===== src/Formatter.antt =====
-- internal/formatter: the canonical text of expressions.
pub mod Unparse
pub mod Feed
pub mod Apart
pub mod Operators
pub mod Loops
pub mod Quiet
pub mod Chains
pub mod Primaries
pub mod Reading
pub mod Postfix
pub mod Sequences
pub mod Readable
pub mod Read
pub mod Leaves
pub mod Composites
pub mod RoundTrip
mod Scenarios
