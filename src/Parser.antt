-- ===== src/Parser.antt =====
-- internal/parser/parser.go.
pub mod Core
pub mod Operators
pub mod Items
pub mod Terms
pub mod Expressions
pub mod Signatures
pub mod Simple
pub mod Blocks
pub mod Compound
pub mod Program
pub mod Progress
pub mod Ensures
pub mod Outcome
pub mod RoundTrip
