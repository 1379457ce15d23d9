-- ===== src/Lexer/Nesting.antt =====
-- The nesting of INDENT and DEDENT tokens, and what every operation of internal/lexer/lexer.go
-- that reads a token keeps of it.
pub mod Walk
pub mod Skips
pub mod Reads
pub mod Digits
pub mod Blocks
pub mod Whole
