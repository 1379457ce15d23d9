-- ===== src/Lexer.antt =====
-- internal/lexer/lexer.go: the scanner. Its children hold the operations and what is proved of them.
pub mod State
pub mod Chars
pub mod Strconv
pub mod Skip
pub mod Indent
pub mod Words
pub mod Numbers
pub mod Operators
pub mod Run
pub mod Nesting
