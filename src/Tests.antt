-- ===== src/Tests.antt =====
-- Each property at a concrete input, and runs of the model.
mod Toys
mod Operating
mod Annotated
mod Parsing
mod Elements
mod Yielding
mod Scan
mod Scopes
mod Numbers
mod Statements
mod Objects
