-- ===== src/Control.antt =====
-- internal/eval: control flow. Statements are run through their effects on a `World`.
pub mod World
pub mod Blocks
pub mod Loops
pub mod Try
pub mod Calls
pub mod Program
pub mod Params
