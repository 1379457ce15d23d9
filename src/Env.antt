-- ===== src/Env.antt =====
-- internal/eval/eval.go, the type `Env`: lexical scopes, bindings and declarations. The children
-- hold the store of scopes, its operations, and what is proved of them.
pub mod Store
pub mod Chain
pub mod Binding
pub mod Define
