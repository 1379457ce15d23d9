-- ===== src/Generators/Detect.antt =====
-- internal/eval/eval_generators.go: which function bodies are those of generators.
use kolang.Prelude.{Bool, true, false, ◌||◌}
use kolang.Syntax.{
  Stmt, yield_stmt, yield_from_stmt, if_stmt, while_stmt, for_range, for_in, try_stmt, Block, block,
  Stmts, no_stmts, stmt, OptBlock, no_block, some_block, Elifs, no_elifs, elif, Handlers,
  no_handlers, handler,
}

-- `containsYield`, with the loops on branches and handlers. A body under `with` is not looked into,
-- and no expression is.
unfoldable mutual
  pub contains_yield : {F : Type 0} → Stmts F → Bool
  contains_yield no_stmts = false
  contains_yield (stmt s ss) = in_stmt s || contains_yield ss

  pub in_stmt : {F : Type 0} → Stmt F → Bool
  in_stmt (yield_stmt _ _) = true
  in_stmt (yield_from_stmt _ _) = true
  in_stmt (if_stmt _ _ body elifs last) = contains_yield body || in_opt_block last || in_elifs elifs
  in_stmt (while_stmt _ _ body) = in_block body
  in_stmt (for_range _ _ _ _ _ body) = in_block body
  in_stmt (for_in _ _ _ body) = in_block body
  in_stmt (try_stmt _ body handlers last) =
      in_block body || in_handlers handlers || in_opt_block last
  in_stmt _ = false

  pub in_block : {F : Type 0} → Block F → Bool
  in_block (block _ ss) = contains_yield ss

  pub in_opt_block : {F : Type 0} → OptBlock F → Bool
  in_opt_block no_block = false
  in_opt_block (some_block b) = in_block b

  pub in_elifs : {F : Type 0} → Elifs F → Bool
  in_elifs no_elifs = false
  in_elifs (elif _ _ b rest) = in_block b || in_elifs rest

  pub in_handlers : {F : Type 0} → Handlers F → Bool
  in_handlers no_handlers = false
  in_handlers (handler _ _ _ b rest) = in_block b || in_handlers rest
