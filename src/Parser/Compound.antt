-- ===== src/Parser/Compound.antt =====
-- internal/parser/parser.go: conditions, and the statements that hold blocks. `item` is
-- `parseStatement`.
use kolang.Prelude.{ℕ, zero, suc, [], Option, Bool, true, false, ◌||◌, Text, text_eq}
use kolang.Token.{
  Token, TokenType, cop_pos, cop_neg, equal, less, greater, less_equal, greater_equal, in_kw, if_kw,
  else_kw, lparen, rparen, sep, from_kw, to_kw, step_kw, as_kw, ident, import, input, colon,
  finally,
}
use kolang.Token.Spelling.{spelling, same_type}
use kolang.Syntax.{
  Expr, absent, present, Exprs, no_exprs, expr, Stmt, OptBlock, no_block, some_block, Elifs,
  no_elifs, elif, Handlers, no_handlers, handler, bool_lit, unary, binary_op, if_stmt, while_stmt,
  for_range, for_in, with_stmt, from_import_stmt, try_stmt,
}
use kolang.Parser.Core.{
  Depth, no_depth, Message, condition_copula, condition_kind, loop_name, loop_tuple_name, for_head,
  with_name, module_name, member_name, alias_name, about, Parser, pure, fail, asking, take,
  take_before, see_before, choose, looped, out_of_fuel, ◌>>=◌, ◌>>◌, is_name, next, expect,
  expect_name,
}
use kolang.Parser.Items.{expression}
use kolang.Parser.Expressions.{in_cond, negated}
use kolang.Parser.Blocks.{parse_block, stmts_of, block_line}

-- `isComparisonOp`.
unfoldable pub is_comparison_op : Text → Bool
unfolding text_eq
is_comparison_op op =
    text_eq op (spelling equal)
    || text_eq op (spelling less)
    || text_eq op (spelling greater)
    || text_eq op (spelling less_equal)
    || text_eq op (spelling greater_equal)
    || text_eq op (spelling in_kw)

module _ {F : Type 0} where
  unfoldable pub is_condition : Expr F → Bool
  unfolding is_comparison_op
  is_condition (bool_lit _ _) = true
  is_condition (unary _ _ _) = true
  is_condition (binary_op _ op _ _) = is_comparison_op op
  is_condition _ = false

  -- `checkCondition`, of a condition that is then returned.
  unfoldable pub checked : Expr F → Parser F (Expr F)
  unfolding is_condition
  checked e = choose (is_condition e) (pure e) (fail (about condition_kind []))

module _ {F : Type 0} (again : Depth → ℕ → Parser F (Expr F)) where
  unfoldable pub parse_condition : Parser F (Expr F)
  unfolding expression checked
  parse_condition = do
    e ← expression again (in_cond no_depth)
    take cop_pos (λ _. checked e)
        (take cop_neg (λ _. checked (negated e)) (fail (about condition_copula [])))

module _ {F : Type 0} (again : Depth → ℕ → Parser F (Expr F))
    (item : Parser F (Option (Stmt F))) where
  unfoldable pub elses : ℕ → Parser F (Elifs F × OptBlock F)
  unfolding parse_condition parse_block
  elses zero = out_of_fuel
  elses (suc n) =
      take else_kw
        (λ _.
          take if_kw
            (λ _. do
              c ← parse_condition again
              b ← parse_block item
              rest ← elses n
              pure (elif (block_line b) c b rest.0, rest.1))
            do b ← parse_block item; pure (no_elifs, some_block b))
        (pure (no_elifs, no_block))

  -- `parseIf` and `parseWhile`, behind their keywords.
  unfoldable pub parse_if : Token → Parser F (Stmt F)
  unfolding parse_condition parse_block elses
  parse_if tk = do
    c ← parse_condition again
    body ← parse_block item
    rest ← looped elses
    pure (if_stmt tk.line c (stmts_of body) rest.0 rest.1)

  unfoldable pub parse_while : Token → Parser F (Stmt F)
  unfolding parse_condition parse_block
  parse_while tk = do
    c ← parse_condition again
    body ← parse_block item
    pure (while_stmt tk.line c body)

module _ {F : Type 0} where
  -- The variables of a loop: the first one, and the others.
  unfoldable pub loop_vars : Message → ℕ → Parser F (Expr F × Exprs F)
  unfolding is_name expect_name
  loop_vars message zero = out_of_fuel
  loop_vars message (suc n) = do
    v ← expect_name is_name message
    take sep
        (λ _. do rest ← loop_vars message n; pure (Expr.ident v.line v.literal, expr rest.0 rest.1))
        (pure (Expr.ident v.line v.literal, no_exprs))

  unfoldable pub loop_head : Parser F (Expr F × Exprs F)
  unfolding loop_vars expect
  loop_head =
      take lparen (λ _. do vs ← looped (loop_vars loop_tuple_name); expect rparen; pure vs)
        (looped (loop_vars loop_name))

  -- The name behind an `as`, if there is one.
  unfoldable pub alias_if : (TokenType → Bool) → Message → Parser F Text
  unfolding expect_name
  alias_if test message =
      take as_kw (λ _. do t ← expect_name test message; pure t.literal) (pure [])

module _ {F : Type 0} (again : Depth → ℕ → Parser F (Expr F))
    (item : Parser F (Option (Stmt F))) where
  -- `parseFor`, behind its keyword. A range takes the first variable alone.
  unfoldable pub for_range_rest : Token → Expr F → Parser F (Stmt F)
  unfolding expression expect parse_block
  for_range_rest tk var = do
    start ← expression again no_depth
    expect to_kw
    end ← expression again no_depth
    step ← take step_kw (λ _. do e ← expression again no_depth; pure (present e)) (pure absent)
    body ← parse_block item
    pure (for_range tk.line var start end step body)

  unfoldable pub parse_for : Token → Parser F (Stmt F)
  unfolding expression loop_head for_range_rest parse_block
  parse_for tk = do
    vars ← loop_head
    take from_kw (λ _. for_range_rest tk vars.0)
        (take in_kw
          (λ _. do
            iter ← expression again no_depth
            body ← parse_block item
            pure (for_in tk.line (expr vars.0 vars.1) iter body))
          (asking λ t. fail (about for_head t.literal)))

  -- `parseWith`, behind its keyword.
  unfoldable pub parse_with : Token → Parser F (Stmt F)
  unfolding expression alias_if is_name parse_block
  parse_with tk = do
    ctx ← expression again no_depth
    name ← alias_if is_name with_name
    body ← parse_block item
    pure (with_stmt tk.line ctx name (stmts_of body))

  unfoldable pub handlers_loop : ℕ → Parser F (Handlers F)
  unfolding expression alias_if parse_block
  handlers_loop zero = out_of_fuel
  handlers_loop (suc n) =
      take_before input colon
        (λ tk. do
          body ← parse_block item
          rest ← handlers_loop n
          pure (handler tk.line absent [] body rest))
        (see_before ident input
          (asking λ tk. do
            e ← expression again no_depth
            next
            alias ← alias_if (same_type ident) alias_name
            body ← parse_block item
            rest ← handlers_loop n
            pure (handler tk.line (present e) alias body rest))
          (pure no_handlers))

  -- `parseTry`, behind its keyword.
  unfoldable pub parse_try : Token → Parser F (Stmt F)
  unfolding parse_block handlers_loop
  parse_try tk = do
    body ← parse_block item
    handlers ← looped handlers_loop
    last ← take finally (λ _. do b ← parse_block item; pure (some_block b)) (pure no_block)
    pure (try_stmt tk.line body handlers last)

module _ {F : Type 0} where
  -- `parseFromImport`, behind its keyword.
  unfoldable pub parse_from_import : Token → Parser F (Stmt F)
  unfolding expect_name alias_if expect
  parse_from_import tk = do
    m ← expect_name (same_type ident) module_name
    name ← expect_name (same_type ident) member_name
    alias ← alias_if (same_type ident) alias_name
    expect import
    pure (from_import_stmt tk.line m.literal name.literal alias)
