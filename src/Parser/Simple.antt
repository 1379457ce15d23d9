-- ===== src/Parser/Simple.antt =====
-- internal/parser/parser.go: the statements that begin with an expression.
use kolang.Prelude.{
  ℕ, zero, suc, [], Option, some, none, Bool, true, false, not, ◌&&◌, ◌||◌, ◌==◌, Text,
}
use kolang.Token.{
  Token, TokenType, sep, send, close, defer, colon, assign, plus_eq, minus_eq, star_eq, div_eq,
  floordiv_eq, pow_eq, percent_eq, import, return, raise, print, input, beh, append, from_kw,
  remove, newline, dedent, eof, yield, yieldfrom,
}
use kolang.Token.Spelling.{spelling, same_type}
use kolang.Syntax.{
  Expr, Exprs, no_exprs, expr, Stmt, line_of, ident, send_stmt, close_stmt, defer_stmt,
  multi_assign, compound_assign, import_stmt, return_stmt, raise_stmt, print_stmt, input_stmt,
  append_stmt, remove_stmt, expr_stmt, yield_stmt, yield_from_stmt,
}
use kolang.Parser.Core.{
  Depth, no_depth, Message, send_one, close_one, defer_one, annotation_value, import_one,
  import_name, raise_one, input_one, list_unexpected, yield_one, yield_from_one, unexpected_after,
  counts_differ, compound_one, about, Parser, pure, fail, asking, see, take, take_if, see_if,
  choose, looped, out_of_fuel, ◌>>=◌, ◌>>◌, expect, next,
}
use kolang.Parser.Items.{expression}
use kolang.Parser.Signatures.{read_type_ann}

module _ {F : Type 0} where
  abbrev pub count : Exprs F → ℕ
  count no_exprs = 0
  count (expr e es) = suc (count es)

  unfoldable pub is_ident : Expr F → Bool
  is_ident (ident _ _) = true
  is_ident _ = false

  -- What is done if no expression follows the first one of a list.
  unfoldable pub only : {A : Type 0} → Message → Exprs F → Parser F A → Parser F A
  unfolding fail
  only message rest m = choose (count rest == 0) m (fail (about message []))

  unfoldable pub name_of : Expr F → Option Text
  name_of (ident _ name) = some name
  name_of _ = none

  unfoldable pub import_of : ℕ → Option Text → Parser F (Stmt F)
  import_of line (some name) = pure (import_stmt line name)
  import_of line none = fail (about import_name [])

-- The tokens that `parseAssignment` is called for.
unfoldable pub is_assignment : TokenType → Bool
is_assignment t =
    same_type assign t
    || same_type plus_eq t
    || same_type minus_eq t
    || same_type star_eq t
    || same_type div_eq t
    || same_type floordiv_eq t
    || same_type pow_eq t
    || same_type percent_eq t

unfoldable pub ends_statement : TokenType → Bool
ends_statement t = same_type newline t || same_type dedent t || same_type eof t

module _ {F : Type 0} (again : Depth → ℕ → Parser F (Expr F)) where
  -- The expressions behind the first one of a list.
  unfoldable pub more_exprs : ℕ → Parser F (Exprs F)
  unfolding expression
  more_exprs zero = out_of_fuel
  more_exprs (suc n) =
      take sep (λ _. do e ← expression again no_depth; rest ← more_exprs n; pure (expr e rest))
        (pure no_exprs)

  -- `parseAssignment`, behind the operator.
  unfoldable pub parse_assignment : Expr F → Exprs F → Token → Parser F (Stmt F)
  unfolding expression more_exprs
  parse_assignment target targets op = do
    value ← expression again no_depth
    values ← looped more_exprs
    choose (same_type assign op.type)
        (choose ((count targets == 0) && (count values == 0))
          (pure (Stmt.assign (line_of target) target value []))
          (choose (not (count values == 0) && not (count targets == count values))
            (fail (about counts_differ []))
            (pure (multi_assign (line_of target) (expr target targets) (expr value values)))))
        (only compound_one targets
          (pure (compound_assign (line_of target) (spelling op.type) target value)))

  -- The rest of an annotated assignment, behind the colon.
  unfoldable pub annotated : Expr F → Parser F (Stmt F)
  unfolding expression read_type_ann
  annotated id = do
    ann ← read_type_ann assign
    take assign
        (λ _. do value ← expression again no_depth; pure (Stmt.assign (line_of id) id value ann))
        (fail (about annotation_value []))

  -- The object of an `append` or a `remove`, and the verb.
  unfoldable pub object : TokenType → Parser F (Expr F)
  unfolding expression
  object verb = do obj ← expression again no_depth; expect verb; pure obj

module _ {F : Type 0} (again : Depth → ℕ → Parser F (Expr F)) where
  -- The rest of the table of verbs.
  unfoldable pub verb_rest : Expr F → Exprs F → Parser F (Stmt F)
  unfolding object only
  verb_rest first rest =
      take beh (λ _. do obj ← object again append; pure (append_stmt (line_of first) obj first))
        (take from_kw
          (λ _. do obj ← object again remove; pure (remove_stmt (line_of first) obj first))
          (see_if ends_statement
            (only list_unexpected rest (pure (expr_stmt (line_of first) first)))
            (take yield (λ _. only yield_one rest (pure (yield_stmt (line_of first) first)))
              (take yieldfrom
                (λ _. only yield_from_one rest (pure (yield_from_stmt (line_of first) first)))
                (asking λ tk. fail (about unexpected_after tk.literal))))))

  -- What follows the expressions of a statement.
  unfoldable pub verb_final : Expr F → Exprs F → Parser F (Stmt F)
  unfolding expression annotated parse_assignment name_of import_of only verb_rest
  verb_final first rest =
      see send
        (only send_one rest
          do next; value ← expression again no_depth; pure (send_stmt (line_of first) first value))
        (see close (only close_one rest do next; pure (close_stmt (line_of first) first)) (
          take defer (λ _. only defer_one rest (pure (defer_stmt (line_of first) first)))
            (take_if (λ t. same_type colon t && (count rest == 0) && is_ident first)
              (λ _. annotated again first)
              (take_if is_assignment (parse_assignment again first rest) (
                take import (λ _. only import_one rest (import_of (line_of first) (name_of first)))
                  (take return (λ _. pure (return_stmt (line_of first) (expr first rest)))
                    (take raise (λ _. only raise_one rest (pure (raise_stmt (line_of first) first)))
                      (take print (λ _. pure (print_stmt (line_of first) (expr first rest)))
                        (take input
                          (λ _. only input_one rest (pure (input_stmt (line_of first) first)))
                          (verb_rest first rest))))))))))

  -- `parseExprStatement`.
  unfoldable pub parse_expr_statement : Parser F (Stmt F)
  unfolding expression more_exprs verb_final
  parse_expr_statement = do
    first ← expression again no_depth
    rest ← looped (more_exprs again)
    verb_final first rest
