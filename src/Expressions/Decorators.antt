-- ===== src/Expressions/Decorators.antt =====
-- internal/eval/eval_decorators.go: `applyDecorators` and `evalDecorator`.
use kolang.Prelude.{ℕ, List, [], ◌∷◌, Text}
use kolang.Syntax.{Expr, ident, call, Exprs, no_exprs, expr, no_kwargs, DecoratorStmt}
use kolang.Control.World.{Step, bind}
use kolang.Expressions.{give}
use kolang.Expressions.Interface.{Machine}
use kolang.Expressions.Evaluate.{eval_expr}

module _ {F S V X : Type 0} (machine : Machine F S V X) where
  abbrev pub decorator_expr : ℕ → Text → Exprs F → Expr F
  decorator_expr line name no_exprs = ident line name
  decorator_expr line name (expr e es) = call line (ident line name) (expr e es) no_kwargs

  -- `evalDecorator`: a name with arguments is called to make the decorator.
  unfoldable pub eval_decorator : DecoratorStmt F → ℕ → Step S V X V
  unfolding eval_expr
  eval_decorator dec env = eval_expr machine (decorator_expr dec.line dec.name dec.args) env

  -- One round of the loop of `applyDecorators`.
  unfoldable pub apply_decorator : DecoratorStmt F → ℕ → V → Step S V X V
  unfolding eval_decorator
  apply_decorator dec env cur =
      bind (eval_decorator dec env) (λ d. machine.call d (cur ∷ []) [] dec.line)

  -- `applyDecorators`: the loop runs from the last decorator to the first.
  unfoldable pub apply_decorators : List (DecoratorStmt F) → ℕ → V → Step S V X V
  unfolding apply_decorator
  apply_decorators [] env fn = give fn
  apply_decorators (dec ∷ decs) env fn =
      bind (apply_decorators decs env fn) (apply_decorator dec env)
