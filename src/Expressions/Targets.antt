-- ===== src/Expressions/Targets.antt =====
-- internal/eval/eval_assign.go: `assign`, to the target of an assignment.
use kolang.Prelude.{ℕ, Option, none, some, Text}
use kolang.Syntax.{Expr, ident, member_access, index, line_of}
use kolang.Control.World.{ok, Step, bind}
use kolang.Expressions.Messages.{no_target}
use kolang.Expressions.Interface.{Machine}
use kolang.Expressions.{fail, name_of}
use kolang.Expressions.Evaluate.{eval_expr}

-- `Assign` of an environment, `setAttr` and `setIndex`, and the panic of an attribute that is no
-- name, which the parser does not make.
pub record Writes (S V X : Type 0) : Type 0 where
  pub assign_name : ℕ → Text → V → S → S
  pub set_attr : V → Text → V → ℕ → Step S V X (Unit {0})
  pub set_index : V → V → V → ℕ → Step S V X (Unit {0})
  pub no_name : Step S V X (Unit {0})

module _ {F S V X : Type 0} (machine : Machine F S V X) (writes : Writes S V X) where
  abbrev pub set_named : V → Option Text → V → ℕ → Step S V X (Unit {0})
  set_named r none v line = writes.no_name
  set_named r (some attr) v line = writes.set_attr r attr v line

  -- `assign`: the parts of the target are evaluated behind the value.
  unfoldable pub assign : Expr F → V → ℕ → Step S V X (Unit {0})
  unfolding eval_expr line_of
  assign (ident l name) v env s = (ok tt, writes.assign_name env name v s)
  assign (member_access l receiver attr) v env s =
      bind (eval_expr machine receiver env) (λ r. set_named r (name_of machine attr) v l) s
  assign (index l target i) v env s =
      bind (eval_expr machine target env)
        (λ r. bind (eval_expr machine i env) (λ k. writes.set_index r k v l)) s
  assign target v env s = fail (line_of target) no_target s
