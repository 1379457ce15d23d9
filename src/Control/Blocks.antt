-- ===== src/Control/Blocks.antt =====
-- internal/eval: blocks, the top level, and the conditional statement.
use kolang.Prelude.{List, [], ◌∷◌, Option, none, some, Bool, if◌then◌else◌}
use kolang.Control.World.{ok, Step, bind}

module _ {S V X : Type 0} where
  -- `evalBlock`: the value of the last statement, or the first signal.
  unfoldable pub eval_block : V → List (Step S V X V) → Step S V X V
  eval_block last [] s = (ok last, s)
  eval_block last (st ∷ rest) s = bind st (λ v. eval_block v rest) s

  -- `toBool`: only a bool is a condition.
  unfoldable pub to_bool : (V → Option Bool) → Step S V X Bool → V → Step S V X Bool
  to_bool as_bool raise_type v s = elim (as_bool v) [ none ↦ raise_type s | some b ↦ (ok b, s) ]

  -- The branches of an `IfStmt`: each condition with its block, and the last block, if any. A
  -- condition is an expression evaluated and passed through `to_bool`.
  unfoldable pub eval_elifs :
      V → List (Step S V X Bool × Step S V X V) → Option (Step S V X V) → Step S V X V
  eval_elifs nil [] none s = (ok nil, s)
  eval_elifs nil [] (some otherwise) s = otherwise s
  eval_elifs nil ((cond, body) ∷ rest) otherwise s =
      bind cond (λ b. if b then body else eval_elifs nil rest otherwise) s

  -- `evalIf`.
  unfoldable pub eval_if :
      V
      → Step S V X Bool
      → Step S V X V
      → List (Step S V X Bool × Step S V X V)
      → Option (Step S V X V)
      → Step S V X V
  unfolding eval_elifs
  eval_if nil cond body elifs otherwise s =
      bind cond (λ b. if b then body else eval_elifs nil elifs otherwise) s
