-- ===== src/Expressions/Interface.antt =====
-- internal/eval: what the evaluation of an expression asks of the rest of the interpreter. V is the
-- type of values, S the state that a step changes, and an environment is its place in the store.
use kolang.Prelude.{ℕ, Bool, List, Option, Text}
use kolang.Prelude.Int.{ℤ}
use kolang.Syntax.{Number, Expr, Clauses}
use kolang.Control.World.{Step}

pub record Machine (F S V X : Type 0) : Type 0 where
  -- The values of literals; `literal` is `interpolate`.
  pub number : Number F → V
  pub bool : Bool → V
  pub nil : V
  pub literal : ℕ → ℕ → Text → Step S V X V
  -- `Get`, `Set` and `NewEnv` of an environment, and `superMarker`.
  pub get : ℕ → Text → S → Option V
  pub set_name : ℕ → Text → V → S → S
  pub new_env : ℕ → S → S × ℕ
  pub super_marker : ℕ → Step S V X V
  -- `toBool`, `applyBinop`, `inOperator`, and `evalUnary` behind its operand, each with a line.
  pub to_bool : V → ℕ → Step S V X Bool
  pub apply_unary : Text → V → ℕ → Step S V X V
  pub apply_binop : Text → V → V → ℕ → Step S V X V
  pub in_operator : V → V → ℕ → Step S V X V
  -- New objects. Dictionaries and sets are maps from the text that `Stringify` gives.
  pub new_list : List V → Step S V X V
  pub new_tuple : List V → Step S V X V
  pub stringify : V → S → Text
  pub new_dict : List (Text × V) → Step S V X V
  pub new_set : List (Text × V) → Step S V X V
  pub new_channel : ℕ → Step S V X V
  pub new_generator : ℕ → Expr F → Clauses F → ℕ → Step S V X V
  -- `iterValues`, whose error is dropped; a generator runs, and so the state may change.
  pub iter_values : V → S → Option (List V) × S
  -- `call`, and the dispatch of `evalMethodCall`, which evaluates the arguments once it has found
  -- the method, and of `evalPipeMethodCall`, which has them.
  pub call : V → List V → List (Text × V) → ℕ → Step S V X V
  pub call_method : V → Text → Step S V X (List V) → ℕ → ℕ → Step S V X V
  pub pipe_method : V → Text → List V → ℕ → Step S V X V
  -- `evalMemberAccess` and `evalIndex` behind their operands; the bounds of `evalSlice`, and the
  -- rest of it; the size of a channel; `evalRecvExpr`.
  pub attribute : V → Text → ℕ → Step S V X V
  pub index : V → V → ℕ → Step S V X V
  pub slice_bound : V → ℕ → Step S V X ℤ
  pub slice : V → Option ℤ → Option ℤ → Option ℤ → ℕ → Step S V X V
  pub channel_size : V → ℕ → Step S V X ℕ
  pub receive : V → ℕ → Step S V X V
