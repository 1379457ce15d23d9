-- ===== src/Expressions.antt =====
-- internal/eval/eval_expr.go: `evalExpr` and its cases; internal/eval/eval_comp.go: comprehensions
-- and the pipe operator. `Machine` has what they call.
pub mod Messages
pub mod Interface
pub mod Nodes
pub mod Evaluate
pub mod Decorators
pub mod Targets
pub mod Literals
pub mod Connected
pub mod Typing
pub mod Safety
pub mod Comprehension
use kolang.Prelude.{
  ℕ, zero, suc, Bool, true, false, List, [], ◌∷◌, ◌++◌, Option, none, some, Text, codes, text_eq,
  insert, if◌then◌else◌,
}
use kolang.Prelude.Int.{ℤ}
use kolang.Token.{and_kw, or_kw, in_kw}
use kolang.Token.Spelling.{spelling}
use kolang.Syntax.{
  Number, Expr, number_lit, str_lit, bool_lit, none_lit, ident, unary, binary_op, call, index,
  slice, member_access, method_call, list_lit, tuple_lit, dict_lit, set_lit, pipe_expr,
  ternary_expr, list_comp, dict_comp, set_comp, gen_exp, channel_lit, recv_expr, yield_expr,
  yield_from_expr, OptExpr, absent, present, Exprs, no_exprs, expr, Kwargs, no_kwargs, kwarg,
  Clauses, no_clauses, clause, line_of,
}
use kolang.Control.World.{Signal, Outcome, ok, err, runtime_error, Step, bind}
use kolang.Expressions.Messages.{
  name_not_found, unknown_expression, attribute_no_name, method_no_name, not_iterable, super_name,
}
use kolang.Expressions.Interface.{Machine}

abbrev pub same_truth : Bool → Bool → Bool
same_truth true b = b
same_truth false true = false
same_truth false false = true

module _ {S V X A : Type 0} where
  abbrev pub give : A → Step S V X A
  give a s = (ok a, s)

  abbrev pub fail : ℕ → Text → Step S V X A
  fail line message s = (err (runtime_error line message), s)

-- A clause of a comprehension: the steps that evaluate its iterable and its filter.
pub record Clause (S V X : Type 0) : Type 0 where
  pub line : ℕ
  pub name : Text
  pub iterable : Step S V X V
  pub filter : Option (Step S V X V)

module _ {F S V X : Type 0} (machine : Machine F S V X) where
  open machine use {
    to_bool, apply_binop, in_operator, get, super_marker, set_name, iter_values, stringify,
  }

  -- `evalExpr` of an `Ident`.
  unfoldable pub eval_ident : ℕ → Text → ℕ → Step S V X V
  unfolding text_eq
  eval_ident line name env s =
      if text_eq name super_name then super_marker line s else elim (get env name s) [
        | none ↦ fail line (name_not_found ++ name) s
        | some v ↦ (ok v, s)
      ]

  -- The operators «and» and «or» of `evalBinary`: `stop` is the left operand that decides.
  unfoldable pub short_circuit : Bool → ℕ → Step S V X V → Step S V X V → Step S V X V
  short_circuit stop line left right = bind left (λ l. bind (to_bool l line) (λ b.
      if same_truth b stop
      then give (machine.bool stop)
      else bind right (λ r. bind (to_bool r line) (λ c. give (machine.bool c)))))

  -- `evalBinary`, with the steps that evaluate its operands.
  unfoldable pub eval_binary : ℕ → Text → Step S V X V → Step S V X V → Step S V X V
  unfolding text_eq spelling short_circuit
  eval_binary line op left right s =
      if text_eq op (spelling and_kw)
      then short_circuit false line left right s
      else if text_eq op (spelling or_kw)
      then short_circuit true line left right s
      else if text_eq op (spelling in_kw)
      then bind left (λ l. bind right (λ r. in_operator l r line)) s
      else bind left (λ l. bind right (λ r. apply_binop op l r line)) s

  -- The conditional expression.
  unfoldable pub eval_ternary : ℕ → Step S V X V → Step S V X V → Step S V X V → Step S V X V
  eval_ternary line cond on_true on_false =
      bind cond (λ c. bind (to_bool c line) (λ b. if b then on_true else on_false))

  -- `if id, ok := n.(*ast.Ident)`.
  abbrev pub name_of : Expr F → Option Text
  name_of (ident l name) = some name
  name_of _ = none

  abbrev pub with_name :
      {A : Type 0} → ℕ → Text → Option Text → (Text → Step S V X A) → Step S V X A
  with_name line message none k = fail line message
  with_name line message (some name) k = k name

  -- The entries of a dictionary literal. The parser gives each key a value.
  unfoldable pub eval_pairs :
      List (Step S V X V) → List (Step S V X V) → List (Text × V) → Step S V X (List (Text × V))
  eval_pairs (key ∷ keys) (value ∷ values) m =
      bind key (λ k. bind value (λ v s. eval_pairs keys values (insert (stringify k s) v m) s))
  eval_pairs _ _ m = give m

  -- The filter of a clause: whether the item is kept.
  unfoldable pub passes : ℕ → Option (Step S V X V) → Step S V X Bool
  passes line none = give true
  passes line (some filter) = bind filter (λ f. to_bool f line)

  -- `NewEnv(env)`, and what happens in it.
  abbrev pub in_scope : {A : Type 0} → ℕ → (ℕ → Step S V X A) → Step S V X A
  in_scope env k s = k (machine.new_env env s).1 (machine.new_env env s).0

  -- The loop of `compRec` over the items of one clause: the name is bound in the scope of the
  -- comprehension, and the item is passed over where the filter is false.
  unfoldable pub comp_items :
      {B : Type 0} → (B → Step S V X B) → ℕ → Clause S V X → List V → B → Step S V X B
  unfolding passes
  comp_items inner env cl [] out s = (ok out, s)
  comp_items inner env cl (v ∷ vs) out s =
      let again = comp_items inner env cl vs in
      bind (passes cl.line cl.filter) (λ b. bind (if b then inner out else give out) again)
        (set_name env cl.name v s)

  -- A clause behind its iterable.
  unfoldable pub comp_clause :
      {B : Type 0}
      → (B → Step S V X B)
      → ℕ
      → Clause S V X
      → B
      → Option (List V) × S
      → Outcome V X B × S
  unfolding comp_items
  comp_clause inner env cl out (none, s) = fail cl.line not_iterable s
  comp_clause inner env cl out (some vs, s) = comp_items inner env cl vs out s

  -- `compRec`: `emit` is called for each element, with what has been collected so far.
  unfoldable pub comp_rec :
      {B : Type 0} → ℕ → (B → Step S V X B) → List (Clause S V X) → B → Step S V X B
  unfolding comp_clause
  comp_rec env emit [] out = emit out
  comp_rec env emit (cl ∷ cls) out =
      bind cl.iterable (λ it s. comp_clause (comp_rec env emit cls) env cl out (iter_values it s))
