-- ===== src/Expressions/Evaluate.antt =====
-- internal/eval/eval_expr.go and eval_comp.go: `evalExpr` over the whole syntax tree.
use kolang.Prelude.{ℕ, List, [], ◌∷◌, Option, none, some, Text, insert}
use kolang.Syntax.{
  Expr, number_lit, str_lit, bool_lit, none_lit, ident, unary, binary_op, call, index, slice,
  member_access, method_call, list_lit, tuple_lit, dict_lit, set_lit, pipe_expr, ternary_expr,
  list_comp, dict_comp, set_comp, gen_exp, channel_lit, recv_expr, yield_expr, yield_from_expr,
  OptExpr, absent, present, Exprs, no_exprs, expr, Kwargs, no_kwargs, kwarg, Clauses, no_clauses,
  clause, line_of,
}
use kolang.Control.World.{Step, bind}
use kolang.Expressions.Messages.{unknown_expression}
use kolang.Expressions.Interface.{Machine}
use kolang.Expressions.{
  give, fail, eval_ident, eval_binary, eval_ternary, name_of, Clause, in_scope, eval_pairs,
}
use kolang.Expressions.Nodes.{
  eval_call, eval_method_call, eval_member_access, eval_index, eval_slice, eval_pipe_call,
  eval_pipe_method, eval_pipe, eval_list_comp, eval_dict_comp, eval_set_comp, eval_channel_lit,
  eval_recv_expr,
}

module _ {F S V X : Type 0} (machine : Machine F S V X) where
  unfoldable mutual
    unfolding eval_ident eval_binary eval_ternary eval_pairs line_of eval_call eval_method_call
        eval_member_access eval_index eval_slice eval_pipe_call eval_pipe_method eval_pipe
        eval_list_comp eval_dict_comp eval_set_comp eval_channel_lit eval_recv_expr

    -- `evalExpr`.
    pub eval_expr : Expr F → ℕ → Step S V X V
    eval_expr (number_lit l n) env = give (machine.number n)
    eval_expr (str_lit l raw) env = machine.literal l env raw
    eval_expr (bool_lit l b) env = give (machine.bool b)
    eval_expr (none_lit l) env = give machine.nil
    eval_expr (ident l name) env = eval_ident machine l name env
    eval_expr (unary l op e) env = bind (eval_expr e env) (λ v. machine.apply_unary op v l)
    eval_expr (binary_op l op left right) env =
        eval_binary machine l op (eval_expr left env) (eval_expr right env)
    eval_expr (call l fn args kwargs) env =
        eval_call machine l (eval_expr fn env) (eval_exprs args env) (eval_kwargs kwargs env [])
    eval_expr (method_call l receiver method args) env =
        eval_method_call machine l (eval_expr receiver env) (name_of machine method)
          (eval_exprs args env) env
    eval_expr (member_access l receiver attr) env =
        eval_member_access machine l (eval_expr receiver env) (name_of machine attr)
    eval_expr (index l target i) env = eval_index machine l (eval_expr target env) (eval_expr i env)
    eval_expr (slice l target low high step) env =
        eval_slice machine l (eval_expr target env) (eval_opt low env) (eval_opt high env)
          (eval_opt step env)
    eval_expr (list_lit l es) env = bind (eval_exprs es env) machine.new_list
    eval_expr (tuple_lit l es) env = bind (eval_exprs es env) machine.new_tuple
    eval_expr (dict_lit l ks vs) env =
        bind (eval_pairs machine (each_expr ks env) (each_expr vs env) []) machine.new_dict
    eval_expr (set_lit l es) env = bind (eval_members es env []) machine.new_set
    eval_expr (pipe_expr l left (call l' fn args kwargs)) env =
        eval_pipe_call machine l' (eval_expr left env) (eval_expr fn env) (eval_exprs args env)
          (eval_kwargs kwargs env [])
    eval_expr (pipe_expr l left (method_call l' receiver method args)) env =
        eval_pipe_method machine l' (eval_expr left env) (eval_expr receiver env)
          (name_of machine method) (eval_exprs args env)
    eval_expr (pipe_expr l left target) env =
        eval_pipe machine (line_of target) (eval_expr left env) (eval_expr target env)
    eval_expr (ternary_expr l cond on_true on_false) env =
        eval_ternary machine l (eval_expr cond env) (eval_expr on_true env) (eval_expr on_false env)
    eval_expr (list_comp l element clauses) env =
        eval_list_comp machine env (eval_expr element) (each_clause clauses)
    eval_expr (dict_comp l key value clauses) env =
        eval_dict_comp machine env (eval_expr key) (eval_expr value) (each_clause clauses)
    eval_expr (set_comp l element clauses) env =
        eval_set_comp machine env (eval_expr element) (each_clause clauses)
    eval_expr (gen_exp l element clauses) env =
        in_scope machine env (λ inner. machine.new_generator l element clauses inner)
    eval_expr (channel_lit l kind size) env = eval_channel_lit machine l (eval_opt size env)
    eval_expr (recv_expr l channel) env = eval_recv_expr machine l (eval_expr channel env)
    eval_expr (yield_expr l e) env = fail l unknown_expression
    eval_expr (yield_from_expr l e) env = fail l unknown_expression

    pub eval_exprs : Exprs F → ℕ → Step S V X (List V)
    eval_exprs no_exprs env = give []
    eval_exprs (expr e es) env =
        bind (eval_expr e env) (λ v. bind (eval_exprs es env) (λ vs. give (v ∷ vs)))

    -- `kwargs[kw.Name] = v`.
    pub eval_kwargs : Kwargs F → ℕ → List (Text × V) → Step S V X (List (Text × V))
    eval_kwargs no_kwargs env m = give m
    eval_kwargs (kwarg l name e kws) env m =
        bind (eval_expr e env) (λ v. eval_kwargs kws env (insert name v m))

    -- The elements of a list of expressions, each to be evaluated.
    pub each_expr : Exprs F → ℕ → List (Step S V X V)
    each_expr no_exprs env = []
    each_expr (expr e es) env = eval_expr e env ∷ each_expr es env

    -- The elements of a set literal.
    pub eval_members : Exprs F → ℕ → List (Text × V) → Step S V X (List (Text × V))
    eval_members no_exprs env m = give m
    eval_members (expr e es) env m =
        bind (eval_expr e env) (λ v s. eval_members es env (insert (machine.stringify v s) v m) s)

    -- The clauses of a comprehension, with their expressions to be evaluated.
    pub each_clause : Clauses F → ℕ → List (Clause S V X)
    each_clause no_clauses env = []
    each_clause (clause l name iterable filter rest) env =
        record {
          line = l;
          name = name;
          iterable = eval_expr iterable env;
          filter = eval_opt filter env;
        }
        ∷ each_clause rest env

    -- An expression that may be absent.
    pub eval_opt : OptExpr F → ℕ → Option (Step S V X V)
    eval_opt absent env = none
    eval_opt (present e) env = some (eval_expr e env)
