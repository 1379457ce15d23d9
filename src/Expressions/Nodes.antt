-- ===== src/Expressions/Nodes.antt =====
-- internal/eval: the cases of `evalExpr` that have operands, with the steps that evaluate these:
-- eval_expr.go, eval_members.go, eval_concurrency.go, and the pipe operator and the comprehensions of
-- eval_comp.go.
use kolang.Prelude.{ℕ, List, [], ◌∷◌, ◌++◌, Option, none, some, Text, insert}
use kolang.Prelude.Int.{ℤ}
use kolang.Control.World.{ok, Step, bind}
use kolang.Expressions.Messages.{attribute_no_name, method_no_name}
use kolang.Expressions.Interface.{Machine}
use kolang.Expressions.{give, with_name, in_scope, Clause, comp_rec}

module _ {F S V X : Type 0} (machine : Machine F S V X) where
  -- `evalCall`.
  unfoldable pub eval_call :
      ℕ → Step S V X V → Step S V X (List V) → Step S V X (List (Text × V)) → Step S V X V
  eval_call line fn args kwargs =
      bind fn (λ f. bind args (λ vs. bind kwargs (λ kws. machine.call f vs kws line)))

  -- `evalMethodCall`: the arguments are evaluated by the dispatch, once it has the method.
  unfoldable pub eval_method_call :
      ℕ → Step S V X V → Option Text → Step S V X (List V) → ℕ → Step S V X V
  eval_method_call line receiver name args env = bind receiver (λ r.
      with_name machine line method_no_name name (λ attr. machine.call_method r attr args env line))

  -- `evalMemberAccess`.
  unfoldable pub eval_member_access : ℕ → Step S V X V → Option Text → Step S V X V
  eval_member_access line receiver name =
      bind receiver
        (λ r. with_name machine line attribute_no_name name (λ attr. machine.attribute r attr line))

  -- `evalIndex`.
  unfoldable pub eval_index : ℕ → Step S V X V → Step S V X V → Step S V X V
  eval_index line target i = bind target (λ t. bind i (λ v. machine.index t v line))

  -- A bound of a slice, which may be absent.
  unfoldable pub eval_bound : ℕ → Option (Step S V X V) → Step S V X (Option ℤ)
  eval_bound line none = give none
  eval_bound line (some e) = bind e (λ v. bind (machine.slice_bound v line) (λ i. give (some i)))

  -- `evalSlice`.
  unfoldable pub eval_slice :
      ℕ
      → Step S V X V
      → Option (Step S V X V)
      → Option (Step S V X V)
      → Option (Step S V X V)
      → Step S V X V
  unfolding eval_bound
  eval_slice line target low high step = bind target (λ t. bind (eval_bound line low) (λ lo.
      bind (eval_bound line high)
        (λ hi. bind (eval_bound line step) (λ st. machine.slice t lo hi st line))))

  -- `evalPipe` into a call: the value is the first argument.
  unfoldable pub eval_pipe_call :
      ℕ
      → Step S V X V
      → Step S V X V
      → Step S V X (List V)
      → Step S V X (List (Text × V))
      → Step S V X V
  eval_pipe_call line left fn args kwargs =
      bind left (λ v.
        bind fn (λ f. bind args (λ vs. bind kwargs (λ kws. machine.call f (v ∷ vs) kws line))))

  -- `evalPipeMethodCall`: the arguments are evaluated before the dispatch.
  unfoldable pub eval_pipe_method :
      ℕ → Step S V X V → Step S V X V → Option Text → Step S V X (List V) → Step S V X V
  eval_pipe_method line left receiver name args = bind left (λ v. bind receiver (λ r.
      with_name machine line method_no_name name
        (λ attr. bind args (λ vs. machine.pipe_method r attr (v ∷ vs) line))))

  -- `evalPipe` into any other expression.
  unfoldable pub eval_pipe : ℕ → Step S V X V → Step S V X V → Step S V X V
  eval_pipe line left target = bind left (λ v. bind target (λ f. machine.call f (v ∷ []) [] line))

  -- `emit` of a list, a dictionary and a set comprehension.
  abbrev pub emit_value : Step S V X V → List V → Step S V X (List V)
  emit_value element out = bind element (λ v. give (out ++ (v ∷ [])))

  abbrev pub emit_entry :
      Step S V X V → Step S V X V → List (Text × V) → Step S V X (List (Text × V))
  emit_entry key value out =
      bind key (λ k. bind value (λ v s. (ok (insert (machine.stringify k s) v out), s)))

  abbrev pub emit_member : Step S V X V → List (Text × V) → Step S V X (List (Text × V))
  emit_member element out = bind element (λ v s. (ok (insert (machine.stringify v s) v out), s))

  -- `evalListComp`, `evalDictComp` and `evalSetComp`: the clauses and the elements in the new scope.
  unfoldable pub eval_list_comp : ℕ → (ℕ → Step S V X V) → (ℕ → List (Clause S V X)) → Step S V X V
  unfolding comp_rec
  eval_list_comp env element clauses = in_scope machine env (λ inner.
      bind (comp_rec machine inner (emit_value (element inner)) (clauses inner) [])
        machine.new_list)

  unfoldable pub eval_dict_comp :
      ℕ → (ℕ → Step S V X V) → (ℕ → Step S V X V) → (ℕ → List (Clause S V X)) → Step S V X V
  unfolding comp_rec
  eval_dict_comp env key value clauses = in_scope machine env (λ inner.
      bind (comp_rec machine inner (emit_entry (key inner) (value inner)) (clauses inner) [])
        machine.new_dict)

  unfoldable pub eval_set_comp : ℕ → (ℕ → Step S V X V) → (ℕ → List (Clause S V X)) → Step S V X V
  unfolding comp_rec
  eval_set_comp env element clauses = in_scope machine env (λ inner.
      bind (comp_rec machine inner (emit_member (element inner)) (clauses inner) [])
        machine.new_set)

  -- `evalChannelLit`, by its size, and `evalRecvExpr`.
  unfoldable pub eval_channel_lit : ℕ → Option (Step S V X V) → Step S V X V
  eval_channel_lit line none = machine.new_channel 0
  eval_channel_lit line (some size) =
      bind size (λ v. bind (machine.channel_size v line) machine.new_channel)

  unfoldable pub eval_recv_expr : ℕ → Step S V X V → Step S V X V
  eval_recv_expr line channel = bind channel (λ v. machine.receive v line)
