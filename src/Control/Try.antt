-- ===== src/Control/Try.antt =====
-- internal/eval/eval_exceptions.go: `evalTryStmt` and `matchesException`; internal/eval/eval_control.go:
-- `evalWithStmt`.
pub mod Handlers
use kolang.Prelude.{
  ℕ, List, [], ◌∷◌, Option, none, some, Bool, true, false, if◌then◌else◌, Text, ◌≡◌, refl,
}
use kolang.Env.Store.{new_env, set}
use kolang.Control.World.{
  Signal, Outcome, ok, err, Step, World, bind, continue_with, return_signal, break_signal,
  continue_signal, raise_signal, runtime_error,
}

module _ (S V X : Type 0) where
  -- `ExceptHandler`: the expression of the class, if any, what binding the alias does, and the block.
  pub record Handler : Type 0 where
    pub exception : Option (Step S V X V)
    pub bind_alias : Option X → S → S
    pub body : Step S V X V

module _ {S V X C : Type 0} where
  -- The value of the class expression against the instance. An exception that the expression
  -- raised replaces the one in flight; any other error is wrapped.
  unfoldable pub match_value :
      (V → Option C)
      → (X → C → Bool)
      → (Signal V X → Signal V X)
      → Signal V X
      → X
      → Outcome V X V × S
      → Outcome V X Bool × S
  match_value as_class instance_of wrapped not_class inst (err (raise_signal x line), s) =
      (err (raise_signal x line), s)
  match_value as_class instance_of wrapped not_class inst (err (return_signal v), s) =
      (err (wrapped (return_signal v)), s)
  match_value as_class instance_of wrapped not_class inst (err break_signal, s) =
      (err (wrapped break_signal), s)
  match_value as_class instance_of wrapped not_class inst (err continue_signal, s) =
      (err (wrapped continue_signal), s)
  match_value as_class instance_of wrapped not_class inst (err (runtime_error line msg), s) =
      (err (wrapped (runtime_error line msg)), s)
  match_value as_class instance_of wrapped not_class inst (ok v, s) = elim (as_class v) [
    | none ↦ (err not_class, s)
    | some c ↦ (ok (instance_of inst c), s)
  ]

  -- `matchesException`.
  unfoldable pub matches_exception :
      (V → Option C)
      → (X → C → Bool)
      → (Signal V X → Signal V X)
      → Signal V X
      → Option X
      → Option (Step S V X V)
      → Step S V X Bool
  unfolding match_value
  matches_exception as_class instance_of wrapped not_class none exception s = (ok false, s)
  matches_exception as_class instance_of wrapped not_class (some inst) none s = (ok true, s)
  matches_exception as_class instance_of wrapped not_class (some inst) (some expr) s =
      match_value as_class instance_of wrapped not_class inst (expr s)

module _ {S V X : Type 0} where
  -- The loop over the handlers, for the exception `x` raised at `line`.
  unfoldable pub handle :
      (Option X → Option (Step S V X V) → Step S V X Bool)
      → Option X
      → ℕ
      → List (Handler S V X)
      → Step S V X V
  handle matches x line [] s = (err (raise_signal x line), s)
  handle matches x line (h ∷ hs) s =
      bind (matches x h.exception)
        (λ b t. if b then h.body (h.bind_alias x t) else handle matches x line hs t) s

  -- Only an exception reaches the handlers.
  unfoldable pub catch :
      (Option X → Option (Step S V X V) → Step S V X Bool)
      → List (Handler S V X)
      → Outcome V X V × S
      → Outcome V X V × S
  unfolding handle
  catch matches hs (ok v, s) = (ok v, s)
  catch matches hs (err (raise_signal x line), s) = handle matches x line hs s
  catch matches hs (err (return_signal v), s) = (err (return_signal v), s)
  catch matches hs (err break_signal, s) = (err break_signal, s)
  catch matches hs (err continue_signal, s) = (err continue_signal, s)
  catch matches hs (err (runtime_error line msg), s) = (err (runtime_error line msg), s)

  -- The deferred closure: its own signal replaces the outcome.
  abbrev pub overridden : Outcome V X V → Outcome V X V × S → Outcome V X V × S
  overridden before (ok v, s) = (before, s)
  overridden before (err g, s) = (err g, s)

  unfoldable pub run_finally : Option (Step S V X V) → Outcome V X V × S → Outcome V X V × S
  run_finally none (before, s) = (before, s)
  run_finally (some last) (before, s) = overridden before (last s)

  -- `evalTryStmt`.
  unfoldable pub eval_try :
      (Option X → Option (Step S V X V) → Step S V X Bool)
      → Step S V X V
      → List (Handler S V X)
      → Option (Step S V X V)
      → Step S V X V
  unfolding catch run_finally
  eval_try matches body handlers finally s = run_finally finally (catch matches handlers (body s))

module _ {V X D R : Type 0} where
  -- `closeCtx`: the attribute, if there is one, is called, and what it gives is dropped.
  abbrev pub close_ctx :
      (V → World V D R → Option (Step (World V D R) V X V)) → V → World V D R → World V D R
  close_ctx closer ctx s = elim (closer ctx s) [ none ↦ s | some close ↦ (close s).1 ]

  -- `evalWithStmt`: the context in a scope of its own, the body, and the context closed.
  unfoldable pub eval_with :
      (V → World V D R → Option (Step (World V D R) V X V))
      → Step (World V D R) V X V
      → Text
      → (ℕ → Step (World V D R) V X V)
      → ℕ
      → Step (World V D R) V X V
  eval_with closer context name body e = bind context (λ ctx s.
      let fresh = new_env s.heap (some e) in
      let done = body fresh.1 (record s { heap = set fresh.0 fresh.1 name ctx }) in
      (done.0, close_ctx closer ctx done.1))
