-- ===== src/Control/Program/Agree.antt =====
-- A program and the REPL agree on the errors that they report.
use kolang.Prelude.{ℕ, List, Option, none, some, Text, ◌≡◌, refl, ap}
use kolang.Control.World.{
  Outcome, ok, err, return_signal, break_signal, continue_signal, raise_signal, runtime_error,
}
use kolang.Control.Program.{
  TopStmt, program_error, eval_program, eval_top_level, repl_outcome, eval_repl_stmts,
}

module _ {V X : Type 0} where
  -- The line and the message of an outcome that is a plain error; no other signal is one.
  abbrev pub reported : Outcome V X V → Option (ℕ × Text)
  reported (ok v) = none
  reported (err (runtime_error line msg)) = some (line, msg)
  reported (err (raise_signal x line)) = none
  reported (err (return_signal v)) = none
  reported (err break_signal) = none
  reported (err continue_signal) = none

  -- A value or a plain error.
  abbrev pub IsReport : Outcome V X V → Type 0
  IsReport (ok v) = Unit
  IsReport (err (runtime_error line msg)) = Unit
  IsReport (err (raise_signal x line)) = ⊥
  IsReport (err (return_signal v)) = ⊥
  IsReport (err break_signal) = ⊥
  IsReport (err continue_signal) = ⊥

  outcome_agrees :
      (stringify : Option X → Text) (nil : V) (o : Outcome V X V)
      → (program_error stringify o ≡ reported (repl_outcome stringify nil o))
        × IsReport (repl_outcome stringify nil o)
  unfolding program_error repl_outcome
  outcome_agrees stringify nil (ok v) = (refl, tt)
  outcome_agrees stringify nil (err (raise_signal x line)) = (refl, tt)
  outcome_agrees stringify nil (err (return_signal v)) = (refl, tt)
  outcome_agrees stringify nil (err break_signal) = (refl, tt)
  outcome_agrees stringify nil (err continue_signal) = (refl, tt)
  outcome_agrees stringify nil (err (runtime_error line msg)) = (refl, tt)

module _ {S V X : Type 0} where
  -- A program ends with the error, if any, with which `EvalReplStmts` ends on its statements in the
  -- new scope with the builtins, and in that state behind the wait for the goroutines. No exception
  -- and no signal of control flow leaves `EvalReplStmts` as such.
  pub eval_program_lem :
      (stringify : Option X → Text) (nil : V) (new_global : S → S × ℕ) (wait : S → S)
      (stmts : ℕ → List (TopStmt S V X)) (s : S)
      → (eval_program stringify nil new_global wait stmts s ≡ (
        reported (eval_repl_stmts stringify nil (stmts (new_global s).1) (new_global s).0).0,
        wait (eval_repl_stmts stringify nil (stmts (new_global s).1) (new_global s).0).1,
      ))
        × IsReport (eval_repl_stmts stringify nil (stmts (new_global s).1) (new_global s).0).0
  eval_program_lem stringify nil new_global wait stmts s =
      unfold eval_program eval_repl_stmts in
      let done = eval_top_level nil (stmts (new_global s).1) (new_global s).0 in
      (
        ap (λ e. (e, wait done.1)) (outcome_agrees stringify nil done.0).0,
        (outcome_agrees stringify nil done.0).1,
      )
