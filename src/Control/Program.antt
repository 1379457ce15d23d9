-- ===== src/Control/Program.antt =====
-- internal/eval/eval.go: the top level of a program and of the REPL.
pub mod Agree
use kolang.Prelude.{ℕ, List, [], ◌∷◌, ◌++◌, Option, none, some, Text}
use kolang.Control.World.{
  Signal, Outcome, ok, err, Step, bind, return_signal, break_signal, continue_signal, raise_signal,
  runtime_error,
}

abbrev pub break_message : Text
break_message =
    0x627 ∷ 0x62A ∷ 0x645 ∷ 0x627 ∷ 0x645 ∷ 0x20 ∷ 0x62F ∷ 0x631 ∷ 0x20 ∷ 0x633 ∷ 0x637 ∷ 0x62D
    ∷ 0x20 ∷ 0x628 ∷ 0x627 ∷ 0x644 ∷ 0x627 ∷ 0x20 ∷ 0x645 ∷ 0x62C ∷ 0x627 ∷ 0x632 ∷ 0x20 ∷ 0x646
    ∷ 0x6CC ∷ 0x633 ∷ 0x62A ∷ []

abbrev pub continue_message : Text
continue_message =
    0x628 ∷ 0x631 ∷ 0x648 ∷ 0x628 ∷ 0x639 ∷ 0x62F ∷ 0x6CC ∷ 0x20 ∷ 0x62F ∷ 0x631 ∷ 0x20 ∷ 0x633
    ∷ 0x637 ∷ 0x62D ∷ 0x20 ∷ 0x628 ∷ 0x627 ∷ 0x644 ∷ 0x627 ∷ 0x20 ∷ 0x645 ∷ 0x62C ∷ 0x627 ∷ 0x632
    ∷ 0x20 ∷ 0x646 ∷ 0x6CC ∷ 0x633 ∷ 0x62A ∷ []

abbrev pub return_message : Text
return_message =
    0x628 ∷ 0x631 ∷ 0x6AF ∷ 0x631 ∷ 0x62F ∷ 0x627 ∷ 0x646 ∷ 0x20 ∷ 0x62F ∷ 0x631 ∷ 0x20 ∷ 0x633
    ∷ 0x637 ∷ 0x62D ∷ 0x20 ∷ 0x628 ∷ 0x627 ∷ 0x644 ∷ 0x627 ∷ 0x20 ∷ 0x645 ∷ 0x62C ∷ 0x627 ∷ 0x632
    ∷ 0x20 ∷ 0x646 ∷ 0x6CC ∷ 0x633 ∷ 0x62A ∷ []

abbrev pub uncaught_message : Text
uncaught_message =
    0x627 ∷ 0x633 ∷ 0x62A ∷ 0x62B ∷ 0x646 ∷ 0x627 ∷ 0x6CC ∷ 0x20 ∷ 0x645 ∷ 0x62F ∷ 0x6CC ∷ 0x631
    ∷ 0x6CC ∷ 0x62A ∷ 0x200C ∷ 0x646 ∷ 0x634 ∷ 0x62F ∷ 0x647 ∷ 0x3A ∷ 0x20 ∷ []

module _ (S V X : Type 0) where
  -- A statement at the top level, with its line where it is one that is refused there.
  pub data TopStmt : Type 0 where
    break_stmt : ℕ → TopStmt
    continue_stmt : ℕ → TopStmt
    return_stmt : ℕ → TopStmt
    stmt : Step S V X V → TopStmt

module _ {S : Type 0} where
  -- `GlobalEnv`: `set_math` sets the name of the module in the scope.
  unfoldable pub global_env : (S → S × ℕ) → (ℕ → S → S) → S → S × ℕ
  global_env new_global set_math s =
      let global = new_global s in (set_math global.1 global.0, global.1)

module _ {V X : Type 0} where
  -- The error of `EvalProgram`, if any, as a line and a message. `stringify` prints an instance.
  unfoldable pub program_error : (Option X → Text) → Outcome V X V → Option (ℕ × Text)
  program_error stringify (ok v) = none
  program_error stringify (err (raise_signal x line)) = some (line, uncaught_message ++ stringify x)
  program_error stringify (err (return_signal v)) = none
  program_error stringify (err break_signal) = none
  program_error stringify (err continue_signal) = none
  program_error stringify (err (runtime_error line msg)) = some (line, msg)

  -- What `EvalReplStmts` makes of an outcome.
  unfoldable pub repl_outcome : (Option X → Text) → V → Outcome V X V → Outcome V X V
  repl_outcome stringify nil (ok v) = ok v
  repl_outcome stringify nil (err (raise_signal x line)) =
      err (runtime_error line (uncaught_message ++ stringify x))
  repl_outcome stringify nil (err (return_signal v)) = ok nil
  repl_outcome stringify nil (err break_signal) = ok nil
  repl_outcome stringify nil (err continue_signal) = ok nil
  repl_outcome stringify nil (err (runtime_error line msg)) = err (runtime_error line msg)

module _ {S V X : Type 0} where
  -- `evalTopLevel`.
  unfoldable pub eval_top_level : V → List (TopStmt S V X) → Step S V X V
  eval_top_level last [] s = (ok last, s)
  eval_top_level last (break_stmt line ∷ rest) s = (err (runtime_error line break_message), s)
  eval_top_level last (continue_stmt line ∷ rest) s = (err (runtime_error line continue_message), s)
  eval_top_level last (return_stmt line ∷ rest) s = (err (runtime_error line return_message), s)
  eval_top_level last (stmt st ∷ rest) s = bind st (λ v. eval_top_level v rest) s

  -- `EvalProgram`. `new_global` is `NewEnv` with `installBuiltins`, and gives the scope; `wait` is the
  -- wait for the goroutines.
  unfoldable pub eval_program :
      (Option X → Text)
      → V
      → (S → S × ℕ)
      → (S → S)
      → (ℕ → List (TopStmt S V X))
      → S
      → Option (ℕ × Text) × S
  unfolding eval_top_level program_error
  eval_program stringify nil new_global wait stmts s =
      let global = new_global s in
      let done = eval_top_level nil (stmts global.1) global.0 in
      (program_error stringify done.0, wait done.1)

  -- `EvalReplStmts`.
  unfoldable pub eval_repl_stmts : (Option X → Text) → V → List (TopStmt S V X) → Step S V X V
  unfolding eval_top_level repl_outcome
  eval_repl_stmts stringify nil stmts s =
      let done = eval_top_level nil stmts s in (repl_outcome stringify nil done.0, done.1)
