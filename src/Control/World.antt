-- ===== src/Control/World.antt =====
-- internal/eval/eval.go: the signals that carry control flow as Go errors, and the state that a
-- statement changes: the scopes, the stack of deferred calls, and the rest of the interpreter.
use kolang.Prelude.{ℕ, List, Option, Text}
use kolang.Env.Store.{Store}

module _ (V X : Type 0) where
  -- An exception in flight carries its instance, which Go allows to be nil, and a line.
  pub data Signal : Type 0 where
    return_signal : V → Signal
    break_signal : Signal
    continue_signal : Signal
    raise_signal : Option X → ℕ → Signal
    runtime_error : ℕ → Text → Signal

-- Go's `(A, error)`.
pub data Outcome (V X A : Type 0) : Type 0 where
  ok : A → Outcome V X A
  err : Signal V X → Outcome V X A

module _ (V D R : Type 0) where
  -- `defers` has the innermost call first, the calls of one function in the order they were added.
  pub record World : Type 0 where
    pub heap : Store V
    pub defers : List (List D)
    pub rest : R

-- A step of the interpreter, with the value that it gives.
abbrev pub Step : Type 0 → Type 0 → Type 0 → Type 0 → Type 0
Step S V X A = S → Outcome V X A × S

module _ {S V X A B : Type 0} where
  unfoldable pub continue_with : (A → Step S V X B) → Outcome V X A × S → Outcome V X B × S
  continue_with k (ok a, s) = k a s
  continue_with k (err g, s) = (err g, s)

  -- `a, err := m; if err != nil { return nil, err }`, and what follows.
  abbrev pub bind : Step S V X A → (A → Step S V X B) → Step S V X B
  bind m k s = continue_with k (m s)
