-- ===== src/Control/Calls.antt =====
-- internal/eval/eval_exceptions.go: the stack of deferred calls; internal/eval/eval_expr.go:
-- `callFunction`.
pub mod Order
pub mod Balance
use kolang.Prelude.{
  ℕ, zero, suc, List, [], ◌∷◌, ◌++◌, Option, none, some, Bool, true, false, if◌then◌else◌, Text,
  ◌≡◌, refl, length, get_elem?, leb,
}
use kolang.Env.Store.{new_env, set}
use kolang.Control.World.{
  Signal, Outcome, ok, err, Step, World, bind, continue_with, return_signal, break_signal,
  continue_signal, raise_signal, runtime_error,
}

-- `maxCallDepth`.
abbrev pub max_call_depth : ℕ
max_call_depth = 10_000

-- The innermost list, and the others.
module _ {D : Type 0} where
  unfoldable pub pop_from : List (List D) → List D × List (List D)
  pop_from [] = ([], [])
  pop_from (d ∷ ds) = (d, ds)

  -- An empty stack gets a list, which nothing runs.
  unfoldable pub add_to : D → List (List D) → List (List D)
  add_to f [] = (f ∷ []) ∷ []
  add_to f (d ∷ ds) = (d ++ (f ∷ [])) ∷ ds

module _ {V D R : Type 0} where
  -- `pushDefers`, `popDefers` and `addDefers`.
  unfoldable pub push_defers : World V D R → World V D R
  push_defers s = record s { defers = [] ∷ s.defers }

  unfoldable pub pop_defers : World V D R → List D × World V D R
  unfolding pop_from
  pop_defers s = ((pop_from s.defers).0, record s { defers = (pop_from s.defers).1 })

  unfoldable pub add_defers : D → World V D R → World V D R
  unfolding add_to
  add_defers f s = record s { defers = add_to f s.defers }

module _ {V X D R : Type 0} where
  -- Only an exception of a deferred call ends the run of the others.
  unfoldable pub after_deferred :
      (World V D R → Option (Signal V X) × World V D R)
      → Outcome V X V × World V D R
      → Option (Signal V X) × World V D R
  after_deferred again (ok v, s) = again s
  after_deferred again (err (raise_signal x line), s) = (some (raise_signal x line), s)
  after_deferred again (err (return_signal v), s) = again s
  after_deferred again (err break_signal, s) = again s
  after_deferred again (err continue_signal, s) = again s
  after_deferred again (err (runtime_error line msg), s) = again s

  unfoldable pub run_entry :
      (D → Step (World V D R) V X V)
      → (World V D R → Option (Signal V X) × World V D R)
      → Option D
      → World V D R
      → Option (Signal V X) × World V D R
  unfolding after_deferred
  run_entry call again none s = (none, s)
  run_entry call again (some d) s = after_deferred again (call d s)

  -- `for i := len(run) - 1; i >= 0; i--`, where the counter is one more than `i`.
  unfoldable pub run_from :
      (D → Step (World V D R) V X V) → List D → ℕ → World V D R → Option (Signal V X) × World V D R
  unfolding run_entry
  run_from call run zero s = (none, s)
  run_from call run (suc i) s = run_entry call (run_from call run i) (get_elem? run i) s

  -- `runDefers`: the exception that was raised, if any.
  unfoldable pub run_defers :
      (D → Step (World V D R) V X V) → List D → World V D R → Option (Signal V X) × World V D R
  unfolding run_from
  run_defers call run s = run_from call run (length run) s

  -- The end of a call: what was returned, unless a deferred call raised.
  unfoldable pub give_back :
      V
      → (V → Step (World V D R) V X V)
      → Outcome V X V
      → Option (Signal V X) × World V D R
      → Outcome V X V × World V D R
  give_back nil check_return o (some g, s) = (err g, s)
  give_back nil check_return (ok v) (none, s) = (ok nil, s)
  give_back nil check_return (err (return_signal v)) (none, s) =
      bind (check_return v) (λ _ t. (ok v, t)) s
  give_back nil check_return (err break_signal) (none, s) = (err break_signal, s)
  give_back nil check_return (err continue_signal) (none, s) = (err continue_signal, s)
  give_back nil check_return (err (raise_signal x line)) (none, s) = (err (raise_signal x line), s)
  give_back nil check_return (err (runtime_error line msg)) (none, s) =
      (err (runtime_error line msg), s)

  -- From `pushDefers` on: the body, and the calls that it deferred, in whichever way it ended.
  unfoldable pub run_body :
      V
      → (D → Step (World V D R) V X V)
      → (V → Step (World V D R) V X V)
      → Step (World V D R) V X V
      → Step (World V D R) V X V
  unfolding give_back run_defers push_defers pop_defers
  run_body nil call check_return body s =
      let done = body (push_defers s) in
      let popped = pop_defers done.1 in
      give_back nil check_return done.0 (run_defers call popped.0 popped.1)

module _ (V X D R : Type 0) where
  -- A `Function` and the arguments of a call of it: what they do in the scope of the call.
  pub record Callee : Type 0 where
    pub is_generator : Bool
    pub generator : V
    pub too_deep : Signal V X
    pub env : ℕ
    pub bind_params : ℕ → Step (World V D R) V X V
    pub check_params : ℕ → Step (World V D R) V X V
    pub check_return : ℕ → V → Step (World V D R) V X V
    pub body : ℕ → Step (World V D R) V X V

module _ {V X D R : Type 0} where
  -- `callFunction`.
  unfoldable pub call_function :
      V → (D → Step (World V D R) V X V) → Callee V X D R → Step (World V D R) V X V
  unfolding run_body
  call_function nil call f s =
      if f.is_generator
      then (ok f.generator, s)
      else if leb max_call_depth (length s.defers)
      then (err f.too_deep, s)
      else let fresh = new_env s.heap (some f.env) in
        bind (f.bind_params fresh.1)
          (λ _.
            bind (f.check_params fresh.1)
              (λ _. run_body nil call (f.check_return fresh.1) (f.body fresh.1)))
          (record s { heap = fresh.0 })
