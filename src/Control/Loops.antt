-- ===== src/Control/Loops.antt =====
-- internal/eval/eval_control.go: the loops. A while loop and a loop over a range run on fuel,
-- which counts the passes through the head of the loop; `none` is a loop that has not ended yet.
pub mod Range
pub mod Counters
pub mod Escape
use kolang.Prelude.{
  ℕ, zero, suc, List, [], ◌∷◌, Option, none, some, Bool, true, false, if◌then◌else◌, Text, ◌≡◌,
  refl, ◌&&◌, ◌||◌,
}
use kolang.Prelude.Int.{ℤ, pos, ltb_ℤ}
use mathlib.Core.Option.{map}
use kolang.Int64.{add64}
use kolang.Env.Store.{Store, new_env, set}
use kolang.Control.World.{
  Signal, Outcome, ok, err, Step, World, bind, continue_with, return_signal, break_signal,
  continue_signal, raise_signal, runtime_error,
}

-- `(step > 0 && i < end) || (step < 0 && i > end)`.
abbrev pub goes_on : ℤ → ℤ → ℤ → Bool
goes_on step end i = ltb_ℤ (pos 0) step && ltb_ℤ i end || ltb_ℤ step (pos 0) && ltb_ℤ end i

-- `Range.values`: the counters of the loop over a range, none for a step of zero.
unfoldable pub values_from : ℕ → (step end : ℤ) → ℤ → Option (List ℤ)
unfolding add64
values_from zero step end i = none
values_from (suc fuel) step end i =
    let rest = values_from fuel step end (add64 i step) in
    if goes_on step end i then map (◌∷◌ i) rest else some []

module _ {S V X : Type 0} where
  -- What becomes of a loop behind its body: `break` ends it and `continue` is the next round.
  unfoldable pub after_body :
      V → (S → Option (Outcome V X V × S)) → Outcome V X V × S → Option (Outcome V X V × S)
  after_body nil again (ok v, s) = again s
  after_body nil again (err break_signal, s) = some (ok nil, s)
  after_body nil again (err continue_signal, s) = again s
  after_body nil again (err (return_signal v), s) = some (err (return_signal v), s)
  after_body nil again (err (raise_signal x line), s) = some (err (raise_signal x line), s)
  after_body nil again (err (runtime_error line msg), s) = some (err (runtime_error line msg), s)

  -- Behind the condition of a while loop.
  unfoldable pub after_cond :
      V
      → (S → Option (Outcome V X V × S))
      → Step S V X V
      → Outcome V X Bool × S
      → Option (Outcome V X V × S)
  unfolding after_body
  after_cond nil again body (err g, s) = some (err g, s)
  after_cond nil again body (ok false, s) = some (ok nil, s)
  after_cond nil again body (ok true, s) = after_body nil again (body s)

  -- `evalWhile`, of a condition that is evaluated and passed through `to_bool`.
  unfoldable pub eval_while :
      ℕ → V → Step S V X Bool → Step S V X V → S → Option (Outcome V X V × S)
  unfolding after_cond
  eval_while zero nil cond body s = none
  eval_while (suc fuel) nil cond body s =
      after_cond nil (eval_while fuel nil cond body) body (cond s)

module _ {V : Type 0} where
  -- The variables of a loop take the elements of a sequence, as far as it goes.
  unfoldable pub set_vars : List Text → List V → ℕ → Store V → Store V
  set_vars [] vs e h = h
  set_vars (name ∷ names) [] e h = h
  set_vars (name ∷ names) (v ∷ vs) e h = set_vars names vs e (set h e name v)

module _ {V D R : Type 0} where
  -- `NewEnv(env)`: the world with the new scope, which is the last of the heap.
  abbrev pub child_env : ℕ → World V D R → World V D R × ℕ
  child_env e s = (record s { heap = (new_env s.heap (some e)).0 }, (new_env s.heap (some e)).1)

  -- `iterEnv.Set(name, i)`.
  abbrev pub set_name : Text → V → ℕ → World V D R → World V D R
  set_name name v e s = record s { heap = set s.heap e name v }

  -- `forInSetVars`, which never fails: one variable takes the item, several unpack a sequence.
  -- `unpack` gives the elements of a tuple or a list.
  unfoldable pub for_in_set_vars :
      (V → Option (List V)) → List Text → V → ℕ → World V D R → World V D R
  unfolding set_vars
  for_in_set_vars unpack (name ∷ []) item e s = record s { heap = set s.heap e name item }
  for_in_set_vars unpack [] item e s = s
  for_in_set_vars unpack (name ∷ other ∷ names) item e s = elim (unpack item) [
    | none ↦ s
    | some vs ↦ record s { heap = set_vars (name ∷ other ∷ names) vs e s.heap }
  ]

module _ {V X D R : Type 0} where
  -- One round of a loop over values: a fresh scope, its variables, and the body in it.
  abbrev pub in_child :
      (ℕ → World V D R → World V D R)
      → (ℕ → Step (World V D R) V X V)
      → ℕ
      → Step (World V D R) V X V
  in_child bind_item body e s =
      body (child_env e s).1 (bind_item (child_env e s).1 (child_env e s).0)

  -- The loop of `evalForRange` and of `evalRangeForIn`, from the counter `i` on.
  unfoldable pub range_loop :
      ℕ
      → V
      → (step end : ℤ) → (ℤ → ℕ → World V D R → World V D R)
      → (ℕ → Step (World V D R) V X V)
      → ℕ
      → ℤ
      → World V D R
      → Option (Outcome V X V × World V D R)
  unfolding after_body add64
  range_loop zero nil step end bind_item body e i s = none
  range_loop (suc fuel) nil step end bind_item body e i s =
      let again = range_loop fuel nil step end bind_item body e (add64 i step) in
      if goes_on step end i
      then after_body nil again (in_child (bind_item i) body e s)
      else some (ok nil, s)

  -- The loop of `evalForIn` over the items of a sequence. It needs no fuel, but shares
  -- `after_body`, and so gives `some`.
  unfoldable pub items_loop :
      V
      → (V → ℕ → World V D R → World V D R)
      → (ℕ → Step (World V D R) V X V)
      → ℕ
      → List V
      → World V D R
      → Option (Outcome V X V × World V D R)
  unfolding after_body
  items_loop nil bind_item body e [] s = some (ok nil, s)
  items_loop nil bind_item body e (v ∷ vs) s =
      after_body nil (items_loop nil bind_item body e vs) (in_child (bind_item v) body e s)
