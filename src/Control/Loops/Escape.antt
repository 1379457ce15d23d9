-- ===== src/Control/Loops/Escape.antt =====
-- A loop takes the signals of `break` and `continue` in.
use kolang.Prelude.{ℕ, zero, suc, ◌<◌, arith, Option, none, some, Bool, true, false, ◌≡◌, refl}
use kolang.Control.World.{
  Outcome, ok, err, Step, break_signal, continue_signal, return_signal, raise_signal, runtime_error,
}
use kolang.Control.Loops.{after_body, after_cond, eval_while}

module _ {V X A : Type 0} where
  -- Neither `break` nor `continue`.
  abbrev pub IsOutside : Outcome V X A → Type 0
  IsOutside (ok a) = Unit
  IsOutside (err break_signal) = ⊥
  IsOutside (err continue_signal) = ⊥
  IsOutside (err (return_signal v)) = Unit
  IsOutside (err (raise_signal x line)) = Unit
  IsOutside (err (runtime_error line msg)) = Unit

module _ {S V X : Type 0} where
  -- A loop that has ended did not end with such a signal.
  abbrev pub EndsOutside : Option (Outcome V X V × S) → Type 0
  EndsOutside none = Unit
  EndsOutside (some r) = IsOutside r.0

  after_body-EndsOutside :
      (nil : V) (again : S → Option (Outcome V X V × S))
      → ((s : S) → EndsOutside (again s))
      → (o : Outcome V X V) (s : S) → EndsOutside (after_body nil again (o, s))
  unfolding after_body
  after_body-EndsOutside nil again h (ok v) s = h s
  after_body-EndsOutside nil again h (err break_signal) s = tt
  after_body-EndsOutside nil again h (err continue_signal) s = h s
  after_body-EndsOutside nil again h (err (return_signal v)) s = tt
  after_body-EndsOutside nil again h (err (raise_signal x line)) s = tt
  after_body-EndsOutside nil again h (err (runtime_error line msg)) s = tt

  after_cond-EndsOutside :
      (nil : V) (again : S → Option (Outcome V X V × S)) (body : Step S V X V)
      → ((s : S) → EndsOutside (again s))
      → (o : Outcome V X Bool) (s : S) → IsOutside o
      → EndsOutside (after_cond nil again body (o, s))
  unfolding after_cond
  after_cond-EndsOutside nil again body h (ok true) s k =
      after_body-EndsOutside nil again h (body s).0 (body s).1
  after_cond-EndsOutside nil again body h (ok false) s k = tt
  after_cond-EndsOutside nil again body h (err g) s k = k

  -- Where the condition signals neither `break` nor `continue`, a while loop signals neither.
  pub eval_while-EndsOutside :
      (nil : V) (cond : Step S V X Bool) (body : Step S V X V)
      → ((s : S) → IsOutside (cond s).0)
      → (fuel : ℕ) (s : S) → EndsOutside (eval_while fuel nil cond body s)
  unfolding eval_while
  eval_while-EndsOutside nil cond body h zero s = tt
  eval_while-EndsOutside nil cond body h (suc fuel) s =
      after_cond-EndsOutside nil (eval_while fuel nil cond body) body
        (eval_while-EndsOutside nil cond body h fuel) (cond s).0 (cond s).1 (h s)

  abbrev Ends : Option (Outcome V X V × S) → Type 0
  Ends o = (r : Outcome V X V × S) × (o ≡ some r)

  after_body-Ends :
      (nil : V) (again : S → Option (Outcome V X V × S)) (o : Outcome V X V) (s : S)
      → Ends (again s)
      → Ends (after_body nil again (o, s))
  unfolding after_body
  after_body-Ends nil again (ok v) s h = h
  after_body-Ends nil again (err break_signal) s h = ((ok nil, s), refl)
  after_body-Ends nil again (err continue_signal) s h = h
  after_body-Ends nil again (err (return_signal v)) s h = ((err (return_signal v), s), refl)
  after_body-Ends nil again (err (raise_signal x line)) s h = ((err (raise_signal x line), s), refl)
  after_body-Ends nil again (err (runtime_error line msg)) s h =
      ((err (runtime_error line msg), s), refl)

  after_cond-Ends :
      (nil : V) (again : S → Option (Outcome V X V × S)) (body : Step S V X V)
      (o : Outcome V X Bool) (s : S)
      → (o ≡ ok true → Ends (again (body s).1))
      → Ends (after_cond nil again body (o, s))
  unfolding after_cond
  after_cond-Ends nil again body (ok true) s h =
      after_body-Ends nil again (body s).0 (body s).1 (h refl)
  after_cond-Ends nil again body (ok false) s h = ((ok nil, s), refl)
  after_cond-Ends nil again body (err g) s h = ((err g, s), refl)

  round-Ends :
      (fuel : ℕ) (nil : V) (cond : Step S V X Bool) (body : Step S V X V) (s : S)
      → ((cond s).0 ≡ ok true → Ends (eval_while fuel nil cond body (body (cond s).1).1))
      → Ends (eval_while (suc fuel) nil cond body s)
  unfolding eval_while
  round-Ends fuel nil cond body s h =
      after_cond-Ends nil (eval_while fuel nil cond body) body (cond s).0 (cond s).1 h

  -- Where a true condition is followed by a body that makes the measure smaller, a while loop
  -- with more fuel than its measure ends.
  pub eval_while_ends :
      (nil : V) (cond : Step S V X Bool) (body : Step S V X V) (measure : S → ℕ)
      → ((s : S) → (cond s).0 ≡ ok true → measure (body (cond s).1).1 < measure s)
      → (fuel : ℕ) (s : S) → measure s < fuel
      → (r : Outcome V X V × S) × (eval_while fuel nil cond body s ≡ some r)
  eval_while_ends nil cond body measure down zero s enough = absurd (omega arith)
  eval_while_ends nil cond body measure down (suc fuel) s enough =
      round-Ends fuel nil cond body s (λ e.
        eval_while_ends nil cond body measure down fuel (body (cond s).1).1
          (omega (arith, down s e)))
