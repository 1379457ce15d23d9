-- ===== src/Control/Try/Handlers.antt =====
-- Which handler of a try statement runs, and what the last block does to the outcome.
use kolang.Prelude.{
  ℕ, List, [], ◌∷◌, ◌++◌, Option, none, some, Bool, true, false, if◌then◌else◌, ◌≡◌, refl, ap, ◌∙◌,
  sym, append-nil,
}
use kolang.Control.World.{Signal, Outcome, ok, err, Step, continue_with, raise_signal}
use kolang.Control.Try.{Handler, handle, catch, overridden, run_finally, eval_try}

module _ {S V X : Type 0} where
  -- What becomes of an outcome and its state as the last block runs, if there is one.
  pub data RunsLast : Option (Step S V X V) → Outcome V X V × S → Outcome V X V × S → Type 0 where
    no_last : {r : Outcome V X V × S} → RunsLast none r r
    last_ends :
        {last : Step S V X V} {o : Outcome V X V} {s t : S} {w : V}
        → last s ≡ (ok w, t)
        → RunsLast (some last) (o, s) (o, t)
    last_fails :
        {last : Step S V X V} {o : Outcome V X V} {s t : S} {g : Signal V X}
        → last s ≡ (err g, t)
        → RunsLast (some last) (o, s) (err g, t)

module _ {S V X : Type 0} (matches : Option X → Option (Step S V X V) → Step S V X Bool)
    (x : Option X) where
  -- None of the handlers takes the exception. Their class expressions, evaluated one behind the
  -- other, lead from the first state to the second.
  pub data Skips : List (Handler S V X) → S → S → Type 0 where
    skips_nil : {s : S} → Skips [] s s
    skips_cons :
        {h : Handler S V X} {hs : List (Handler S V X)} {s t u : S}
        → matches x h.exception s ≡ (ok false, t)
        → Skips hs t u
        → Skips (h ∷ hs) s u

  handle_cons :
      (line : ℕ) (h : Handler S V X) (hs : List (Handler S V X)) (s : S)
      → handle matches x line (h ∷ hs) s
        ≡ continue_with
            (λ b t. if b then h.body (h.bind_alias x t) else handle matches x line hs t)
            (matches x h.exception s)
  unfolding handle
  handle_cons line h hs s = refl

  handle_skipped :
      (line : ℕ) (h : Handler S V X) (hs : List (Handler S V X)) (s t : S)
      → matches x h.exception s ≡ (ok false, t)
      → handle matches x line (h ∷ hs) s ≡ handle matches x line hs t
  handle_skipped line h hs s t e = handle_cons line h hs s ∙ unfold continue_with in rw e refl

  handle_taken :
      (line : ℕ) (h : Handler S V X) (hs : List (Handler S V X)) (s t : S)
      → matches x h.exception s ≡ (ok true, t)
      → handle matches x line (h ∷ hs) s ≡ h.body (h.bind_alias x t)
  handle_taken line h hs s t e = handle_cons line h hs s ∙ unfold continue_with in rw e refl

  handle-Skips :
      (line : ℕ) (before after : List (Handler S V X)) (s t : S)
      → Skips before s t
      → handle matches x line (before ++ after) s ≡ handle matches x line after t
  handle-Skips line _ after _ _ skips_nil = refl
  handle-Skips line _ after _ _ (skips_cons {h} {hs} {s} {t} {u} e rest) =
      handle_skipped line h (hs ++ after) s t e ∙ handle-Skips line hs after t u rest

  handle_none : (line : ℕ) (s : S) → handle matches x line [] s ≡ (err (raise_signal x line), s)
  unfolding handle
  handle_none line s = refl

  eval_try_raised :
      (line : ℕ) (body : Step S V X V) (hs : List (Handler S V X)) (finally : Option (Step S V X V))
      (s₀ s : S)
      → body s₀ ≡ (err (raise_signal x line), s)
      → eval_try matches body hs finally s₀ ≡ run_finally finally (handle matches x line hs s)
  eval_try_raised line body hs finally s₀ s e = unfold eval_try catch in rw e refl

  run_finally-RunsLast :
      (finally : Option (Step S V X V)) (r : Outcome V X V × S)
      → RunsLast finally r (run_finally finally r)
  unfolding run_finally
  run_finally-RunsLast none r = no_last
  run_finally-RunsLast (some last) (o, s) = ended (last s).0 (last s).1 refl
    where
      ended :
          (p : Outcome V X V) (t : S)
          → last s ≡ (p, t)
          → RunsLast (some last) (o, s) (overridden o (p, t))
      ended (ok w) t e = last_ends e
      ended (err g) t e = last_fails e

  -- An exception that the body raises is handled by the first handler that matches it, behind the
  -- class expressions of those before it, and by no other; where none matches, it stays in flight.
  -- Then the last block, if there is one, runs in the state behind that: if it ends, the outcome
  -- stays, and if it fails in any way, that is the outcome.
  pub eval_try_lem :
      (line : ℕ) (body : Step S V X V) (before after : List (Handler S V X)) (h : Handler S V X)
      (finally : Option (Step S V X V)) (s₀ s t u : S)
      → body s₀ ≡ (err (raise_signal x line), s)
      → Skips before s t
      → matches x h.exception t ≡ (ok true, u)
      → RunsLast finally
          (h.body (h.bind_alias x u))
          (eval_try matches body (before ++ (h ∷ after)) finally s₀)
        × RunsLast finally (err (raise_signal x line), t) (eval_try matches body before finally s₀)
  eval_try_lem line body before after h finally s₀ s t u raised skipped taken = (
    rw
        (
          eval_try_raised line body (before ++ (h ∷ after)) finally s₀ s raised,
          handle-Skips line before (h ∷ after) s t skipped,
          handle_taken line h after t u taken,
        )
        (run_finally-RunsLast finally (h.body (h.bind_alias x u))),
    rw
        (
          eval_try_raised line body before finally s₀ s raised,
          ap (λ hs. handle matches x line hs s) (sym (append-nil before))
              ∙ handle-Skips line before [] s t skipped
              ∙ handle_none line t,
        )
        (run_finally-RunsLast finally (err (raise_signal x line), t)),
  )
