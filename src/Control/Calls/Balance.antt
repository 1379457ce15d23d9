-- ===== src/Control/Calls/Balance.antt =====
-- A call leaves the stack of deferred calls as it was.
use kolang.Prelude.{
  ℕ, zero, suc, List, [], ◌∷◌, Option, none, some, ◌≡◌, refl, ◌∙◌, length, get_elem?, leb, if_split,
}
use kolang.Env.Store.{new_env}
use kolang.Control.World.{
  Signal, Outcome, ok, err, Step, World, bind, continue_with, return_signal, break_signal,
  continue_signal, raise_signal, runtime_error,
}
use kolang.Control.Calls.{
  after_deferred, run_entry, run_from, run_defers, push_defers, pop_defers, pop_from, give_back,
  run_body, call_function, Callee, max_call_depth,
}

module _ {V X D R A : Type 0} where
  -- An expression leaves the stack alone.
  abbrev pub Keeps : Step (World V D R) V X A → Type 0
  Keeps m = (s : World V D R) → (m s).1.defers ≡ s.defers

  -- A statement adds at most to the innermost list.
  abbrev pub Extends : Step (World V D R) V X A → Type 0
  Extends m =
      (s : World V D R) (d : List D) (ds : List (List D))
      → s.defers ≡ d ∷ ds
      → (d' : List D) × ((m s).1.defers ≡ d' ∷ ds)

module _ {V X D R A B : Type 0} where
  continue_with-Keeps :
      (k : A → Step (World V D R) V X B) (ds : List (List D))
      → ((a : A) → Keeps (k a))
      → (o : Outcome V X A) (t : World V D R) → t.defers ≡ ds
      → (continue_with k (o, t)).1.defers ≡ ds
  unfolding continue_with
  continue_with-Keeps k ds h (ok a) t e = h a t ∙ e
  continue_with-Keeps k ds h (err g) t e = e

  Keeps-bind :
      (m : Step (World V D R) V X A) (k : A → Step (World V D R) V X B)
      → Keeps m
      → ((a : A) → Keeps (k a))
      → Keeps (bind m k)
  Keeps-bind m k h hk s = continue_with-Keeps k s.defers hk (m s).0 (m s).1 (h s)

module _ {V X D R : Type 0} where
  after_deferred-Keeps :
      (again : World V D R → Option (Signal V X) × World V D R)
      → ((t : World V D R) → (again t).1.defers ≡ t.defers)
      → (o : Outcome V X V) (t : World V D R) → (after_deferred again (o, t)).1.defers ≡ t.defers
  unfolding after_deferred
  after_deferred-Keeps again h (ok v) t = h t
  after_deferred-Keeps again h (err (raise_signal x line)) t = refl
  after_deferred-Keeps again h (err (return_signal v)) t = h t
  after_deferred-Keeps again h (err break_signal) t = h t
  after_deferred-Keeps again h (err continue_signal) t = h t
  after_deferred-Keeps again h (err (runtime_error line msg)) t = h t

  run_entry-Keeps :
      (call : D → Step (World V D R) V X V)
      → ((d : D) → Keeps (call d))
      → (again : World V D R → Option (Signal V X) × World V D R)
      → ((t : World V D R) → (again t).1.defers ≡ t.defers)
      → (o : Option D) (s : World V D R) → (run_entry call again o s).1.defers ≡ s.defers
  unfolding run_entry
  run_entry-Keeps call h again ih none s = refl
  run_entry-Keeps call h again ih (some d) s =
      after_deferred-Keeps again ih (call d s).0 (call d s).1 ∙ h d s

  run_from-Keeps :
      (call : D → Step (World V D R) V X V)
      → ((d : D) → Keeps (call d))
      → (run : List D) (i : ℕ) (s : World V D R) → (run_from call run i s).1.defers ≡ s.defers
  unfolding run_from
  run_from-Keeps call h run zero s = refl
  run_from-Keeps call h run (suc i) s =
      run_entry-Keeps call h (run_from call run i) (run_from-Keeps call h run i) (get_elem? run i) s

  give_back-Keeps :
      (nil : V) (check_return : V → Step (World V D R) V X V)
      → ((v : V) → Keeps (check_return v))
      → (o : Outcome V X V) (g : Option (Signal V X)) (s : World V D R)
      → (give_back nil check_return o (g, s)).1.defers ≡ s.defers
  unfolding give_back
  give_back-Keeps nil check h o (some g) s = refl
  give_back-Keeps nil check h (ok v) none s = refl
  give_back-Keeps nil check h (err (return_signal v)) none s =
      Keeps-bind (check v) (λ _ t. (ok v, t)) (h v) (λ _ t. refl) s
  give_back-Keeps nil check h (err break_signal) none s = refl
  give_back-Keeps nil check h (err continue_signal) none s = refl
  give_back-Keeps nil check h (err (raise_signal x line)) none s = refl
  give_back-Keeps nil check h (err (runtime_error line msg)) none s = refl

  run_body-Keeps :
      (nil : V) (call : D → Step (World V D R) V X V) (check_return : V → Step (World V D R) V X V)
      (body : Step (World V D R) V X V)
      → ((d : D) → Keeps (call d))
      → ((v : V) → Keeps (check_return v))
      → Extends body
      → Keeps (run_body nil call check_return body)
  unfolding run_body
  run_body-Keeps nil call check body h hc hb s =
      let ran = body (push_defers s) in
      let popped = pop_defers ran.1 in
      let deferred = run_defers call popped.0 popped.1 in
      give_back-Keeps nil check hc ran.0 deferred.0 deferred.1
      ∙ unfold run_defers in
        run_from-Keeps call h popped.0 (length popped.0) popped.1
        ∙ unpushed (hb (push_defers s) [] s.defers (unfold push_defers in refl))
    where
      unpushed :
          (d' : List D) × ((body (push_defers s)).1.defers ≡ d' ∷ s.defers)
          → (pop_defers (body (push_defers s)).1).1.defers ≡ s.defers
      unpushed (d', e) = unfold pop_defers pop_from in rw e refl

  -- However a call ends, it leaves the stack of deferred calls as it found it, where the body adds
  -- at most to the innermost list, and where the parameters, the check of the result and the
  -- deferred calls leave the stack alone.
  pub call_function-Keeps :
      (nil : V) (call : D → Step (World V D R) V X V) (f : Callee V X D R)
      → ((d : D) → Keeps (call d))
      → ((e : ℕ) → Keeps (f.bind_params e))
      → ((e : ℕ) → Keeps (f.check_params e))
      → ((e : ℕ) (v : V) → Keeps (f.check_return e v))
      → ((e : ℕ) → Extends (f.body e))
      → Keeps (call_function nil call f)
  call_function-Keeps nil call f h hp hk hr hb s =
      unfold call_function in
      if_split {A = R'} (λ r. r.1.defers ≡ s.defers) f.is_generator _ _ (λ _. refl)
        (λ _.
          if_split {A = R'} (λ r. r.1.defers ≡ s.defers) (leb max_call_depth (length s.defers)) _ _
            (λ _. refl)
            (λ _.
              Keeps-bind (f.bind_params e) (λ _. bind (f.check_params e) (λ _. ran)) (hp e)
                (λ _.
                  Keeps-bind (f.check_params e) (λ _. ran) (hk e)
                    (λ _. run_body-Keeps nil call (f.check_return e) (f.body e) h (hr e) (hb e)))
                (record s { heap = (new_env s.heap (some f.env)).0 })))
    where
      R' : Type 0
      R' = Outcome V X V × World V D R

      e : ℕ
      e = (new_env s.heap (some f.env)).1

      ran : Step (World V D R) V X V
      ran = run_body nil call (f.check_return e) (f.body e)
