-- ===== src/Control/Calls/Order.antt =====
-- The order of deferred calls.
use kolang.Prelude.{
  ℕ, zero, suc, ◌<◌, ◌≤◌, List, [], ◌∷◌, ◌++◌, Option, none, some, Bool, true, false, ◌≡◌, refl, ap,
  length, get_elem?, arith,
}
use kolang.Control.World.{
  Signal, Outcome, ok, err, Step, World, break_signal, continue_signal, return_signal, raise_signal,
  runtime_error,
}
use kolang.Control.Calls.{after_deferred, run_entry, run_from, run_defers}

get_elem?-append_left {ℓ} :
    {A : Type ℓ} (xs ys : List A) (i : ℕ) → i < length xs → get_elem? (xs ++ ys) i ≡ get_elem? xs i
get_elem?-append_left [] ys i h = absurd (omega arith)
get_elem?-append_left (x ∷ xs) ys zero h = refl
get_elem?-append_left (x ∷ xs) ys (suc i) h = get_elem?-append_left xs ys i (omega arith)

get_elem?-append_length {ℓ} :
    {A : Type ℓ} (xs : List A) (y : A) → get_elem? (xs ++ (y ∷ [])) (length xs) ≡ some y
get_elem?-append_length [] y = refl
get_elem?-append_length (x ∷ xs) y = get_elem?-append_length xs y

length-snoc {ℓ} : {A : Type ℓ} (xs : List A) (y : A) → length (xs ++ (y ∷ [])) ≡ suc (length xs)
length-snoc [] y = refl
length-snoc (x ∷ xs) y = ap suc (length-snoc xs y)

abbrev pub reverse : {A : Type 0} → List A → List A
reverse [] = []
reverse (x ∷ xs) = reverse xs ++ (x ∷ [])

abbrev pub is_raise : {V X : Type 0} → Outcome V X V → Bool
is_raise (err (raise_signal x line)) = true
is_raise _ = false

module _ {V X D R : Type 0} (call : D → Step (World V D R) V X V) where
  after_deferred_same :
      (f g : World V D R → Option (Signal V X) × World V D R)
      → ((s : World V D R) → f s ≡ g s)
      → (o : Outcome V X V) (s : World V D R) → after_deferred f (o, s) ≡ after_deferred g (o, s)
  unfolding after_deferred
  after_deferred_same f g h (ok v) s = h s
  after_deferred_same f g h (err (raise_signal x line)) s = refl
  after_deferred_same f g h (err (return_signal v)) s = h s
  after_deferred_same f g h (err break_signal) s = h s
  after_deferred_same f g h (err continue_signal) s = h s
  after_deferred_same f g h (err (runtime_error line msg)) s = h s

  run_entry_same :
      (f g : World V D R → Option (Signal V X) × World V D R)
      → ((s : World V D R) → f s ≡ g s)
      → (o : Option D) (s : World V D R) → run_entry call f o s ≡ run_entry call g o s
  unfolding run_entry
  run_entry_same f g h none s = refl
  run_entry_same f g h (some d) s = after_deferred_same f g h (call d s).0 (call d s).1

  run_from-suc :
      (run : List D) (i : ℕ) (s : World V D R)
      → run_from call run (suc i) s ≡ run_entry call (run_from call run i) (get_elem? run i) s
  unfolding run_from
  run_from-suc run i s = refl

  run_from-append :
      (xs ys : List D) (i : ℕ)
      → i ≤ length xs
      → (s : World V D R) → run_from call (xs ++ ys) i s ≡ run_from call xs i s
  run_from-append xs ys zero h s = unfold run_from in refl
  run_from-append xs ys (suc i) h s =
      rw
        (
          run_from-suc (xs ++ ys) i s,
          run_from-suc xs i s,
          get_elem?-append_left xs ys i (omega arith),
        )
        (run_entry_same (run_from call (xs ++ ys) i) (run_from call xs i)
          (run_from-append xs ys i (omega arith)) (get_elem? xs i) s)

  run_defers-snoc :
      (ds : List D) (d : D) (s : World V D R)
      → run_defers call (ds ++ (d ∷ [])) s ≡ after_deferred (run_defers call ds) (call d s)
  run_defers-snoc ds d s =
      unfold run_defers in
      rw
        (
          length-snoc ds d,
          run_from-suc (ds ++ (d ∷ [])) (length ds) s,
          get_elem?-append_length ds d,
        )
        (unfold run_entry in
          after_deferred_same (run_from call (ds ++ (d ∷ [])) (length ds))
            (run_from call ds (length ds)) (run_from-append ds (d ∷ []) (length ds) (omega arith))
            (call d s).0 (call d s).1)

  -- A run of calls from the first of a list on. A call that raises an exception is the last, and the
  -- exception is the result; whatever else a call does, the next one runs behind it.
  pub data Calls : List D → World V D R → Option (Signal V X) × World V D R → Type 0 where
    all_done : {s : World V D R} → Calls [] s (none, s)
    raised :
        {d : D} {ds : List D} {s t : World V D R} (x : Option X) (line : ℕ)
        → call d s ≡ (err (raise_signal x line), t)
        → Calls (d ∷ ds) s (some (raise_signal x line), t)
    went_on :
        {d : D} {ds : List D} {s t : World V D R} {r : Option (Signal V X) × World V D R}
        (o : Outcome V X V)
        → is_raise o ≡ false
        → call d s ≡ (o, t)
        → Calls ds t r
        → Calls (d ∷ ds) s r

  after_deferred-Calls :
      (d : D) (ds : List D) (again : World V D R → Option (Signal V X) × World V D R)
      → ((t : World V D R) → Calls ds t (again t))
      → (s t : World V D R) (o : Outcome V X V) → call d s ≡ (o, t)
      → Calls (d ∷ ds) s (after_deferred again (o, t))
  unfolding after_deferred
  after_deferred-Calls d ds again h s t (ok v) e = went_on (ok v) refl e (h t)
  after_deferred-Calls d ds again h s t (err (raise_signal x line)) e = raised x line e
  after_deferred-Calls d ds again h s t (err (return_signal v)) e =
      went_on (err (return_signal v)) refl e (h t)
  after_deferred-Calls d ds again h s t (err break_signal) e =
      went_on (err break_signal) refl e (h t)
  after_deferred-Calls d ds again h s t (err continue_signal) e =
      went_on (err continue_signal) refl e (h t)
  after_deferred-Calls d ds again h s t (err (runtime_error line msg)) e =
      went_on (err (runtime_error line msg)) refl e (h t)

  -- The deferred calls run from the one deferred last to the one deferred first. The first of them
  -- that raises an exception is the last to run, and the exception is the result; where none raises
  -- all of them run, and other errors of theirs are dropped.
  pub run_defers-Calls :
      (ds : List D) (s : World V D R) → Calls ds s (run_defers call (reverse ds) s)
  run_defers-Calls [] s = unfold run_defers run_from in all_done
  run_defers-Calls (d ∷ ds) s = rw (run_defers-snoc (reverse ds) d s) (
      after_deferred-Calls d ds (run_defers call (reverse ds)) (λ t. run_defers-Calls ds t) s
        (call d s).1 (call d s).0 refl)
