-- ===== src/Control/Loops/Range.antt =====
-- A range is iterated as the list of its values would be.
use mathlib.Core.Option.{map as option_map}
use kolang.Prelude.{
  ℕ, zero, suc, List, [], ◌∷◌, Option, none, some, true, false, if◌then◌else◌, ◌≡◌, refl, sym, ◌∙◌,
  map, Bool-cases, inl, inr, ◌⊎◌,
}
use kolang.Prelude.Int.{ℤ}
use kolang.Int64.{add64}
use kolang.Control.World.{
  Outcome, ok, err, Step, World, break_signal, continue_signal, return_signal, raise_signal,
  runtime_error,
}
use kolang.Control.Loops.{goes_on, after_body, values_from, range_loop, items_loop, in_child}

module _ {S V X : Type 0} where
  after_body_same :
      (nil : V) (f g : S → Option (Outcome V X V × S))
      → ((s : S) → f s ≡ g s)
      → (o : Outcome V X V) (s : S) → after_body nil f (o, s) ≡ after_body nil g (o, s)
  unfolding after_body
  after_body_same nil f g h (ok v) s = h s
  after_body_same nil f g h (err break_signal) s = refl
  after_body_same nil f g h (err continue_signal) s = h s
  after_body_same nil f g h (err (return_signal v)) s = refl
  after_body_same nil f g h (err (raise_signal x line)) s = refl
  after_body_same nil f g h (err (runtime_error line msg)) s = refl

values_from-suc :
    (fuel : ℕ) (step end i : ℤ)
    → values_from (suc fuel) step end i ≡ (
        if goes_on step end i
        then option_map (◌∷◌ i) (values_from fuel step end (add64 i step))
        else some [])
unfolding values_from
values_from-suc fuel step end i = refl

none_left : (step end i : ℤ) (is : List ℤ) → values_from zero step end i ≡ some is → ⊥
unfolding values_from
none_left step end i is h = cc

map_some :
    (i : ℤ) (o : Option (List ℤ)) (is : List ℤ)
    → option_map (◌∷◌ i) o ≡ some is
    → (rest : List ℤ) × (o ≡ some rest) × (is ≡ i ∷ rest)
map_some i none is h = absurd (cc)
map_some i (some rest) is h = (rest, refl, cc)

module _ {V X D R : Type 0} (nil : V) (inject : ℤ → V)
    (bind_item : V → ℕ → World V D R → World V D R) (body : ℕ → Step (World V D R) V X V)
    (e : ℕ) where
  -- The two loops give the same from the counter i on.
  abbrev Agree : ℕ → (step end : ℤ) → ℤ → Type 0
  Agree fuel step end i =
      (is : List ℤ)
      → values_from fuel step end i ≡ some is
      → (s : World V D R)
      → range_loop fuel nil step end (λ j. bind_item (inject j)) body e i s
        ≡ items_loop nil bind_item body e (map inject is) s

  Agree-round :
      (fuel : ℕ) (step end i : ℤ) → Agree fuel step end (add64 i step) → Agree (suc fuel) step end i
  Agree-round fuel step end i ih is h s = on (Bool-cases (goes_on step end i))
    where
      told :
          (if goes_on step end i
            then option_map (◌∷◌ i) (values_from fuel step end (add64 i step))
            else some [])
          ≡ some is
      told = sym (values_from-suc fuel step end i) ∙ h

      round : World V D R → Outcome V X V × World V D R
      round = in_child (bind_item (inject i)) body e

      more :
          goes_on step end i ≡ true
          → (rest : List ℤ) × (values_from fuel step end (add64 i step) ≡ some rest)
            × (is ≡ i ∷ rest)
          → range_loop (suc fuel) nil step end (λ j. bind_item (inject j)) body e i s
            ≡ items_loop nil bind_item body e (map inject is) s
      more t (rest, found, split) = rw split (
          unfold range_loop items_loop in
          rw t (
            after_body_same nil
              (range_loop fuel nil step end (λ j. bind_item (inject j)) body e (add64 i step))
              (items_loop nil bind_item body e (map inject rest)) (ih rest found) (round s).0
              (round s).1))

      stop :
          goes_on step end i ≡ false
          → is ≡ []
          → range_loop (suc fuel) nil step end (λ j. bind_item (inject j)) body e i s
            ≡ items_loop nil bind_item body e (map inject is) s
      stop f over = rw over (unfold range_loop items_loop in rw f refl)

      on :
          (goes_on step end i ≡ true) ⊎ (goes_on step end i ≡ false)
          → range_loop (suc fuel) nil step end (λ j. bind_item (inject j)) body e i s
            ≡ items_loop nil bind_item body e (map inject is) s
      on (inl t) = more t (map_some i (values_from fuel step end (add64 i step)) is (rw t at told))
      on (inr f) = stop f (let same : some [] ≡ some is = rw f at told in cc)

  -- A loop that pulls its counters one by one does what the loop over the list of all of them
  -- does, body by body, in states, scopes and signals, where there is such a list: whenever
  -- materialising the range ends.
  pub range_loop-values_from :
      (fuel : ℕ) (step end i : ℤ) (is : List ℤ)
      → values_from fuel step end i ≡ some is
      → (s : World V D R)
      → range_loop fuel nil step end (λ j. bind_item (inject j)) body e i s
        ≡ items_loop nil bind_item body e (map inject is) s
  range_loop-values_from zero step end i is h s = absurd (none_left step end i is h)
  range_loop-values_from (suc fuel) step end i is h s =
      Agree-round fuel step end i (range_loop-values_from fuel step end (add64 i step)) is h s
