-- ===== src/Generators/Order.antt =====
-- internal/eval/eval_generators.go: what a generator gives to its consumer, and that neither of them
-- waits for ever.
use kolang.Prelude.{◌≡◌, refl, List, [], ◌∷◌, true, false, Option, ◌⊎◌, inl, inr, ◌≢◌}
use kolang.Generators.{
  Move, yields, stops, Body, Place, dormant, working, offering, waiting, returned, Consumer, idle,
  pulling, acknowledging, Generator, Answer, gave, ended, first_error, Step, produce, stop, meet,
  acknowledge, exhaust, Reached,
}
use kolang.Generators.Invariant.{Paired, Kept, Kept-of, Reached-Kept}

module _ {V E S : Type 0} (body : Body V E S) where
  move_cases :
      (m : Move V E S) → ((v : V) × (b : S) × (m ≡ yields v b)) ⊎ ((e : Option E) × (m ≡ stops e))
  move_cases (yields v b) = inl (v, b, refl)
  move_cases (stops e) = inr (e, refl)

  unfoldable pub CanStep : Generator V E S → Type 0
  CanStep g = (ys : List (Answer V E)) × (h : Generator V E S) × Step body g ys h

  body_goes_on : (g : Generator V E S) (b : S) → g.place ≡ working b → CanStep g
  unfolding CanStep
  body_goes_on g b p = elim (move_cases (body.move b)) [
    | inl (v, c, m) ↦ ([], record g { place = offering v c }, produce g b c v p m)
    | inr (e, m) ↦ ([], record g { place = returned; err = first_error g.err e }, stop g b e p m)
  ]

  goes_on_at :
      (g : Generator V E S) (p : Place V S) (c : Consumer V)
      → g.place ≡ p
      → g.consumer ≡ c
      → Paired body p c
      → c ≢ idle
      → CanStep g
  unfolding Paired CanStep
  goes_on_at g p idle e d h n = absurd (n refl)
  goes_on_at g dormant pulling e d h n = elim h [ ]
  goes_on_at g (working b) pulling e d h n = body_goes_on g b e
  goes_on_at g (offering v b) pulling e d h n =
      ([], record g { place = waiting b; consumer = acknowledging v }, meet g b v e d)
  goes_on_at g (waiting b) pulling e d h n = elim h [ ]
  goes_on_at g returned pulling e d h n =
      (ended g.err ∷ [], record g { finished = true; consumer = idle }, exhaust g e d)
  goes_on_at g dormant (acknowledging w) e d h n = elim h [ ]
  goes_on_at g (working b) (acknowledging w) e d h n = elim h [ ]
  goes_on_at g (offering v b) (acknowledging w) e d h n = elim h [ ]
  goes_on_at g (waiting b) (acknowledging w) e d h n =
      (gave w ∷ [], record g { place = working b; consumer = idle }, acknowledge g b w e d)
  goes_on_at g returned (acknowledging w) e d h n = elim h [ ]

  -- As long as `done` is not closed, a consumer inside of `next` and the goroutine never wait for each
  -- other: one of them can step.
  pub Reached-CanStep :
      {g : Generator V E S} {xs : List (Answer V E)}
      → Reached body xs g
      → g.closed ≡ false
      → g.consumer ≢ idle
      → CanStep g
  unfolding Kept-of Kept
  Reached-CanStep {g} r o n =
      goes_on_at g g.place g.consumer refl refl ((Reached-Kept body r).2 o).0 n
