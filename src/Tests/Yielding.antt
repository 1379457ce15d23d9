-- ===== src/Tests/Yielding.antt =====
-- Generators at concrete inputs.
use kolang.Prelude.{ℕ, [], ◌∷◌, List, none, ◌≢◌, refl, true, false}
use kolang.Generators.{
  Move, yields, stops, Body, working, offering, waiting, returned, idle, pulling, acknowledging,
  Generator, gave, new_generator, woken, ask, ask_again, produce, stop, meet, acknowledge, exhaust,
  close, refuse_offer, refuse_wait, Reached, start, step,
}
use kolang.Generators.Order.{CanStep, Reached-CanStep}

-- A body that yields the elements of a list, and returns where a yield is refused.
abbrev moves : List ℕ → Move ℕ ℕ (List ℕ)
moves [] = stops none
moves (x ∷ xs) = yields x xs

abbrev two_values : Body ℕ ℕ (List ℕ)
two_values = record { init = 7 ∷ 8 ∷ []; move = moves; abort = λ _. [] }

abbrev asked : Generator ℕ ℕ (List ℕ)
asked = record new_generator { started = true; place = working (7 ∷ 8 ∷ []); consumer = pulling }

abbrev answered : Generator ℕ ℕ (List ℕ)
answered = record asked { place = working (8 ∷ []); consumer = idle }

asked-Reached : Reached two_values [] asked
unfolding new_generator woken
asked-Reached = step start (ask new_generator refl refl)

answered-Reached : Reached two_values (gave 7 ∷ []) answered
unfolding new_generator
answered-Reached =
    step
      (step (step asked-Reached (produce asked (7 ∷ 8 ∷ []) (8 ∷ []) 7 refl refl))
        (meet (record asked { place = offering 7 (8 ∷ []) }) (8 ∷ []) 7 refl refl))
      (acknowledge (record asked { place = waiting (8 ∷ []); consumer = acknowledging 7 }) (8 ∷ [])
        7 refl refl)

asked_waits : asked.consumer ≢ idle
asked_waits e = absurd (cc)

Reached-CanStep_example : CanStep two_values asked
unfolding new_generator
Reached-CanStep_example = Reached-CanStep two_values asked-Reached refl asked_waits

-- `close`, and then another `next`: the value 8 passes, its yield sees `done` closed before the
-- acknowledgement, and the body ends.
abbrev closed_again : Generator ℕ ℕ (List ℕ)
closed_again = record {
  started = true;
  finished = false;
  closed = true;
  err = none;
  place = returned;
  consumer = acknowledging 8;
}

abbrev pulled : Generator ℕ ℕ (List ℕ)
pulled = record answered { closed = true; consumer = pulling }

closed_again-Reached : Reached two_values (gave 7 ∷ []) closed_again
unfolding new_generator woken
closed_again-Reached =
    step
      (step
        (step
          (step
            (step (step answered-Reached (close answered refl))
              (ask (record answered { closed = true }) refl refl))
            (produce pulled (8 ∷ []) [] 8 refl refl))
          (meet (record pulled { place = offering 8 [] }) [] 8 refl refl))
        (refuse_wait (record pulled { place = waiting []; consumer = acknowledging 8 }) [] refl
          refl))
      (stop (record pulled { place = working []; consumer = acknowledging 8 }) [] none refl refl)

-- The consumer is then inside of `next` for ever.
closed_again_waits : CanStep two_values closed_again → ⊥
unfolding CanStep
closed_again_waits (ys, h, ask g c n) = absurd (cc)
closed_again_waits (ys, h, ask_again g c n) = absurd (cc)
closed_again_waits (ys, h, produce g b c v p m) = absurd (cc)
closed_again_waits (ys, h, stop g b e p m) = absurd (cc)
closed_again_waits (ys, h, meet g b v p c) = absurd (cc)
closed_again_waits (ys, h, acknowledge g b v p c) = absurd (cc)
closed_again_waits (ys, h, exhaust g p c) = absurd (cc)
closed_again_waits (ys, h, close g c) = absurd (cc)
closed_again_waits (ys, h, refuse_offer g b v p o) = absurd (cc)
closed_again_waits (ys, h, refuse_wait g b p o) = absurd (cc)
