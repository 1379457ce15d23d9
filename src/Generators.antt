-- ===== src/Generators.antt =====
-- internal/eval/eval_generators.go: a generator, as the steps of its own goroutine and of its only
-- consumer.
pub mod Detect
pub mod Invariant
pub mod Order
use kolang.Prelude.{◌≡◌, List, [], ◌∷◌, ◌++◌, Bool, true, false, Option, none, some}

-- What the body of a generator does next: it yields a value or it ends, with the error of `g.err`.
pub data Move (V E S : Type 0) : Type 0 where
  yields : V → S → Move V E S
  stops : Option E → Move V E S

-- The body, by its states, and the state that a yield leaves which was refused with a `returnSignal`.
pub record Body (V E S : Type 0) : Type 0 where
  pub init : S
  pub move : S → Move V E S
  pub abort : S → S

-- Where the goroutine of `run` stands: not started, in the body, in the first and in the second
-- `select` of `yieldValue`, or behind its `close(g.ch)`.
pub data Place (V S : Type 0) : Type 0 where
  dormant : Place V S
  working : S → Place V S
  offering : V → S → Place V S
  waiting : S → Place V S
  returned : Place V S

-- Where the consumer stands: outside of `next`, at its receive, or at its send of `resume`.
pub data Consumer (V : Type 0) : Type 0 where
  idle : Consumer V
  pulling : Consumer V
  acknowledging : V → Consumer V

-- `closed` tells whether `done` is closed.
pub record Generator (V E S : Type 0) : Type 0 where
  pub started : Bool
  pub finished : Bool
  pub closed : Bool
  pub err : Option E
  pub place : Place V S
  pub consumer : Consumer V

-- What `next` gives: a value, or the end with the error that there is.
pub data Answer (V E : Type 0) : Type 0 where
  gave : V → Answer V E
  ended : Option E → Answer V E

module _ {V E S : Type 0} where
  unfoldable pub new_generator : Generator V E S
  new_generator = record {
    started = false;
    finished = false;
    closed = false;
    err = none;
    place = dormant;
    consumer = idle;
  }

  -- `if !g.started { go g.run() }`.
  unfoldable pub woken : Body V E S → Bool → Place V S → Place V S
  woken body true place = place
  woken body false place = working body.init

-- `if g.err == nil { g.err = err }`.
abbrev pub first_error : {E : Type 0} → Option E → Option E → Option E
first_error none e = e
first_error (some d) e = some d

-- A step, with what `next` gives in it. The consumer calls `close` between its calls of `next`.
pub data Step {V E S : Type 0} (body : Body V E S)
    : Generator V E S → List (Answer V E) → Generator V E S → Type 0 where
  -- `next` starts the goroutine if need be, and waits at the receive.
  ask :
      (g : Generator V E S)
      → g.consumer ≡ idle
      → g.finished ≡ false
      → Step body g []
          (record g { started = true; place = woken body g.started g.place; consumer = pulling })
  -- `next` behind the end.
  ask_again :
      (g : Generator V E S)
      → g.consumer ≡ idle
      → g.finished ≡ true
      → Step body g (ended g.err ∷ []) g
  -- The body goes on to a yield, or to its end.
  produce :
      (g : Generator V E S) (b c : S) (v : V)
      → g.place ≡ working b
      → body.move b ≡ yields v c
      → Step body g [] (record g { place = offering v c })
  stop :
      (g : Generator V E S) (b : S) (e : Option E)
      → g.place ≡ working b
      → body.move b ≡ stops e
      → Step body g [] (record g { place = returned; err = first_error g.err e })
  -- The value passes.
  meet :
      (g : Generator V E S) (b : S) (v : V)
      → g.place ≡ offering v b
      → g.consumer ≡ pulling
      → Step body g [] (record g { place = waiting b; consumer = acknowledging v })
  acknowledge :
      (g : Generator V E S) (b : S) (v : V)
      → g.place ≡ waiting b
      → g.consumer ≡ acknowledging v
      → Step body g (gave v ∷ []) (record g { place = working b; consumer = idle })
  -- The receive finds the channel closed.
  exhaust :
      (g : Generator V E S)
      → g.place ≡ returned
      → g.consumer ≡ pulling
      → Step body g (ended g.err ∷ []) (record g { finished = true; consumer = idle })
  close : (g : Generator V E S) → g.consumer ≡ idle → Step body g [] (record g { closed = true })
  -- A yield sees `done` closed.
  refuse_offer :
      (g : Generator V E S) (b : S) (v : V)
      → g.place ≡ offering v b
      → g.closed ≡ true
      → Step body g [] (record g { place = working (body.abort b) })
  refuse_wait :
      (g : Generator V E S) (b : S)
      → g.place ≡ waiting b
      → g.closed ≡ true
      → Step body g [] (record g { place = working (body.abort b) })

-- What happens to a new generator.
pub data Reached {V E S : Type 0} (body : Body V E S)
    : List (Answer V E) → Generator V E S → Type 0 where
  start : Reached body [] new_generator
  step :
      {xs ys : List (Answer V E)} {g h : Generator V E S}
      → Reached body xs g
      → Step body g ys h
      → Reached body (xs ++ ys) h
