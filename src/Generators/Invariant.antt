-- ===== src/Generators/Invariant.antt =====
-- internal/eval/eval_generators.go: how the goroutine of a generator, its consumer and the answers of
-- `next` stand to each other.
use kolang.Prelude.{
  ◌≡◌, refl, sym, ap, ◌∙◌, List, [], ◌∷◌, ◌++◌, append-nil, Bool, true, false, Option, none,
}
use mathlib.Core.Path.{subst}
use kolang.Generators.{
  yields, stops, Body, Place, dormant, working, offering, waiting, returned, Consumer, idle,
  pulling, acknowledging, Generator, Answer, gave, ended, new_generator, woken, first_error, Step,
  ask, ask_again, produce, stop, meet, acknowledge, exhaust, close, refuse_offer, refuse_wait,
  Reached, start, step,
}

module _ {V E : Type 0} where
  -- The values among the answers.
  unfoldable pub given : List (Answer V E) → List V
  given [] = []
  given (gave v ∷ xs) = v ∷ given xs
  given (ended e ∷ xs) = given xs

  given-append : (xs ys : List (Answer V E)) → given (xs ++ ys) ≡ given xs ++ given ys
  unfolding given
  given-append [] ys = refl
  given-append (gave v ∷ xs) ys = ap (λ zs. v ∷ zs) (given-append xs ys)
  given-append (ended e ∷ xs) ys = given-append xs ys

module _ {V E S : Type 0} (body : Body V E S) where
  -- The body, run by itself: from its first state it yields these values and comes to that state.
  pub data Runs : List V → S → Type 0 where
    runs_none : Runs [] body.init
    runs_one :
        {vs : List V} {b c : S} (v : V)
        → Runs vs b
        → body.move b ≡ yields v c
        → Runs (vs ++ v ∷ []) c

  -- How the goroutine and the consumer stand to each other.
  unfoldable pub Paired : Place V S → Consumer V → Type 0
  Paired dormant idle = Unit
  Paired dormant pulling = ⊥
  Paired dormant (acknowledging v) = ⊥
  Paired (working b) idle = Unit
  Paired (working b) pulling = Unit
  Paired (working b) (acknowledging v) = ⊥
  Paired (offering v b) idle = Unit
  Paired (offering v b) pulling = Unit
  Paired (offering v b) (acknowledging w) = ⊥
  Paired (waiting b) idle = ⊥
  Paired (waiting b) pulling = ⊥
  Paired (waiting b) (acknowledging v) = Unit
  Paired returned idle = Unit
  Paired returned pulling = Unit
  Paired returned (acknowledging v) = ⊥

  unfoldable pub Awake : Bool → Place V S → Type 0
  Awake false dormant = Unit
  Awake false (working b) = ⊥
  Awake false (offering v b) = ⊥
  Awake false (waiting b) = ⊥
  Awake false returned = ⊥
  Awake true dormant = ⊥
  Awake true (working b) = Unit
  Awake true (offering v b) = Unit
  Awake true (waiting b) = Unit
  Awake true returned = Unit

  unfoldable pub Final : Bool → Place V S → Type 0
  Final false p = Unit
  Final true dormant = ⊥
  Final true (working b) = ⊥
  Final true (offering v b) = ⊥
  Final true (waiting b) = ⊥
  Final true returned = Unit

  -- Where the body is, if `done` was never closed.
  unfoldable pub Follows : Option E → List V → Place V S → Consumer V → Type 0
  Follows e vs dormant c = (vs ≡ []) × (e ≡ none)
  Follows e vs (working b) c = Runs vs b × (e ≡ none)
  Follows e vs (offering v c') c = ((b : S) × Runs vs b × (body.move b ≡ yields v c')) × (e ≡ none)
  Follows e vs (waiting b) idle = Unit
  Follows e vs (waiting b) pulling = Unit
  Follows e vs (waiting c') (acknowledging v) =
      ((b : S) × Runs vs b × (body.move b ≡ yields v c')) × (e ≡ none)
  Follows e vs returned c = (b : S) × Runs vs b × (body.move b ≡ stops e)

  unfoldable pub Kept : List V → Bool → Bool → Bool → Option E → Place V S → Consumer V → Type 0
  unfolding Paired Awake Final Follows
  Kept vs started finished closed e p c =
      Awake started p × Final finished p × (closed ≡ false → Paired p c × Follows e vs p c)

  unfoldable pub Kept-of : List V → Generator V E S → Type 0
  unfolding Kept
  Kept-of vs g = Kept vs g.started g.finished g.closed g.err g.place g.consumer

  ask-Kept :
      (vs : List V) (s k : Bool) (e : Option E) (p : Place V S)
      → Kept vs s false k e p idle
      → Kept vs true false k e (woken body s p) pulling
  unfolding Kept Paired Awake Final Follows woken
  ask-Kept vs false k e dormant (wake, fin, pos) = (
    tt,
    tt,
    λ o. (tt, (subst (λ ws. Runs ws body.init) (sym (pos o).1.0) runs_none, (pos o).1.1)),
  )
  ask-Kept vs false k e (working b) (wake, fin, pos) = elim wake [ ]
  ask-Kept vs false k e (offering v b) (wake, fin, pos) = elim wake [ ]
  ask-Kept vs false k e (waiting b) (wake, fin, pos) = elim wake [ ]
  ask-Kept vs false k e returned (wake, fin, pos) = elim wake [ ]
  ask-Kept vs true k e dormant (wake, fin, pos) = elim wake [ ]
  ask-Kept vs true k e (working b) (wake, fin, pos) = (tt, tt, λ o. (tt, (pos o).1))
  ask-Kept vs true k e (offering v b) (wake, fin, pos) = (tt, tt, λ o. (tt, (pos o).1))
  ask-Kept vs true k e (waiting b) (wake, fin, pos) = (tt, tt, λ o. absurd ((pos o).0))
  ask-Kept vs true k e returned (wake, fin, pos) = (tt, tt, λ o. (tt, (pos o).1))

  produce-Paired :
      (c : Consumer V) (b b' : S) (v : V) → Paired (working b) c → Paired (offering v b') c
  unfolding Paired
  produce-Paired idle b b' v h = tt
  produce-Paired pulling b b' v h = tt
  produce-Paired (acknowledging w) b b' v h = h

  stop-Paired : (c : Consumer V) (b : S) → Paired (working b) c → Paired returned c
  unfolding Paired
  stop-Paired idle b h = tt
  stop-Paired pulling b h = tt
  stop-Paired (acknowledging w) b h = h

  -- The goroutine moves, and the consumer stays.
  produce-Kept :
      (vs : List V) (s f k : Bool) (e : Option E) (c : Consumer V) (b b' : S) (v : V)
      → body.move b ≡ yields v b'
      → Kept vs s f k e (working b) c
      → Kept vs s f k e (offering v b') c
  unfolding Kept Awake Final Follows
  produce-Kept vs false f k e c b b' v m (wake, fin, pos) = elim wake [ ]
  produce-Kept vs true true k e c b b' v m (wake, fin, pos) = elim fin [ ]
  produce-Kept vs true false k e c b b' v m (wake, fin, pos) =
      (tt, tt, λ o. (produce-Paired c b b' v (pos o).0, ((b, (pos o).1.0, m), (pos o).1.1)))

  stop-Kept :
      (vs : List V) (s f k : Bool) (d e : Option E) (c : Consumer V) (b : S)
      → body.move b ≡ stops e
      → Kept vs s f k d (working b) c
      → Kept vs s f k (first_error d e) returned c
  unfolding Kept Awake Final Follows
  stop-Kept vs false f k d e c b m (wake, fin, pos) = elim wake [ ]
  stop-Kept vs true true k d e c b m (wake, fin, pos) = elim fin [ ]
  stop-Kept vs true false k d e c b m (wake, fin, pos) = (
    tt,
    tt,
    λ o. (
      stop-Paired c b (pos o).0,
      (b, (pos o).1.0, m ∙ ap (λ r. stops (first_error r e)) (sym (pos o).1.1)),
    ),
  )

  -- The two meet.
  meet-Kept :
      (vs : List V) (s f k : Bool) (e : Option E) (b : S) (v : V)
      → Kept vs s f k e (offering v b) pulling
      → Kept vs s f k e (waiting b) (acknowledging v)
  unfolding Kept Paired Awake Final Follows
  meet-Kept vs false f k e b v (wake, fin, pos) = elim wake [ ]
  meet-Kept vs true true k e b v (wake, fin, pos) = elim fin [ ]
  meet-Kept vs true false k e b v (wake, fin, pos) = (tt, tt, pos)

  acknowledge-Kept :
      (vs : List V) (s f k : Bool) (e : Option E) (b : S) (v : V)
      → Kept vs s f k e (waiting b) (acknowledging v)
      → Kept (vs ++ v ∷ []) s f k e (working b) idle
  unfolding Kept Paired Awake Final Follows
  acknowledge-Kept vs false f k e b v (wake, fin, pos) = elim wake [ ]
  acknowledge-Kept vs true true k e b v (wake, fin, pos) = elim fin [ ]
  acknowledge-Kept vs true false k e b v (wake, fin, pos) =
      (tt, tt, λ o. (tt, (runs_one v (pos o).1.0.1 (pos o).1.0.2, (pos o).1.1)))

  exhaust-Kept :
      (vs : List V) (s f k : Bool) (e : Option E)
      → Kept vs s f k e returned pulling
      → Kept vs s true k e returned idle
  unfolding Kept Paired Awake Final Follows
  exhaust-Kept vs s f k e (wake, fin, pos) = (wake, tt, pos)

  -- Once `done` is closed, nothing is said of the values.
  close-Kept :
      (vs : List V) (s f k : Bool) (e : Option E) (p : Place V S) (c : Consumer V)
      → Kept vs s f k e p c
      → Kept vs s f true e p c
  unfolding Kept
  close-Kept vs s f k e p c (wake, fin, pos) = (wake, fin, λ o. absurd (cc))

  refuse_offer-Kept :
      (vs : List V) (s f : Bool) (e : Option E) (c : Consumer V) (b b' : S) (v : V)
      → Kept vs s f true e (offering v b) c
      → Kept vs s f true e (working b') c
  unfolding Kept Awake Final
  refuse_offer-Kept vs false f e c b b' v (wake, fin, pos) = elim wake [ ]
  refuse_offer-Kept vs true true e c b b' v (wake, fin, pos) = elim fin [ ]
  refuse_offer-Kept vs true false e c b b' v (wake, fin, pos) = (tt, tt, λ o. absurd (cc))

  refuse_wait-Kept :
      (vs : List V) (s f : Bool) (e : Option E) (c : Consumer V) (b b' : S)
      → Kept vs s f true e (waiting b) c
      → Kept vs s f true e (working b') c
  unfolding Kept Awake Final
  refuse_wait-Kept vs false f e c b b' (wake, fin, pos) = elim wake [ ]
  refuse_wait-Kept vs true true e c b b' (wake, fin, pos) = elim fin [ ]
  refuse_wait-Kept vs true false e c b b' (wake, fin, pos) = (tt, tt, λ o. absurd (cc))

  kept_same : (vs : List V) (g : Generator V E S) → Kept-of vs g → Kept-of (vs ++ []) g
  kept_same vs g h = subst (λ ws. Kept-of ws g) (sym (append-nil vs)) h

  -- Every step keeps the invariant.
  step-Kept :
      {g h : Generator V E S} {ys : List (Answer V E)} (vs : List V)
      → Step body g ys h
      → Kept-of vs g
      → Kept-of (vs ++ given ys) h
  unfolding Kept-of given
  step-Kept vs (ask g c n) k =
      kept_same vs
        (record g { started = true; place = woken body g.started g.place; consumer = pulling })
        (subst (λ f. Kept vs true f g.closed g.err (woken body g.started g.place) pulling) (sym n)
          (ask-Kept vs g.started g.closed g.err g.place (
            subst (λ f. Kept vs g.started f g.closed g.err g.place idle) n
              (subst (λ d. Kept vs g.started g.finished g.closed g.err g.place d) c k))))
  step-Kept vs (ask_again g c n) k = kept_same vs g k
  step-Kept vs (produce g b b' v p m) k = kept_same vs _ (
      produce-Kept vs g.started g.finished g.closed g.err g.consumer b b' v m
        (subst (λ q. Kept vs g.started g.finished g.closed g.err q g.consumer) p k))
  step-Kept vs (stop g b e p m) k = kept_same vs _ (
      stop-Kept vs g.started g.finished g.closed g.err e g.consumer b m
        (subst (λ q. Kept vs g.started g.finished g.closed g.err q g.consumer) p k))
  step-Kept vs (meet g b v p c) k =
      kept_same vs (record g { place = waiting b; consumer = acknowledging v })
        (meet-Kept vs g.started g.finished g.closed g.err b v (
          subst (λ q. Kept vs g.started g.finished g.closed g.err q pulling) p
            (subst (λ d. Kept vs g.started g.finished g.closed g.err g.place d) c k)))
  step-Kept vs (acknowledge g b v p c) k =
      acknowledge-Kept vs g.started g.finished g.closed g.err b v (
        subst (λ q. Kept vs g.started g.finished g.closed g.err q (acknowledging v)) p
          (subst (λ d. Kept vs g.started g.finished g.closed g.err g.place d) c k))
  step-Kept vs (exhaust g p c) k =
      kept_same vs (record g { finished = true; consumer = idle })
        (subst (λ q. Kept vs g.started true g.closed g.err q idle) (sym p)
          (exhaust-Kept vs g.started g.finished g.closed g.err (
            subst (λ q. Kept vs g.started g.finished g.closed g.err q pulling) p
              (subst (λ d. Kept vs g.started g.finished g.closed g.err g.place d) c k))))
  step-Kept vs (close g c) k =
      kept_same vs _ (close-Kept vs g.started g.finished g.closed g.err g.place g.consumer k)
  step-Kept vs (refuse_offer g b v p o) k = kept_same vs _ (
      subst (λ x. Kept vs g.started g.finished x g.err (working (body.abort b)) g.consumer) (sym o)
        (refuse_offer-Kept vs g.started g.finished g.err g.consumer b (body.abort b) v (
          subst (λ x. Kept vs g.started g.finished x g.err (offering v b) g.consumer) o
            (subst (λ q. Kept vs g.started g.finished g.closed g.err q g.consumer) p k))))
  step-Kept vs (refuse_wait g b p o) k = kept_same vs _ (
      subst (λ x. Kept vs g.started g.finished x g.err (working (body.abort b)) g.consumer) (sym o)
        (refuse_wait-Kept vs g.started g.finished g.err g.consumer b (body.abort b) (
          subst (λ x. Kept vs g.started g.finished x g.err (waiting b) g.consumer) o
            (subst (λ q. Kept vs g.started g.finished g.closed g.err q g.consumer) p k))))

  pub Reached-Kept :
      {g : Generator V E S} {xs : List (Answer V E)} → Reached body xs g → Kept-of (given xs) g
  unfolding Kept-of Kept Paired Awake Final Follows given new_generator
  Reached-Kept start = (tt, tt, λ o. (tt, (refl, refl)))
  Reached-Kept (step {xs} {ys} {g} {h} r s) =
      subst (λ ws. Kept-of ws h) (sym (given-append xs ys))
        (step-Kept (given xs) s (Reached-Kept r))
