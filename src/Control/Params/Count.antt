-- ===== src/Control/Params/Count.antt =====
-- internal/eval/eval_expr.go: `bindParams` and the positional arguments.
use kolang.Prelude.{
  ℕ, ◌≤◌, ◌≡◌, refl, ap, sym, ◌∙◌, List, [], ◌∷◌, Option, none, some, false, Text, lookup, length,
  drop, arith,
}
use kolang.Env.Store.{Store, set}
use kolang.Control.World.{Outcome, ok, Step, World}
use kolang.Control.Params.{Param, Binding, bind_named, bind_one, bind_params, bound}

module _ {V X D R : Type 0} where
  -- None of the parameters collects arguments, in a list or in a dict.
  abbrev pub Plain : List (Param (World V D R) V X) → Type 0
  Plain [] = Unit
  Plain (p ∷ ps) = (p.variadic ≡ false) × (p.kwargs ≡ false) × Plain ps

  -- No parameter that has a positional argument has a keyword argument, too.
  abbrev pub Unnamed : List (Text × V) → List (Param (World V D R) V X) → List V → Type 0
  Unnamed kwargs [] args = Unit
  Unnamed kwargs (p ∷ ps) [] = Unit
  Unnamed kwargs (p ∷ ps) (a ∷ args) = (lookup p.name kwargs ≡ none) × Unnamed kwargs ps args

  -- Each argument set in a scope under the name of the parameter at its place.
  abbrev pub set_all : Store V → ℕ → List (Param (World V D R) V X) → List V → Store V
  set_all h e [] args = h
  set_all h e (p ∷ ps) [] = h
  set_all h e (p ∷ ps) (a ∷ args) = set_all (set h e p.name a) e ps args

  abbrev Positional :
      Binding V X D R → List (Param (World V D R) V X) → List V → List Text → World V D R → Type 0
  Positional b ps args used s =
      (length args ≤ length ps)
      × Unnamed b.kwargs ps args
      × (bind_params b ps args used s
          ≡ bind_params b (drop (length args) ps) [] used
              (record s { heap = set_all s.heap b.env ps args }))

  bind_params-named :
      (b : Binding V X D R) (p : Param (World V D R) V X) (ps : List (Param (World V D R) V X))
      (args : List V) (used : List Text) (s : World V D R)
      → p.variadic ≡ false
      → p.kwargs ≡ false
      → bind_params b (p ∷ ps) args used s
        ≡ bind_named b (bind_params b ps) p args (lookup p.name b.kwargs) used s
  bind_params-named b p ps args used s e f = unfold bind_params bind_one in rw (e, f) refl

  not_named :
      (b : Binding V X D R) (again : List V → List Text → Step (World V D R) V X V)
      (p : Param (World V D R) V X) (a : V) (args : List V) (o : Option V) (used : List Text)
      (s : World V D R) (v : V)
      → (bind_named b again p (a ∷ args) o used s).0 ≡ ok v
      → o ≡ none
  unfolding bind_named
  not_named b again p a args none used s v h = refl
  not_named b again p a args (some w) used s v h = absurd (cc)

  by_position :
      (b : Binding V X D R) (again : List V → List Text → Step (World V D R) V X V)
      (p : Param (World V D R) V X) (a : V) (args : List V) (o : Option V) (used : List Text)
      (s : World V D R)
      → o ≡ none
      → bind_named b again p (a ∷ args) o used s ≡ again args used (bound b p.name a s)
  by_position b again p a args o used s h = unfold bind_named in rw h refl

  too_many :
      (b : Binding V X D R) (a : V) (args : List V) (used : List Text) (s : World V D R) (v : V)
      → (bind_params b [] (a ∷ args) used s).0 ≡ ok v
      → ⊥
  unfolding bind_params
  too_many b a args used s v k = cc

  ends_too : (r r' : Outcome V X V × World V D R) (v : V) → r ≡ r' → r.0 ≡ ok v → r'.0 ≡ ok v
  ends_too r r' v e h = sym (ap (λ (x : Outcome V X V × World V D R). x.0) e) ∙ h

  -- Where no parameter collects arguments and the binding succeeds: there are at most as many
  -- positional arguments as parameters; none of the parameters at their places has a keyword
  -- argument; and each of them is set to the argument at its place, in this order, before the other
  -- parameters are bound without positional arguments.
  pub bind_params_lem :
      (b : Binding V X D R) (ps : List (Param (World V D R) V X)) (args : List V) (used : List Text)
      (s : World V D R) (v : V)
      → Plain ps
      → (bind_params b ps args used s).0 ≡ ok v
      → (length args ≤ length ps)
        × Unnamed b.kwargs ps args
        × (bind_params b ps args used s
            ≡ bind_params b
                (drop (length args) ps)
                []
                used
                (record s { heap = set_all s.heap b.env ps args }))
  bind_params_lem b [] [] used s v plain h = (omega arith, tt, refl)
  bind_params_lem b [] (a ∷ args) used s v plain h = absurd (too_many b a args used s v h)
  bind_params_lem b (p ∷ ps) [] used s v plain h = (omega arith, tt, refl)
  bind_params_lem b (p ∷ ps) (a ∷ args) used s v plain h =
      let named = bind_params-named b p ps (a ∷ args) used s plain.0 plain.1 in
      let unnamed =
        not_named b (bind_params b ps) p a args (lookup p.name b.kwargs) used s v
          (ends_too _ _ v named h) in
      let moved =
        named ∙ by_position b (bind_params b ps) p a args (lookup p.name b.kwargs) used s unnamed in
      let rest =
        bind_params_lem b ps args used (bound b p.name a s) v plain.2 (ends_too _ _ v moved h) in
      (omega (arith, rest.0), (unnamed, rest.1), moved ∙ rest.2)
