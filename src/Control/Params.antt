-- ===== src/Control/Params.antt =====
-- internal/eval/eval_expr.go: `bindParams`.
pub mod Count
use kolang.Prelude.{
  ℕ, List, [], ◌∷◌, ◌++◌, Option, none, some, Bool, true, false, if◌then◌else◌, Text, lookup, has,
  map,
}
use kolang.Env.Store.{set}
use kolang.Control.World.{Signal, Outcome, ok, err, Step, World, bind}

module _ (S V X : Type 0) where
  -- `Param`, with what the evaluation of its default does, and what failing on it signals.
  pub record Param : Type 0 where
    pub name : Text
    pub default : Option (Step S V X V)
    pub variadic : Bool
    pub kwargs : Bool
    pub missing : Signal V X

-- The keyword arguments whose names are not among the used ones.
unfoldable pub unused : {V : Type 0} → List Text → List (Text × V) → List (Text × V)
unused used [] = []
unused used ((k, v) ∷ rest) =
    let others = unused used rest in if has k used then others else (k, v) ∷ others

abbrev pub names : {V : Type 0} → List (Text × V) → List Text
names [] = []
names ((k, v) ∷ rest) = k ∷ names rest

-- What a call brings: how it makes a list and a dict value, the keyword arguments, the scope of the
-- call, and what the two type errors do.
module _ (V X D R : Type 0) where
  pub record Binding : Type 0 where
    pub make_list : List V → V
    pub make_dict : List (Text × V) → V
    pub kwargs : List (Text × V)
    pub env : ℕ
    pub nil : V
    pub duplicate : World V D R → Signal V X × World V D R
    pub too_many : World V D R → Signal V X × World V D R

module _ {V X D R : Type 0} where
  abbrev pub failing : (World V D R → Signal V X × World V D R) → Step (World V D R) V X V
  failing raise s = (err (raise s).0, (raise s).1)

  abbrev pub bound : Binding V X D R → Text → V → World V D R → World V D R
  bound b name v s = record s { heap = set s.heap b.env name v }

  -- A named parameter: by position, by keyword, or by its default. `again` is the rest of the
  -- loop, from the positional arguments that are left and the keywords that are used.
  unfoldable pub bind_named :
      Binding V X D R
      → (List V → List Text → Step (World V D R) V X V)
      → Param (World V D R) V X
      → List V
      → Option V
      → List Text
      → Step (World V D R) V X V
  bind_named b again p (a ∷ args) (some v) used s = failing b.duplicate s
  bind_named b again p [] (some v) used s = again [] (p.name ∷ used) (bound b p.name v s)
  bind_named b again p (a ∷ args) none used s = again args used (bound b p.name a s)
  bind_named b again p [] none used s = elim p.default [
    | none ↦ (err p.missing, s)
    | some d ↦ bind d (λ v t. again [] used (bound b p.name v t)) s
  ]

  unfoldable pub bind_one :
      Binding V X D R
      → (List V → List Text → Step (World V D R) V X V)
      → Param (World V D R) V X
      → List V
      → List Text
      → Step (World V D R) V X V
  unfolding bind_named unused
  bind_one b again p args used s =
      if p.variadic
      then again [] used (bound b p.name (b.make_list args) s)
      else if p.kwargs
      then again args (used ++ names b.kwargs)
          (bound b p.name (b.make_dict (unused used b.kwargs)) s)
      else bind_named b again p args (lookup p.name b.kwargs) used s

  -- `bindParams`, from the parameters that are left.
  unfoldable pub bind_params :
      Binding V X D R
      → List (Param (World V D R) V X)
      → List V
      → List Text
      → Step (World V D R) V X V
  unfolding bind_one
  bind_params b [] [] used s = (ok b.nil, s)
  bind_params b [] (a ∷ args) used s = failing b.too_many s
  bind_params b (p ∷ ps) args used s = bind_one b (bind_params b ps) p args used s
