-- ===== src/Env/Store.antt =====
-- internal/eval/eval.go, the type `Env`. Scopes are shared by reference, so they live in a store:
-- an environment is its place there, and a parent is the place of an older scope. Maps are
-- association lists. The mutex of a scope only serialises the steps that stand here one by one.
use kolang.Prelude.{
  ℕ, zero, suc, List, [], ◌∷◌, ◌++◌, Bool, Option, none, some, if◌then◌else◌, Text, lookup, insert,
  has, length, get_elem?,
}

module _ (V : Type 0) where
  pub record Scope : Type 0 where
    pub store : List (Text × V)
    pub types : List (Text × Text)
    pub parent : Option ℕ
    pub globals : List Text
    pub nonlocs : List Text

abbrev pub Store : Type 0 → Type 0
Store V = List (Scope V)

-- `for root.parent != nil`: the last scope of a chain.
unfoldable pub root_of : List ℕ → ℕ → ℕ
root_of [] e = e
root_of (e ∷ es) _ = root_of es e

abbrev pub up : (ℕ → List ℕ) → Option ℕ → List ℕ
up above none = []
up above (some p) = above p

-- `if ok { return v, true }` before the rest of a walk.
abbrev pub or_else : {A : Type 0} → Option A → Option A → Option A
or_else none rest = rest
or_else (some v) rest = some v

abbrev pub if_bound : {A : Type 0} → Option A → ℕ → Option ℕ → Option ℕ
if_bound none e rest = rest
if_bound (some v) e rest = some e

module _ {V : Type 0} where
  -- The scope at a place is changed; a place out of bounds changes nothing.
  unfoldable pub modify : Store V → ℕ → (Scope V → Scope V) → Store V
  modify [] e f = []
  modify (s ∷ h) zero f = f s ∷ h
  modify (s ∷ h) (suc e) f = s ∷ modify h e f

  abbrev pub parent_in : Option (Scope V) → Option ℕ
  parent_in none = none
  parent_in (some s) = s.parent

  abbrev pub parent_of : Store V → ℕ → Option ℕ
  parent_of h e = parent_in (get_elem? h e)

  abbrev pub store_in : Option (Scope V) → List (Text × V)
  store_in none = []
  store_in (some s) = s.store

  abbrev pub types_in : Option (Scope V) → List (Text × Text)
  types_in none = []
  types_in (some s) = s.types

  -- `_, ok := env.store[name]` and its value.
  abbrev pub local : Store V → ℕ → Text → Option V
  local h e name = lookup name (store_in (get_elem? h e))

  -- The scopes that `for env := e; env != nil; env = env.parent` visits, the innermost first.
  unfoldable pub chain : ℕ → Store V → ℕ → List ℕ
  chain zero h e = []
  chain (suc fuel) h e = e ∷ up (chain fuel h) (parent_of h e)

  -- A parent is older than its child, so one unit of fuel more than the place is enough.
  unfoldable pub scopes : Store V → ℕ → List ℕ
  unfolding chain
  scopes h e = chain (suc e) h e

  -- `NewEnv`: the store with the new scope, and its place.
  unfoldable pub new_env : Store V → Option ℕ → Store V × ℕ
  new_env h parent = (
    h ++ (record { store = []; types = []; parent = parent; globals = []; nonlocs = [] } ∷ []),
    length h,
  )

  unfoldable pub get_in : Store V → List ℕ → Text → Option V
  get_in h [] name = none
  get_in h (e ∷ es) name = or_else (local h e name) (get_in h es name)

  -- `Get`.
  unfoldable pub get : Store V → ℕ → Text → Option V
  get h e name = get_in h (scopes h e) name

  -- `Set`.
  unfoldable pub set : Store V → ℕ → Text → V → Store V
  unfolding modify
  set h e name v = modify h e (λ s. record s { store = insert name v s.store })

  -- The nearest of the given scopes that binds the name.
  unfoldable pub owner : Store V → List ℕ → Text → Option ℕ
  owner h [] name = none
  owner h (e ∷ es) name = if_bound (local h e name) e (owner h es name)

  abbrev pub declared_in : (Scope V → List Text) → Option (Scope V) → Text → Bool
  declared_in decls none name = Bool.false
  declared_in decls (some s) name = has name (decls s)

  -- Update the owner, or else define the name in the given scope, if there is one.
  unfoldable pub set_or : Store V → Option ℕ → Option ℕ → Text → V → Store V
  unfolding set
  set_or h (some o) fallback name v = set h o name v
  set_or h none (some e) name v = set h e name v
  set_or h none none name v = h

  abbrev pub scopes_from : Store V → Option ℕ → List ℕ
  scopes_from h none = []
  scopes_from h (some e) = scopes h e

  -- `Assign`: a name declared global goes to the root, a nonlocal one to the nearest enclosing
  -- owner or the parent, any other one to the nearest owner or this scope.
  unfoldable pub assign : Store V → ℕ → Text → V → Store V
  assign h e name v =
      if declared_in (λ s. s.globals) (get_elem? h e) name
      then set h (root_of (scopes h e) e) name v
      else if declared_in (λ s. s.nonlocs) (get_elem? h e) name
      then set_or h (owner h (scopes_from h (parent_of h e)) name) (parent_of h e) name v
      else set_or h (owner h (scopes h e) name) (some e) name v

  -- `DeclareGlobal` and `DeclareNonlocal`.
  unfoldable pub declare_global : Store V → ℕ → Text → Store V
  unfolding modify
  declare_global h e name = modify h e (λ s. record s { globals = name ∷ s.globals })

  unfoldable pub declare_nonlocal : Store V → ℕ → Text → Store V
  unfolding modify
  declare_nonlocal h e name = modify h e (λ s. record s { nonlocs = name ∷ s.nonlocs })

  -- `SetType` and `GetType`.
  unfoldable pub set_type : Store V → ℕ → Text → Text → Store V
  unfolding modify
  set_type h e name ann = modify h e (λ s. record s { types = insert name ann s.types })

  unfoldable pub get_type_in : Store V → List ℕ → Text → Option Text
  get_type_in h [] name = none
  get_type_in h (e ∷ es) name =
      or_else (lookup name (types_in (get_elem? h e))) (get_type_in h es name)

  unfoldable pub get_type : Store V → ℕ → Text → Option Text
  get_type h e name = get_type_in h (scopes h e) name
