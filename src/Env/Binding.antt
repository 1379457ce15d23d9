-- ===== src/Env/Binding.antt =====
-- What `Get` sees after `Set` and `Assign`.
use mathlib.Core.Path.{subst}
use kolang.Prelude.{
  ==_iff, ℕ, zero, suc, ◌<◌, ◌≡◌, ◌≢◌, refl, sym, ap, ◌∙◌, List, [], ◌∷◌, Bool, true, false, Option,
  none, some, Text, length, get_elem?, arith, ◌==◌, ◌||◌, if◌then◌else◌, Option-cases, inl, inr,
  Bool-cases, lookup, insert, lookup-insert, text_eq, text_eq_refl, if_split,
}
use kolang.Env.Store.{
  Scope, Store, local, store_in, get_in, get, set, owner, set_or, scopes, chain, assign,
  declared_in, root_of,
}
use kolang.Env.Chain.{get_elem?-modify, scopes-modify, changed}

abbrev pub contains : List ℕ → ℕ → Bool
contains [] e = false
contains (x ∷ xs) e = x == e || contains xs e

abbrev pub owns : Option ℕ → ℕ → Bool
owns none o = false
owns (some e) o = e == o

module _ {V : Type 0} where
  get_elem?-lt : (h : Store V) (e : ℕ) → e < length h → (s : Scope V) × (get_elem? h e ≡ some s)
  get_elem?-lt [] e lt = absurd (omega arith)
  get_elem?-lt (s ∷ h) zero lt = (s, refl)
  get_elem?-lt (s ∷ h) (suc e) lt = get_elem?-lt h e (omega arith)

  lt_of_get_elem? : (h : Store V) (e : ℕ) {s : Scope V} → get_elem? h e ≡ some s → e < length h
  lt_of_get_elem? [] e eq = cc
  lt_of_get_elem? (s ∷ h) zero eq = omega arith
  lt_of_get_elem? (s ∷ h) (suc e) eq = omega (arith, lt_of_get_elem? h e eq)

  -- A scope that binds a name is a scope of the store.
  lt_of_local : (h : Store V) (e : ℕ) (x : Text) {w : V} → local h e x ≡ some w → e < length h
  unfolding lookup
  lt_of_local h e x eq = elim (Option-cases (get_elem? h e)) [
    | inl out ↦ cc (rw out at eq)
    | inr (s, at) ↦ lt_of_get_elem? h e at
  ]

  pub local-set_self :
      (h : Store V) (o : ℕ) (x y : Text) (v : V)
      → o < length h
      → local (set h o x v) o y ≡ (if text_eq x y then some v else local h o y)
  unfolding set
  local-set_self h o x y v lt =
      let (s, at) = get_elem?-lt h o lt in
      rw (get_elem?-modify h o o, (==_iff o o).1 refl, at) (lookup-insert x y v s.store)

  pub local-set_ne :
      (h : Store V) (o e : ℕ) (x y : Text) (v : V) → o ≢ e → local (set h o x v) e y ≡ local h e y
  unfolding set
  local-set_ne h o e x y v ne = elim (Bool-cases (o == e)) [
    | inl same ↦ absurd (ne ((==_iff o e).0 same))
    | inr other ↦ rw (get_elem?-modify h o e, other)
  ]

  changed-other :
      (o : Option (Scope V)) (x y : Text) (v : V)
      → text_eq x y ≡ false
      → lookup y (store_in (changed (λ s. record s { store = insert x v s.store }) o))
        ≡ lookup y (store_in o)
  changed-other none x y v ne = refl
  changed-other (some s) x y v ne = lookup-insert x y v s.store ∙ rw ne

  -- Another name is bound as before.
  local-set_other :
      (h : Store V) (o e : ℕ) (x y : Text) (v : V)
      → text_eq x y ≡ false
      → local (set h o x v) e y ≡ local h e y
  unfolding set
  local-set_other h o e x y v ne =
      ap (λ s. lookup y (store_in s)) (get_elem?-modify h o e _)
      ∙ if_split (λ s. lookup y (store_in s) ≡ local h e y) (o == e) _ _
          (λ _. changed-other (get_elem? h e) x y v ne) (λ _. refl)

  get_in_ext :
      (h k : Store V) (es : List ℕ) (y : Text)
      → ((e : ℕ) → local k e y ≡ local h e y)
      → get_in k es y ≡ get_in h es y
  unfolding get_in
  get_in_ext h k [] y same = refl
  get_in_ext h k (e ∷ es) y same = rw (same e, get_in_ext h k es y same)

  -- The owner of a name binds it.
  owner-local :
      (h : Store V) (es : List ℕ) (x : Text) {o : ℕ}
      → owner h es x ≡ some o
      → (w : V) × (local h o x ≡ some w)
  unfolding owner
  owner-local h [] x eq = cc
  owner-local h (e ∷ es) x {o} eq = elim (Option-cases (local h e x)) [
    | inl free ↦ owner-local h es x (rw free at eq)
    | inr (w, bound) ↦
        let same : e ≡ o = ground (arith, bound) in
        (w, subst (λ k. local h k x ≡ some w) same bound)
  ]

  -- What a walk sees of a name that was set where `o` binds it.
  get_in-set :
      (h : Store V) (es : List ℕ) (o : ℕ) (x : Text) (v w : V)
      → local h o x ≡ some w
      → get_in (set h o x v) es x ≡ (if owns (owner h es x) o then some v else get_in h es x)
  unfolding get_in owner
  get_in-set h [] o x v w bound = refl
  get_in-set h (e ∷ es) o x v w bound = elim (Bool-cases (e == o)) [
    | inl same ↦
        let at : e ≡ o = (==_iff e o).0 same in
        let now : local (set h o x v) e x ≡ some v =
          subst (λ k. local (set h o x v) k x ≡ some v) (sym at)
            (local-set_self h o x x v (lt_of_local h o x bound) ∙ rw (text_eq_refl x)) in
        let before : local h e x ≡ some w = subst (λ k. local h k x ≡ some w) (sym at) bound in
        rw (now, before, same)
    | inr other ↦
        let same : local (set h o x v) e x ≡ local h e x =
          local-set_ne h o e x x v (λ eq. cc (other, (==_iff e o).1 (sym eq))) in
        rw (same, get_in-set h es o x v w bound)
          (elim (Option-cases (local h e x)) [
            | inl free ↦ rw free
            | inr (u, taken) ↦ rw (taken, other)
          ])
  ]

  -- Names that are not declared global or nonlocal in a scope.
  abbrev pub IsUndeclared : Store V → ℕ → Text → Type 0
  IsUndeclared h e x =
      (declared_in (λ s. s.globals) (get_elem? h e) x ≡ false)
      × (declared_in (λ s. s.nonlocs) (get_elem? h e) x ≡ false)

  assign_plain :
      (h : Store V) (e : ℕ) (x : Text) (v : V)
      → IsUndeclared h e x
      → assign h e x v ≡ set_or h (owner h (scopes h e) x) (some e) x v
  unfolding assign
  assign_plain h e x v (g, n) = rw (g, n)

  pub get-set :
      (h : Store V) (o e' : ℕ) (x y : Text) (v : V)
      → get (set h o x v) e' y ≡ get_in (set h o x v) (scopes h e') y
  unfolding get set
  get-set h o e' x y v = ap (λ es. get_in (set h o x v) es y) (scopes-modify h o e' _ (λ s. refl))

  -- An assignment in a scope that declares the name neither global nor nonlocal, where a scope up
  -- from it binds the name, writes the nearest one that does. Every scope whose own nearest binding
  -- is that one sees the new value, and every other scope sees what it saw.
  pub get-assign-owner :
      (h : Store V) (e e' o : ℕ) (x : Text) (v : V)
      → IsUndeclared h e x
      → owner h (scopes h e) x ≡ some o
      → get (assign h e x v) e' x
        ≡ (if owns (owner h (scopes h e') x) o then some v else get h e' x)
  unfolding get get_in
  get-assign-owner h e e' o x v plain own =
      let (w, bound) = owner-local h (scopes h e) x own in
      rw (assign_plain h e x v plain, own)
        (unfold set_or in get-set h o e' x x v ∙ get_in-set h (scopes h e') o x v w bound)

  pub get-set_other :
      (h : Store V) (o e' : ℕ) (x y : Text) (v : V)
      → text_eq x y ≡ false
      → get (set h o x v) e' y ≡ get h e' y
  unfolding get
  get-set_other h o e' x y v ne =
      get-set h o e' x y v
      ∙ get_in_ext h (set h o x v) (scopes h e') y (λ e. local-set_other h o e x y v ne)

  get-set_or_other :
      (h : Store V) (o fallback : Option ℕ) (e' : ℕ) (x y : Text) (v : V)
      → text_eq x y ≡ false
      → get (set_or h o fallback x v) e' y ≡ get h e' y
  unfolding set_or
  get-set_or_other h (some o) fallback e' x y v ne = get-set_other h o e' x y v ne
  get-set_or_other h none (some e) e' x y v ne = get-set_other h e e' x y v ne
  get-set_or_other h none none e' x y v ne = refl

  -- Another name keeps its value in every scope, whatever the declarations.
  pub get-assign_other :
      (h : Store V) (e e' : ℕ) (x y : Text) (v : V)
      → text_eq x y ≡ false
      → get (assign h e x v) e' y ≡ get h e' y
  unfolding assign
  get-assign_other h e e' x y v ne =
      if_split (λ k. get k e' y ≡ get h e' y) (declared_in (λ s. s.globals) (get_elem? h e) x) _ _
        (λ _. get-set_other h _ e' x y v ne)
        (λ _.
          if_split (λ k. get k e' y ≡ get h e' y) (declared_in (λ s. s.nonlocs) (get_elem? h e) x) _
            _ (λ _. get-set_or_other h _ _ e' x y v ne) (λ _. get-set_or_other h _ _ e' x y v ne))

  get_in-set_out :
      (h : Store V) (es : List ℕ) (o : ℕ) (x : Text) (v : V)
      → contains es o ≡ false
      → get_in (set h o x v) es x ≡ get_in h es x
  unfolding get_in
  get_in-set_out h [] o x v out = refl
  get_in-set_out h (e ∷ es) o x v out = elim (Bool-cases (e == o)) [
    | inl same ↦ cc (rw same at out)
    | inr other ↦ rw (
      local-set_ne h o e x x v (λ eq. cc (other, (==_iff e o).1 (sym eq))),
      get_in-set_out h es o x v (rw other at out),
    )
  ]

  get-set_self :
      (h : Store V) (e : ℕ) (x : Text) (v : V) → e < length h → get (set h e x v) e x ≡ some v
  get-set_self h e x v lt = get-set h e e x x v ∙ first
    where
      first : get_in (set h e x v) (scopes h e) x ≡ some v
      first = unfold get_in scopes chain in rw (local-set_self h e x x v lt, text_eq_refl x)

  -- An assignment in a scope of the store that declares the name neither global nor nonlocal, where
  -- no scope up from it binds the name, defines it in that scope. A scope whose walk does not pass
  -- that scope sees what it saw.
  pub get-assign_new :
      (h : Store V) (e e' : ℕ) (x : Text) (v : V)
      → e < length h
      → IsUndeclared h e x
      → owner h (scopes h e) x ≡ none
      → contains (scopes h e') e ≡ false
      → (get (assign h e x v) e x ≡ some v) × (get (assign h e x v) e' x ≡ get h e' x)
  unfolding get get_in
  get-assign_new h e e' x v lt plain own out =
      rw (assign_plain h e x v plain, own)
        (unfold set_or in
          (
            get-set_self h e x v lt,
            get-set h e e' x x v ∙ get_in-set_out h (scopes h e') e x v out,
          ))

  -- An assignment of a name that the scope declares global writes the root of the walk, which is in
  -- the store, and leaves the bindings of every other scope alone.
  pub assign_global :
      (h : Store V) (e k : ℕ) (x y : Text) (v : V)
      → declared_in (λ s. s.globals) (get_elem? h e) x ≡ true
      → root_of (scopes h e) e < length h
      → root_of (scopes h e) e ≢ k
      → (get (assign h e x v) (root_of (scopes h e) e) x ≡ some v)
        × (local (assign h e x v) k y ≡ local h k y)
  unfolding assign
  assign_global h e k x y v decl lt ne = rw decl (
    get-set_self h (root_of (scopes h e) e) x v lt,
    local-set_ne h (root_of (scopes h e) e) k x y v ne,
  )
