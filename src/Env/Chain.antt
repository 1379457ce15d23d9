-- ===== src/Env/Chain.antt =====
-- Parents are older than their children, every operation keeps that, and so the walk up the
-- parents ends at a root.
use kolang.Prelude.{
  ℕ, zero, suc, ◌<◌, ◌≡◌, refl, ap, ◌∙◌, ◌⊎◌, List, [], ◌∷◌, ◌++◌, Option, none, some, Text, length,
  get_elem?, arith, ◌==◌, if◌then◌else◌, Option-cases, if_split, inl, inr,
}
use kolang.Env.Store.{
  Scope, Store, modify, parent_of, chain, scopes, up, new_env, set, set_or, assign, root_of,
  declare_global, declare_nonlocal, set_type, declared_in,
}

up_ext : {f g : ℕ → List ℕ} (o : Option ℕ) → ((p : ℕ) → f p ≡ g p) → up f o ≡ up g o
up_ext none h = refl
up_ext (some p) h = h p

module _ {V : Type 0} where
  abbrev pub changed : (Scope V → Scope V) → Option (Scope V) → Option (Scope V)
  changed f none = none
  changed f (some s) = some (f s)

  pub get_elem?-modify :
      (h : Store V) (e x : ℕ) (f : Scope V → Scope V)
      → get_elem? (modify h e f) x ≡ (if e == x then changed f (get_elem? h x) else get_elem? h x)
  unfolding modify
  get_elem?-modify [] e x f = ground arith
  get_elem?-modify (s ∷ h) zero zero f = refl
  get_elem?-modify (s ∷ h) zero (suc x) f = ground arith
  get_elem?-modify (s ∷ h) (suc e) zero f = ground arith
  get_elem?-modify (s ∷ h) (suc e) (suc x) f = ground (arith, get_elem?-modify h e x f)

  -- A change that leaves the parents alone.
  abbrev pub KeepsParent : (Scope V → Scope V) → Type 0
  KeepsParent f = (s : Scope V) → (f s).parent ≡ s.parent

  pub parent_of-modify :
      (h : Store V) (e x : ℕ) (f : Scope V → Scope V)
      → KeepsParent f
      → parent_of (modify h e f) x ≡ parent_of h x
  unfolding modify
  parent_of-modify [] e x f k = refl
  parent_of-modify (s ∷ h) zero zero f k = k s
  parent_of-modify (s ∷ h) zero (suc x) f k = refl
  parent_of-modify (s ∷ h) (suc e) zero f k = refl
  parent_of-modify (s ∷ h) (suc e) (suc x) f k = parent_of-modify h e x f k

  pub chain-modify :
      (fuel : ℕ) (h : Store V) (e x : ℕ) (f : Scope V → Scope V)
      → KeepsParent f
      → chain fuel (modify h e f) x ≡ chain fuel h x
  unfolding chain
  chain-modify zero h e x f k = refl
  chain-modify (suc fuel) h e x f k =
      rw (parent_of-modify h e x f k)
        (ap (◌∷◌ x) (up_ext (parent_of h x) (λ p. chain-modify fuel h e p f k)))

  pub scopes-modify :
      (h : Store V) (e x : ℕ) (f : Scope V → Scope V)
      → KeepsParent f
      → scopes (modify h e f) x ≡ scopes h x
  unfolding scopes
  scopes-modify h e x f k = chain-modify (suc x) h e x f k

  -- Every parent is an older scope.
  abbrev pub IsOrdered : Store V → Type 0
  IsOrdered h = (e p : ℕ) → parent_of h e ≡ some p → p < e

  modify-IsOrdered :
      (h : Store V) (e : ℕ) (f : Scope V → Scope V)
      → KeepsParent f
      → IsOrdered h
      → IsOrdered (modify h e f)
  modify-IsOrdered h e f k ordered x p q = ordered x p (cc (parent_of-modify h e x f k))

  get_elem?-append_one :
      (h : Store V) (s t : Scope V) (x : ℕ)
      → get_elem? (h ++ (s ∷ [])) x ≡ some t
      → (get_elem? h x ≡ some t) ⊎ ((x ≡ length h) × (s ≡ t))
  get_elem?-append_one [] s t zero e = inr (refl, ground arith)
  get_elem?-append_one [] s t (suc x) e = cc
  get_elem?-append_one (r ∷ h) s t zero e = inl e
  get_elem?-append_one (r ∷ h) s t (suc x) e = elim (get_elem?-append_one h s t x e) [
    | inl k ↦ inl k
    | inr (k, l) ↦ inr (ap suc k, l)
  ]

  -- `NewEnv` keeps the order when the parent is a scope of the store, or missing.
  new_env-IsOrdered :
      (h : Store V) (parent : Option ℕ)
      → ((p : ℕ) → parent ≡ some p → p < length h)
      → IsOrdered h
      → IsOrdered (new_env h parent).0
  unfolding new_env
  new_env-IsOrdered h parent known ordered x p q =
      elim (Option-cases (get_elem? (new_env h parent).0 x)) [
        | inl out ↦ absurd (none_parent out)
        | inr (t, at) ↦ elim (get_elem?-append_one h _ t x at) [
          | inl old ↦ ordered x p (rw old (rw at at q))
          | inr (at_end, new) ↦
              let of_new : parent ≡ some p = ap (λ (s : Scope V). s.parent) new ∙ rw at at q in
              rw at_end (known p of_new)
        ]
      ]
    where
      none_parent : get_elem? (new_env h parent).0 x ≡ none → ⊥
      none_parent out = cc (rw out at q)

  set-IsOrdered :
      (h : Store V) (e : ℕ) (name : Text) (v : V) → IsOrdered h → IsOrdered (set h e name v)
  unfolding set
  set-IsOrdered h e name v = modify-IsOrdered h e _ (λ s. refl)

  set_or-IsOrdered :
      (h : Store V) (o fallback : Option ℕ) (name : Text) (v : V)
      → IsOrdered h
      → IsOrdered (set_or h o fallback name v)
  unfolding set_or
  set_or-IsOrdered h (some o) fallback name v k = set-IsOrdered h o name v k
  set_or-IsOrdered h none (some e) name v k = set-IsOrdered h e name v k
  set_or-IsOrdered h none none name v k = k

  assign-IsOrdered :
      (h : Store V) (e : ℕ) (name : Text) (v : V) → IsOrdered h → IsOrdered (assign h e name v)
  unfolding assign
  assign-IsOrdered h e name v k =
      if_split IsOrdered (declared_in (λ s. s.globals) (get_elem? h e) name) _ _
        (λ _. set-IsOrdered h _ name v k)
        (λ _.
          if_split IsOrdered (declared_in (λ s. s.nonlocs) (get_elem? h e) name) _ _
            (λ _. set_or-IsOrdered h _ _ name v k) (λ _. set_or-IsOrdered h _ _ name v k))

  -- One operation of the program on its scopes. A scope is made under a scope that is there.
  pub data Evolves (h : Store V) : Store V → Type 0 where
    opens :
        (parent : Option ℕ)
        → ((p : ℕ) → parent ≡ some p → p < length h)
        → Evolves h (new_env h parent).0
    sets : (e : ℕ) (name : Text) (v : V) → Evolves h (set h e name v)
    assigns : (e : ℕ) (name : Text) (v : V) → Evolves h (assign h e name v)
    declares_global : (e : ℕ) (name : Text) → Evolves h (declare_global h e name)
    declares_nonlocal : (e : ℕ) (name : Text) → Evolves h (declare_nonlocal h e name)
    sets_type : (e : ℕ) (name ann : Text) → Evolves h (set_type h e name ann)

  -- The stores that the operations build from the empty one.
  pub data Built : Store V → Type 0 where
    empty : Built []
    next : {h k : Store V} → Built h → Evolves h k → Built k

  Evolves-IsOrdered : {h k : Store V} → Evolves h k → IsOrdered h → IsOrdered k
  unfolding declare_global declare_nonlocal set_type
  Evolves-IsOrdered {h = h} (opens parent known) o = new_env-IsOrdered h parent known o
  Evolves-IsOrdered {h = h} (sets e name v) o = set-IsOrdered h e name v o
  Evolves-IsOrdered {h = h} (assigns e name v) o = assign-IsOrdered h e name v o
  Evolves-IsOrdered {h = h} (declares_global e name) o = modify-IsOrdered h e _ (λ s. refl) o
  Evolves-IsOrdered {h = h} (declares_nonlocal e name) o = modify-IsOrdered h e _ (λ s. refl) o
  Evolves-IsOrdered {h = h} (sets_type e name ann) o = modify-IsOrdered h e _ (λ s. refl) o

  pub Built-IsOrdered : {h : Store V} → Built h → IsOrdered h
  Built-IsOrdered empty = λ e p q. cc
  Built-IsOrdered (next b s) = Evolves-IsOrdered s (Built-IsOrdered b)

  -- The walk reaches a root: with fuel above the place, the last scope has no parent, and more
  -- fuel changes nothing.
  chain-root :
      (fuel : ℕ) (h : Store V) (e d : ℕ)
      → e < fuel
      → IsOrdered h
      → parent_of h (root_of (chain fuel h e) d) ≡ none
  unfolding chain root_of
  chain-root zero h e d enough ordered = absurd (omega arith)
  chain-root (suc fuel) h e d enough ordered = elim (Option-cases (parent_of h e)) [
    | inl root ↦ rw (root, up, root_of) root
    | inr (p, up_to) ↦ rw up_to (chain-root fuel h p e (omega (arith, ordered e p up_to)) ordered)
  ]

  chain-fuel :
      (fuel more : ℕ) (h : Store V) (e : ℕ)
      → e < fuel
      → e < more
      → IsOrdered h
      → chain fuel h e ≡ chain more h e
  unfolding chain
  chain-fuel zero more h e lt lt' ordered = absurd (omega arith)
  chain-fuel (suc fuel) zero h e lt lt' ordered = absurd (omega arith)
  chain-fuel (suc fuel) (suc more) h e lt lt' ordered = elim (Option-cases (parent_of h e)) [
    | inl root ↦ rw root
    | inr (p, up_to) ↦
        let older = ordered e p up_to in
        rw up_to (ap (◌∷◌ e) (chain-fuel fuel more h p (omega arith) (omega arith) ordered))
  ]

  -- In every store that the operations build, the walk up the parents from any scope ends at a
  -- scope with no parent, and no larger amount of fuel visits another scope.
  pub Built-scopes :
      {h : Store V} (e more : ℕ)
      → e < more
      → Built h
      → (parent_of h (root_of (scopes h e) e) ≡ none) × (chain more h e ≡ scopes h e)
  unfolding scopes
  Built-scopes {h = h} e more lt b =
      let o = Built-IsOrdered b in
      (chain-root (suc e) h e e (omega arith) o, chain-fuel more (suc e) h e lt (omega arith) o)
