-- ===== src/Classes/Define/Known.antt =====
-- internal/eval/eval_oop.go: the classes that scopes hold, and the lookup of a parent.
use kolang.Prelude.{
  ℕ, zero, suc, ◌<◌, ◌≡◌, refl, sym, ap, ◌∙◌, List, [], ◌∷◌, ◌++◌, Option, none, some, Bool, true,
  false, arith, ◌≤◌, ◌==◌, if◌then◌else◌, lookup, insert, lookup-insert, text_eq, get_elem?, Text,
  ◌⊎◌, inl, inr,
}
use kolang.Env.Store.{Scope, Store, local, store_in, scopes, or_else, get, get_in, set, new_env}
use kolang.Env.Chain.{get_elem?-modify, changed}
use kolang.Classes.Define.{resolved, asserted, looked_up, resolve_parent}

module _ {V : Type 0} (as_class : V → Option ℕ) where
  -- A value that is a class is one of the first n classes.
  abbrev pub IsOld : ℕ → V → Type 0
  IsOld n v = (p : ℕ) → as_class v ≡ some p → p < n

  abbrev pub Known : Store V → ℕ → Type 0
  Known h n = (e : ℕ) (name : Text) (v : V) → local h e name ≡ some v → IsOld n v

  pub Known-more : (h : Store V) (n m : ℕ) → n ≤ m → Known h n → Known h m
  Known-more h n m less known e name v at p is = omega (arith, known e name v at p is)

  get_in-Known :
      (h : Store V) (n : ℕ)
      → Known h n
      → (es : List ℕ) (name : Text) (v : V) → get_in h es name ≡ some v
      → IsOld n v
  unfolding get_in
  get_in-Known h n known [] name v at = absurd (cc)
  get_in-Known h n known (e ∷ es) name v at =
      here (local h e name) refl at (get_in-Known h n known es name v)
    where
      here :
          (o : Option V)
          → local h e name ≡ o
          → or_else o (get_in h es name) ≡ some v
          → (get_in h es name ≡ some v → IsOld n v)
          → IsOld n v
      here none found at rest = rest at
      here (some w) found at rest = known e name v (found ∙ at)

  pub nothing_held : (y : Text) (w : V) → lookup y [] ≡ some w → ⊥
  unfolding lookup
  nothing_held y w at = cc

  -- What a scope holds behind `Set`: the value that was set, or what it held.
  changed_cases :
      (o : Option (Scope V)) (x y : Text) (v w : V)
      → lookup y (store_in (changed (λ (s : Scope V). record s { store = insert x v s.store }) o))
        ≡ some w
      → (some v ≡ some w) ⊎ (lookup y (store_in o) ≡ some w)
  changed_cases none x y v w at = absurd (nothing_held y w at)
  changed_cases (some s) x y v w at = on (text_eq x y) (sym (lookup-insert x y v s.store) ∙ at)
    where
      on :
          (b : Bool)
          → (if b then some v else lookup y s.store) ≡ some w
          → (some v ≡ some w) ⊎ (lookup y s.store ≡ some w)
      on true e = inl e
      on false e = inr e

  set_cases :
      (h : Store V) (o e : ℕ) (x y : Text) (v w : V)
      → local (set h o x v) e y ≡ some w
      → (some v ≡ some w) ⊎ (local h e y ≡ some w)
  unfolding set
  set_cases h o e x y v w at = on (o == e) (
      sym (
        ap (λ (s : Option (Scope V)). lookup y (store_in s))
          (get_elem?-modify h o e (λ (s : Scope V). record s { store = insert x v s.store })))
      ∙ at)
    where
      on :
          (b : Bool)
          → lookup y (
              store_in (
                if b
                then changed
                    (λ (s : Scope V). record s { store = insert x v s.store })
                    (get_elem? h e)
                else get_elem? h e))
            ≡ some w
          → (some v ≡ some w) ⊎ (local h e y ≡ some w)
      on true f = changed_cases (get_elem? h e) x y v w f
      on false f = inr f

  pub set-Known :
      (h : Store V) (n : ℕ) (o : ℕ) (name : Text) (v : V)
      → Known h n
      → IsOld n v
      → Known (set h o name v) n
  set-Known h n o name v known old e x w at = elim (set_cases h o e name x v w at) [
    | inl same ↦ λ p is. old p (ap_class same ∙ is)
    | inr before ↦ known e x w before
  ]
    where
      ap_class : some v ≡ some w → as_class v ≡ as_class w
      ap_class f = cc f

  abbrev empty_scope : Option ℕ → Scope V
  empty_scope parent = record {
    store = [];
    types = [];
    parent = parent;
    globals = [];
    nonlocs = [];
  }

  pub new_env-Known :
      (h : Store V) (n : ℕ) (parent : Option ℕ) → Known h n → Known (new_env h parent).0 n
  unfolding new_env
  new_env-Known h n parent known e x w at = known e x w (appended h e at)
    where
      appended :
          (k : Store V) (i : ℕ)
          → local (k ++ (empty_scope parent ∷ [])) i x ≡ some w
          → local k i x ≡ some w
      appended [] zero f = absurd (nothing_held x w f)
      appended [] (suc i) f = absurd (nothing_held x w f)
      appended (s ∷ k) zero f = f
      appended (s ∷ k) (suc i) f = appended k i f

  looked_up-IsOld :
      (n : ℕ) (o : Option V)
      → ((v : V) → o ≡ some v → IsOld n v)
      → (q : Option ℕ) (p : ℕ) → looked_up as_class o ≡ resolved q
      → q ≡ some p
      → p < n
  looked_up-IsOld n none old q p e f = absurd (cc)
  looked_up-IsOld n (some v) old q p e f = on (as_class v) refl e
    where
      on : (c : Option ℕ) → as_class v ≡ c → asserted as_class c ≡ resolved q → p < n
      on none is g = absurd (cc)
      on (some c) is g = old v refl p (is ∙ cc (g, f))

  pub resolve_parent-IsOld :
      (h : Store V) (n e : ℕ) (parent : Option Text)
      → Known h n
      → (q : Option ℕ) (p : ℕ) → resolve_parent as_class h e parent ≡ resolved q
      → q ≡ some p
      → p < n
  unfolding resolve_parent get
  resolve_parent-IsOld h n e none known q p r f = absurd (cc)
  resolve_parent-IsOld h n e (some name) known q p r f =
      looked_up-IsOld n (get h e name) (λ v at. get_in-Known h n known (scopes h e) name v at) q p r
        f

module _ {V : Type 0} (as_class : V → Option ℕ) (class_value : ℕ → V)
    (same_class : (c : ℕ) → as_class (class_value c) ≡ some c) where
  pub class_value-IsOld : (c n : ℕ) → c < n → IsOld as_class n (class_value c)
  class_value-IsOld c n less p is =
      let same : c ≡ p = cc (same_class c, is) in omega (arith, same, less)
