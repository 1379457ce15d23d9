-- ===== src/Env/Define.antt =====
-- internal/eval/eval.go: `Set` on a scope of the store, and `Get` behind it.
use kolang.Prelude.{
  ℕ, zero, suc, ◌<◌, ◌≡◌, refl, ap, ◌∙◌, [], ◌∷◌, some, Bool-cases, inl, inr, Text, text_eq, length,
  if◌then◌else◌, true,
}
use kolang.Env.Store.{Scope, Store, modify, chain, scopes, get, get_in, set}
use kolang.Env.Binding.{local-set_self, get-set, get-set_other}

module _ {V : Type 0} where
  length-modify : (h : Store V) (e : ℕ) (f : Scope V → Scope V) → length (modify h e f) ≡ length h
  unfolding modify
  length-modify [] e f = refl
  length-modify (s ∷ h) zero f = refl
  length-modify (s ∷ h) (suc e) f = ap suc (length-modify h e f)

  pub length-set : (h : Store V) (e : ℕ) (x : Text) (v : V) → length (set h e x v) ≡ length h
  unfolding set
  length-set h e x v = length-modify h e _

  get_in-first :
      (h : Store V) (e : ℕ) (x y : Text) (v : V)
      → e < length h
      → text_eq x y ≡ true
      → get_in (set h e x v) (scopes h e) y ≡ some v
  unfolding get_in scopes chain
  get_in-first h e x y v lt same = rw (local-set_self h e x y v lt, same) refl

  -- A name that is defined in a scope is found there, and the others are found as before.
  pub get-set_lem :
      (h : Store V) (e : ℕ) (x y : Text) (v : V)
      → e < length h
      → get (set h e x v) e y ≡ (if text_eq x y then some v else get h e y)
  get-set_lem h e x y v lt = elim (Bool-cases (text_eq x y)) [
    | inl same ↦ rw same (get-set h e e x y v ∙ get_in-first h e x y v lt same)
    | inr other ↦ rw other (get-set_other h e e x y v other)
  ]
