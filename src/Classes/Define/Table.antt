-- ===== src/Classes/Define/Table.antt =====
-- internal/eval/eval_oop.go: the table of the classes as a class or a method is added.
use kolang.Prelude.{
  ℕ, zero, suc, ◌<◌, ◌≡◌, refl, ap, List, [], ◌∷◌, ◌++◌, some, Bool, arith, length, Text, ◌⊎◌, inl,
  inr,
}
use kolang.Classes.{Class, parent_of, add_method}
use kolang.Classes.Chain.{IsOrdered}

module _ {F : Type 0} where
  parent_of-snoc :
      (t : List (Class F)) (k : Class F) (c p : ℕ)
      → parent_of (t ++ (k ∷ [])) c ≡ some p
      → ((c < length t) × (parent_of t c ≡ some p)) ⊎ ((c ≡ length t) × (k.parent ≡ some p))
  parent_of-snoc [] k zero p h = inr (refl, h)
  parent_of-snoc [] k (suc c) p h = absurd (cc)
  parent_of-snoc (x ∷ t) k zero p h = inl (omega arith, h)
  parent_of-snoc (x ∷ t) k (suc c) p h = elim (parent_of-snoc t k c p h) [
    | inl (less, e) ↦ inl (omega arith, e)
    | inr (last, e) ↦ inr (ap suc last, e)
  ]

  pub snoc-IsOrdered :
      (t : List (Class F)) (k : Class F)
      → ((p : ℕ) → k.parent ≡ some p → p < length t)
      → IsOrdered (parent_of t)
      → IsOrdered (parent_of (t ++ (k ∷ [])))
  snoc-IsOrdered t k known ordered c p h = elim (parent_of-snoc t k c p h) [
    | inl (less, e) ↦ ordered c p e
    | inr (last, e) ↦ let older = known p e in omega arith
  ]

  pub parent_of-add_method :
      (t : List (Class F)) (c : ℕ) (name : Text) (fn : F) (b : Bool) (x : ℕ)
      → parent_of (add_method t c name fn b) x ≡ parent_of t x
  unfolding add_method
  parent_of-add_method [] c name fn b x = refl
  parent_of-add_method (k ∷ t) zero name fn b zero = refl
  parent_of-add_method (k ∷ t) zero name fn b (suc x) = refl
  parent_of-add_method (k ∷ t) (suc c) name fn b zero = refl
  parent_of-add_method (k ∷ t) (suc c) name fn b (suc x) = parent_of-add_method t c name fn b x

  pub length-snoc : (t : List (Class F)) (k : Class F) → length (t ++ (k ∷ [])) ≡ suc (length t)
  length-snoc [] k = refl
  length-snoc (x ∷ t) k = ap suc (length-snoc t k)

  pub length-add_method :
      (t : List (Class F)) (c : ℕ) (name : Text) (fn : F) (b : Bool)
      → length (add_method t c name fn b) ≡ length t
  unfolding add_method
  length-add_method [] c name fn b = refl
  length-add_method (k ∷ t) zero name fn b = refl
  length-add_method (k ∷ t) (suc c) name fn b = ap suc (length-add_method t c name fn b)
