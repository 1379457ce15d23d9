-- ===== src/Classes/Inherit.antt =====
-- What a class inherits, in a table whose parents are older than their children.
use kolang.Prelude.{
  ℕ, zero, suc, ◌<◌, ◌==◌, ==_iff, ◌↔◌, ◌≡◌, refl, sym, ◌∙◌, List, [], ◌∷◌, Option, none, some,
  Bool, true, false, if◌then◌else◌, arith, Text, lookup, get_elem?,
}
use kolang.Classes.{
  Class, up, walk, any, parent_of, ancestors, instance_of, is_exception_class, has_method,
  lookup_method, lookup_in, satisfies_interface, methods_in, is_some, found, ex_builtin_in,
}
use kolang.Classes.Chain.{IsOrdered, IsUpFrom, walk-IsUpFrom, IsUpFrom-walk, walk-suc, any-walk}

module _ {F : Type 0} (t : List (Class F)) (ordered : IsOrdered (parent_of t)) where
  up_any :
      (test : ℕ → Bool) (a b : ℕ)
      → instance_of t a b ≡ true
      → any test (ancestors t b) ≡ true
      → any test (ancestors t a) ≡ true
  unfolding instance_of ancestors
  up_any test a b h k = any-walk (parent_of t) ordered test (suc a) a b (omega arith) h k

  instance_of-any : (a b : ℕ) → instance_of t a b ≡ any (λ k. k == b) (ancestors t a)
  unfolding instance_of
  instance_of-any a b = refl

  exception_any :
      (a : ℕ) → is_exception_class t a ≡ any (λ k. ex_builtin_in (get_elem? t k)) (ancestors t a)
  unfolding is_exception_class
  exception_any a = refl

  passes :
      (test : ℕ → Bool) (a : ℕ)
      → (any test (ancestors t a) ≡ true) ↔ ((k : ℕ) × IsUpFrom (parent_of t) a k × (test k ≡ true))
  unfolding ancestors
  passes test a = (
    (λ h. walk-IsUpFrom (parent_of t) test (suc a) a h),
    (λ h. IsUpFrom-walk (parent_of t) ordered test (suc a) a h.0 h.1 h.2 (omega arith)),
  )

  -- Where parents are older than their children: a class is an instance of the classes that are
  -- reached from it by going from child to parent any number of times, itself included, and of no
  -- others; it is an exception class if and only if a builtin exception class is reached.
  pub instance_of_lem :
      (a b : ℕ)
      → ((instance_of t a b ≡ true) ↔ IsUpFrom (parent_of t) a b)
        × ((is_exception_class t a ≡ true)
            ↔ ((k : ℕ) × IsUpFrom (parent_of t) a k × (ex_builtin_in (get_elem? t k) ≡ true)))
  instance_of_lem a b = (
    (
      (λ h.
          let up = (passes (λ k. k == b) a).0 (sym (instance_of-any a b) ∙ h) in
          rw ((==_iff up.0 b).0 up.2) at up.1),
      (λ h. instance_of-any a b ∙ (passes (λ k. k == b) a).1 (b, h, (==_iff b b).1 refl)),
    ),
    (
      (λ h. (passes (λ k. ex_builtin_in (get_elem? t k)) a).0 (sym (exception_any a) ∙ h)),
      (λ h. exception_any a ∙ (passes (λ k. ex_builtin_in (get_elem? t k)) a).1 h),
    ),
  )

  defines : Text → ℕ → Bool
  defines name k = is_some (lookup name (methods_in (get_elem? t k)))

  lookup_in-any :
      (name : Text) (ks : List ℕ) → is_some (lookup_in t name ks) ≡ any (defines name) ks
  unfolding lookup_in any defines
  lookup_in-any name [] = refl
  lookup_in-any name (k ∷ ks) =
      on (lookup name (methods_in (get_elem? t k))) (lookup_in-any name ks)
    where
      on :
          (o : Option F)
          → is_some (lookup_in t name ks) ≡ any (defines name) ks
          → is_some (found o k (lookup_in t name ks))
            ≡ (if is_some o then true else any (defines name) ks)
      on none ih = ih
      on (some m) ih = refl

  has_method-any : (a : ℕ) (name : Text) → has_method t a name ≡ any (defines name) (ancestors t a)
  has_method-any a name = unfold lookup_method in lookup_in-any name (ancestors t a)

  has_method-inherited :
      (a b : ℕ) (name : Text)
      → instance_of t a b ≡ true
      → has_method t b name ≡ true
      → has_method t a name ≡ true
  has_method-inherited a b name h k =
      has_method-any a name ∙ up_any (defines name) a b h (sym (has_method-any b name) ∙ k)

  satisfies_cons :
      (c : ℕ) (name : Text) (names : List Text)
      → satisfies_interface t c (name ∷ names)
        ≡ (if has_method t c name then satisfies_interface t c names else false)
  unfolding satisfies_interface
  satisfies_cons c name names = refl

  both : (x y : Bool) → (if x then y else false) ≡ true → (x ≡ true) × (y ≡ true)
  both true y h = (refl, h)
  both false y h = absurd (cc)

  -- Where parents are older than their children, a class satisfies whatever interface one of its
  -- ancestors satisfies.
  pub satisfies_interface-inherited :
      (a b : ℕ) (names : List Text)
      → instance_of t a b ≡ true
      → satisfies_interface t b names ≡ true
      → satisfies_interface t a names ≡ true
  satisfies_interface-inherited a b [] h k = unfold satisfies_interface in refl
  satisfies_interface-inherited a b (name ∷ names) h k =
      let parts =
        both (has_method t b name) (satisfies_interface t b names)
          (sym (satisfies_cons b name names) ∙ k) in
      rw (satisfies_cons a name names, has_method-inherited a b name h parts.0)
        (satisfies_interface-inherited a b names h parts.1)

  lookup_method_in :
      (c : ℕ) (name : Text) → lookup_method t c name ≡ lookup_in t name (ancestors t c)
  unfolding lookup_method
  lookup_method_in c name = refl

  lookup_in_cons :
      (name : Text) (k : ℕ) (ks : List ℕ)
      → lookup_in t name (k ∷ ks)
        ≡ found (lookup name (methods_in (get_elem? t k))) k (lookup_in t name ks)
  unfolding lookup_in
  lookup_in_cons name k ks = refl

  -- The search for a method from a class on: its own method, if it has one, with the class; or else
  -- what the search from its parent finds; or else nothing.
  pub data Finds (name : Text) : ℕ → Option (F × ℕ) → Type 0 where
    own :
        {c : ℕ} (m : F)
        → lookup name (methods_in (get_elem? t c)) ≡ some m
        → Finds name c (some (m, c))
    inherited :
        {c : ℕ} {r : Option (F × ℕ)} (p : ℕ)
        → lookup name (methods_in (get_elem? t c)) ≡ none
        → parent_of t c ≡ some p
        → Finds name p r
        → Finds name c r
    nowhere :
        {c : ℕ}
        → lookup name (methods_in (get_elem? t c)) ≡ none
        → parent_of t c ≡ none
        → Finds name c none

  lookup_in-Finds :
      (name : Text) (fuel c : ℕ)
      → c < fuel
      → Finds name c (lookup_in t name (walk (parent_of t) fuel c))
  lookup_in-Finds name zero c h = absurd (omega arith)
  lookup_in-Finds name (suc fuel) c h = rw (walk-suc (parent_of t) fuel c) (
      rw (lookup_in_cons name c (up (walk (parent_of t) fuel) (parent_of t c))) (
        here (lookup name (methods_in (get_elem? t c))) refl (parent_of t c) refl
          (λ p k. lookup_in-Finds name fuel p (omega (arith, ordered c p k)))))
    where
      here :
          (o : Option F)
          → lookup name (methods_in (get_elem? t c)) ≡ o
          → (q : Option ℕ) → parent_of t c ≡ q
          → ((p : ℕ)
              → parent_of t c ≡ some p
              → Finds name p (lookup_in t name (walk (parent_of t) fuel p)))
          → Finds name c (found o c (lookup_in t name (up (walk (parent_of t) fuel) q)))
      here (some m) e q k rest = own m e
      here none e none k rest = unfold lookup_in in nowhere e k
      here none e (some p) k rest = inherited p e k (rest p k)

  -- Where parents are older than their children: a class's own method is found before one of its
  -- parent, and one of the parent before those above, with the class that defines it; nothing is
  -- found only where neither the class nor one above it has the method.
  pub lookup_method-Finds : (c : ℕ) (name : Text) → Finds name c (lookup_method t c name)
  lookup_method-Finds c name =
      rw (lookup_method_in c name)
        (unfold ancestors in lookup_in-Finds name (suc c) c (omega arith))
