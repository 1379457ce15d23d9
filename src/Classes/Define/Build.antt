-- ===== src/Classes/Define/Build.antt =====
-- internal/eval/eval_oop.go: the parents of the classes that a program makes.
use kolang.Prelude.{
  ℕ, zero, suc, ◌<◌, ◌≡◌, refl, sym, ◌∙◌, List, [], ◌∷◌, ◌++◌, Option, none, some, Bool, arith,
  length, Text,
}
use kolang.Env.Store.{Store, local, set, new_env}
use kolang.Classes.{Class, parent_of, new_class, add_method}
use kolang.Classes.Define.{
  Space, resolved, refused, Parent, registered, resolve_parent, eval_class_def, make_exception,
  make_exceptions, with_alias, install_exceptions, builtin_class, exception_names, exc_base_name,
  exc_alias_name,
}
use kolang.Classes.Chain.{IsOrdered}
use kolang.Classes.Define.Table.{
  snoc-IsOrdered, parent_of-add_method, length-snoc, length-add_method,
}
use kolang.Classes.Define.Known.{
  IsOld, Known, Known-more, set-Known, new_env-Known, resolve_parent-IsOld, class_value-IsOld,
  nothing_held,
}

module _ {V F : Type 0} (as_class : V → Option ℕ) (class_value : ℕ → V)
    (same_class : (c : ℕ) → as_class (class_value c) ≡ some c) where
  -- Parents are older than their children, and scopes hold only classes of the table.
  abbrev pub IsValid : Space V F → Type 0
  IsValid s = IsOrdered (parent_of s.classes) × Known as_class s.heap (length s.classes)

  added-IsValid :
      (h : Store V) (t : List (Class F)) (k : Class F) (e : ℕ) (name : Text)
      → ((p : ℕ) → k.parent ≡ some p → p < length t)
      → IsOrdered (parent_of t)
      → Known as_class h (length t)
      → IsValid (record { heap = set h e name (class_value (length t)); classes = t ++ (k ∷ []) })
  added-IsValid h t k e name older ordered known = (
    snoc-IsOrdered t k older ordered,
    rw (length-snoc t k) (
        set-Known as_class h (suc (length t)) e name (class_value (length t))
          (Known-more as_class h (length t) (suc (length t)) (omega arith) known)
          (class_value-IsOld as_class class_value same_class (length t) (suc (length t))
            (omega arith))),
  )

  registered-IsValid :
      (r : Parent) (name : Text) (e ce : ℕ) (s : Space V F)
      → ((q : Option ℕ) (p : ℕ) → r ≡ resolved q → q ≡ some p → p < length s.classes)
      → IsValid s
      → IsValid (registered class_value r name e ce s).1
  unfolding new_class
  registered-IsValid (refused why) name e ce s older valid = valid
  registered-IsValid (resolved q) name e ce s older valid =
      added-IsValid s.heap s.classes _ e name (λ p. older q p refl) valid.0 valid.1

  eval_class_def-IsValid :
      (name : Text) (parent : Option Text) (e : ℕ) (s : Space V F)
      → IsValid s
      → IsValid (eval_class_def as_class class_value name parent e s).1
  unfolding eval_class_def
  eval_class_def-IsValid name parent e s valid =
      let h = (new_env s.heap (some e)).0 in
      let known = new_env-Known as_class s.heap (length s.classes) (some e) valid.1 in
      registered-IsValid (resolve_parent as_class h e parent) name e _ (record s { heap = h })
        (resolve_parent-IsOld as_class h (length s.classes) e parent known) (valid.0, known)

  builtin-parent :
      (name : Text) (q : Option ℕ) (fn : Option F) → (builtin_class name q fn).parent ≡ q
  builtin-parent name q none = refl
  builtin-parent name q (some f) = refl

  make_exception-IsValid :
      (name : Text) (q : Option ℕ) (fn : Option F) (e : ℕ) (s : Space V F)
      → ((p : ℕ) → q ≡ some p → p < length s.classes)
      → IsValid s
      → IsValid (make_exception class_value name q fn e s)
        × (length (make_exception class_value name q fn e s).classes ≡ suc (length s.classes))
  unfolding make_exception
  make_exception-IsValid name q fn e s older valid = (
    added-IsValid (new_env s.heap (some e)).0 s.classes (builtin_class name q fn) e name
        (λ p is. older p (sym (builtin-parent name q fn) ∙ is)) valid.0
        (new_env-Known as_class s.heap (length s.classes) (some e) valid.1),
    length-snoc s.classes (builtin_class name q fn),
  )

  make_exceptions-IsValid :
      (base e : ℕ) (names : List Text) (s : Space V F)
      → base < length s.classes
      → IsValid s
      → IsValid (make_exceptions class_value base e names s)
  unfolding make_exceptions
  make_exceptions-IsValid base e [] s less valid = valid
  make_exceptions-IsValid base e (name ∷ names) s less valid =
      let made = make_exception-IsValid name (some base) none e s (λ p is. below p is) valid in
      make_exceptions-IsValid base e names _ (omega (arith, made.1, less)) made.0
    where
      below : (p : ℕ) → some base ≡ some p → p < length s.classes
      below p is = let same : base ≡ p = cc is in omega (arith, same, less)

  with_alias-IsValid :
      (base e : ℕ) (s : Space V F)
      → base < length s.classes
      → IsValid s
      → IsValid (with_alias class_value base e s)
        × (length (with_alias class_value base e s).classes ≡ length s.classes)
  unfolding with_alias
  with_alias-IsValid base e s less valid = (
    (
      valid.0,
      set-Known as_class s.heap (length s.classes) e exc_alias_name (class_value base) valid.1
          (class_value-IsOld as_class class_value same_class base (length s.classes) less),
    ),
    refl,
  )

  install-IsValid :
      (fn : F) (e : ℕ) (s : Space V F) → IsValid s → IsValid (install_exceptions class_value fn e s)
  unfolding install_exceptions
  install-IsValid fn e s valid =
      let base =
        make_exception-IsValid exc_base_name none (some fn) e s (λ p is. absurd (no_parent p is))
          valid in
      let alias = with_alias-IsValid (length s.classes) e _ (omega (arith, base.1)) base.0 in
      make_exceptions-IsValid (length s.classes) e exception_names _
        (omega (arith, base.1, alias.1)) alias.0
    where
      no_parent : (p : ℕ) → none ≡ some p → ⊥
      no_parent p is = cc

  -- What a program makes of its scopes and classes, from an empty scope on. The other statements set
  -- names, and the values that they set are classes only if those are there.
  pub data Built : Space V F → Type 0 where
    begins : Built (record { heap = (new_env [] none).0; classes = [] })
    installs :
        {s : Space V F} (fn : F) (e : ℕ) → Built s → Built (install_exceptions class_value fn e s)
    defines :
        {s : Space V F} (name : Text) (parent : Option Text) (e : ℕ)
        → Built s
        → Built (eval_class_def as_class class_value name parent e s).1
    adds_method :
        {s : Space V F} (c : ℕ) (name : Text) (fn : F) (is_constructor : Bool)
        → Built s
        → Built (record s { classes = add_method s.classes c name fn is_constructor })
    opens :
        {s : Space V F} (e : ℕ) → Built s → Built (record s { heap = (new_env s.heap (some e)).0 })
    sets :
        {s : Space V F} (e : ℕ) (name : Text) (v : V)
        → IsOld as_class (length s.classes) v
        → Built s
        → Built (record s { heap = set s.heap e name v })

  Built-IsValid : {s : Space V F} → Built s → IsValid s
  unfolding new_env
  Built-IsValid begins =
      ((λ c p h. absurd (no_class c p h)), (λ e x v at. absurd (unbound e x v at)))
    where
      no_class : (c p : ℕ) → parent_of {F = F} [] c ≡ some p → ⊥
      no_class c p h = cc

      unbound : (e : ℕ) (x : Text) (v : V) → local (new_env [] none).0 e x ≡ some v → ⊥
      unbound zero x v at = nothing_held as_class x v at
      unbound (suc e) x v at = nothing_held as_class x v at
  Built-IsValid (installs {s} fn e built) = install-IsValid fn e s (Built-IsValid built)
  Built-IsValid (defines {s} name parent e built) =
      eval_class_def-IsValid name parent e s (Built-IsValid built)
  Built-IsValid (adds_method {s} c name fn is_constructor built) =
      let valid = Built-IsValid built in
      (
        (λ x p h.
            valid.0 x p (sym (parent_of-add_method s.classes c name fn is_constructor x) ∙ h)),
        rw (length-add_method s.classes c name fn is_constructor) valid.1,
      )
  Built-IsValid (opens {s} e built) =
      let valid = Built-IsValid built in
      (valid.0, new_env-Known as_class s.heap (length s.classes) (some e) valid.1)
  Built-IsValid (sets {s} e name v old built) =
      let valid = Built-IsValid built in
      (valid.0, set-Known as_class s.heap (length s.classes) e name v valid.1 old)

  -- Where a class, as a value, is read back as that class: in whatever a program makes of its scopes
  -- and classes, the parents, which class definitions look up by their names, are older than their
  -- children, and each name in a scope that is bound to a class is bound to one of the table.
  pub Built-IsOrdered :
      {s : Space V F}
      → Built s
      → IsOrdered (parent_of s.classes)
        × ((e : ℕ) (name : Text) (v : V)
            → local s.heap e name ≡ some v
            → IsOld as_class (length s.classes) v)
  Built-IsOrdered built = Built-IsValid built
