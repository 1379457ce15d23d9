-- ===== src/Classes.antt =====
-- internal/eval/eval_oop.go, eval_exceptions.go and eval_types.go: classes and their parents.
pub mod Chain
pub mod Inherit
pub mod Define
use kolang.Prelude.{
  ℕ, zero, suc, ◌==◌, List, [], ◌∷◌, ◌++◌, Option, none, some, Bool, true, false, if◌then◌else◌,
  Text, lookup, insert, length, get_elem?,
}

-- `Class`. Classes are shared by reference: a table holds them, and a class is its place there. A
-- parent is the place of an older class.
module _ (F : Type 0) where
  pub record Class : Type 0 where
    pub name : Text
    pub parent : Option ℕ
    pub methods : List (Text × F)
    pub constructor : Option F
    pub ex_builtin : Bool

-- `for k := c; k != nil; k = k.Parent`, on fuel.
abbrev pub up : (ℕ → List ℕ) → Option ℕ → List ℕ
up above none = []
up above (some p) = above p

unfoldable pub walk : (ℕ → Option ℕ) → ℕ → ℕ → List ℕ
walk parent zero c = []
walk parent (suc fuel) c = c ∷ up (walk parent fuel) (parent c)

abbrev pub is_some : {A : Type 0} → Option A → Bool
is_some none = false
is_some (some a) = true

-- The first `return true` of a loop.
unfoldable pub any : (ℕ → Bool) → List ℕ → Bool
any test [] = false
any test (k ∷ ks) = if test k then true else any test ks

module _ {F : Type 0} where
  abbrev pub parent_in : Option (Class F) → Option ℕ
  parent_in none = none
  parent_in (some c) = c.parent

  abbrev pub methods_in : Option (Class F) → List (Text × F)
  methods_in none = []
  methods_in (some c) = c.methods

  abbrev pub constructor_in : Option (Class F) → Option F
  constructor_in none = none
  constructor_in (some c) = c.constructor

  abbrev pub ex_builtin_in : Option (Class F) → Bool
  ex_builtin_in none = false
  ex_builtin_in (some c) = c.ex_builtin

  abbrev pub parent_of : List (Class F) → ℕ → Option ℕ
  parent_of t c = parent_in (get_elem? t c)

  -- A parent is older than its child, so one unit of fuel more than the place is enough.
  unfoldable pub ancestors : List (Class F) → ℕ → List ℕ
  unfolding walk
  ancestors t c = walk (parent_of t) (suc c) c

  abbrev pub found : Option F → ℕ → Option (F × ℕ) → Option (F × ℕ)
  found none k rest = rest
  found (some m) k rest = some (m, k)

  -- `lookupMethod`: the method, and the class that defines it.
  unfoldable pub lookup_in : List (Class F) → Text → List ℕ → Option (F × ℕ)
  lookup_in t name [] = none
  lookup_in t name (k ∷ ks) =
      found (lookup name (methods_in (get_elem? t k))) k (lookup_in t name ks)

  unfoldable pub lookup_method : List (Class F) → ℕ → Text → Option (F × ℕ)
  unfolding lookup_in ancestors
  lookup_method t c name = lookup_in t name (ancestors t c)

  -- `hasMethod`.
  abbrev pub has_method : List (Class F) → ℕ → Text → Bool
  has_method t c name = is_some (lookup_method t c name)

  -- The loop of `instantiate` for the constructor.
  unfoldable pub constructor_from : List (Class F) → List ℕ → Option (F × ℕ)
  constructor_from t [] = none
  constructor_from t (k ∷ ks) = found (constructor_in (get_elem? t k)) k (constructor_from t ks)

  -- `instanceOf`, of an instance by its class, and `isExceptionClass`.
  unfoldable pub instance_of : List (Class F) → ℕ → ℕ → Bool
  unfolding any
  instance_of t c cls = any (λ k. k == cls) (ancestors t c)

  unfoldable pub is_exception_class : List (Class F) → ℕ → Bool
  unfolding any
  is_exception_class t c = any (λ k. ex_builtin_in (get_elem? t k)) (ancestors t c)

  -- `satisfiesInterface`, for the names of the interface's methods.
  unfoldable pub satisfies_interface : List (Class F) → ℕ → List Text → Bool
  satisfies_interface t c [] = true
  satisfies_interface t c (name ∷ names) =
      let rest = satisfies_interface t c names in if has_method t c name then rest else false

  -- `evalClassDef`: a new class, without methods yet, and its place; and a method stored in a class.
  unfoldable pub new_class : List (Class F) → Text → Option ℕ → List (Class F) × ℕ
  new_class t name parent = (
    t
        ++ (record {
          name = name;
          parent = parent;
          methods = [];
          constructor = none;
          ex_builtin = false;
        }
            ∷ []),
    length t,
  )

  abbrev pub with_method : Text → F → Bool → Class F → Class F
  with_method name fn is_constructor c = record c {
    methods = insert name fn c.methods;
    constructor = if is_constructor then some fn else c.constructor;
  }

  unfoldable pub add_method : List (Class F) → ℕ → Text → F → Bool → List (Class F)
  add_method [] c name fn is_constructor = []
  add_method (k ∷ ks) zero name fn is_constructor = with_method name fn is_constructor k ∷ ks
  add_method (k ∷ ks) (suc c) name fn is_constructor = k ∷ add_method ks c name fn is_constructor
