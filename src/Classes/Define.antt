-- ===== src/Classes/Define.antt =====
-- internal/eval/eval_oop.go: `evalClassDef`, up to the body of the class; internal/eval/eval_exceptions.go:
-- `installExceptions`.
pub mod Table
pub mod Known
pub mod Build
use kolang.Prelude.{ℕ, List, [], ◌∷◌, ◌++◌, Option, none, some, true, Text, length}
use kolang.Env.Store.{Store, new_env, get, set}
use kolang.Classes.{Class, new_class}

abbrev pub exc_base_name : Text
exc_base_name = 0x62E ∷ 0x637 ∷ 0x627 ∷ []

abbrev pub exc_alias_name : Text
exc_alias_name = 0x627 ∷ 0x633 ∷ 0x62A ∷ 0x62B ∷ 0x646 ∷ 0x627 ∷ []

abbrev pub exc_zero_name : Text
exc_zero_name = 0x62E ∷ 0x637 ∷ 0x627 ∷ 0x6CC ∷ 0x200C ∷ 0x635 ∷ 0x641 ∷ 0x631 ∷ []

abbrev pub exc_value_name : Text
exc_value_name = 0x62E ∷ 0x637 ∷ 0x627 ∷ 0x6CC ∷ 0x200C ∷ 0x645 ∷ 0x642 ∷ 0x62F ∷ 0x627 ∷ 0x631 ∷ []

abbrev pub exc_type_name : Text
exc_type_name = 0x62E ∷ 0x637 ∷ 0x627 ∷ 0x6CC ∷ 0x200C ∷ 0x646 ∷ 0x648 ∷ 0x639 ∷ []

abbrev pub exc_key_name : Text
exc_key_name = 0x62E ∷ 0x637 ∷ 0x627 ∷ 0x6CC ∷ 0x200C ∷ 0x6A9 ∷ 0x644 ∷ 0x6CC ∷ 0x62F ∷ []

abbrev pub exc_index_name : Text
exc_index_name = 0x62E ∷ 0x637 ∷ 0x627 ∷ 0x6CC ∷ 0x200C ∷ 0x646 ∷ 0x645 ∷ 0x627 ∷ 0x6CC ∷ 0x647 ∷ []

abbrev pub exc_file_name : Text
exc_file_name = 0x62E ∷ 0x637 ∷ 0x627 ∷ 0x6CC ∷ 0x200C ∷ 0x641 ∷ 0x627 ∷ 0x6CC ∷ 0x644 ∷ []

abbrev pub exc_stop_name : Text
exc_stop_name = 0x62A ∷ 0x648 ∷ 0x642 ∷ 0x641 ∷ 0x200C ∷ 0x62A ∷ 0x6A9 ∷ 0x631 ∷ 0x627 ∷ 0x631 ∷ []

abbrev pub constructor_name : Text
constructor_name = 0x633 ∷ 0x627 ∷ 0x62E ∷ 0x62A ∷ []

abbrev pub exception_names : List Text
exception_names =
    exc_zero_name ∷ exc_value_name ∷ exc_type_name ∷ exc_key_name ∷ exc_index_name ∷ exc_file_name
    ∷ exc_stop_name ∷ []

-- The scopes and the classes.
module _ (V F : Type 0) where
  pub record Space : Type 0 where
    pub heap : Store V
    pub classes : List (Class F)

-- The errors of `evalClassDef`: the parent is not in scope, or is no class.
pub data ClassError : Type 0 where
  parent_missing not_a_class : ClassError

pub data Parent : Type 0 where
  resolved : Option ℕ → Parent
  refused : ClassError → Parent

pub data Defined : Type 0 where
  -- The class and the scope of its body.
  defined : ℕ → ℕ → Defined
  failed : ClassError → Defined

module _ {V : Type 0} (as_class : V → Option ℕ) where
  -- `pv.(*Class)`.
  abbrev pub asserted : Option ℕ → Parent
  asserted none = refused not_a_class
  asserted (some p) = resolved (some p)

  abbrev pub looked_up : Option V → Parent
  looked_up none = refused parent_missing
  looked_up (some v) = asserted (as_class v)

  unfoldable pub resolve_parent : Store V → ℕ → Option Text → Parent
  resolve_parent h e none = resolved none
  resolve_parent h e (some name) = looked_up (get h e name)

module _ {V F : Type 0} (class_value : ℕ → V) where
  abbrev pub registered : Parent → Text → ℕ → ℕ → Space V F → Defined × Space V F
  registered (refused why) name e class_env s = (failed why, s)
  registered (resolved parent) name e class_env s =
      let made = new_class s.classes name parent in
      (
        defined made.1 class_env,
        record { heap = set s.heap e name (class_value made.1); classes = made.0 },
      )

module _ {V F : Type 0} (as_class : V → Option ℕ) (class_value : ℕ → V) where
  unfoldable pub eval_class_def : Text → Option Text → ℕ → Space V F → Defined × Space V F
  unfolding resolve_parent
  eval_class_def name parent e s =
      let opened = new_env s.heap (some e) in
      registered class_value (resolve_parent as_class opened.0 e parent) name e opened.1
        (record s { heap = opened.0 })

module _ {F : Type 0} where
  abbrev pub builtin_class : Text → Option ℕ → Option F → Class F
  builtin_class name parent none = record {
    name = name;
    parent = parent;
    methods = [];
    constructor = none;
    ex_builtin = true;
  }
  builtin_class name parent (some fn) = record {
    name = name;
    parent = parent;
    methods = (constructor_name, fn) ∷ [];
    constructor = some fn;
    ex_builtin = true;
  }

module _ {V F : Type 0} (class_value : ℕ → V) where
  -- The closure `mk`.
  unfoldable pub make_exception : Text → Option ℕ → Option F → ℕ → Space V F → Space V F
  make_exception name parent fn e s = record {
    heap = set (new_env s.heap (some e)).0 e name (class_value (length s.classes));
    classes = s.classes ++ (builtin_class name parent fn ∷ []);
  }

  unfoldable pub make_exceptions : ℕ → ℕ → List Text → Space V F → Space V F
  make_exceptions base e [] s = s
  make_exceptions base e (name ∷ names) s =
      make_exceptions base e names (make_exception name (some base) none e s)

  unfoldable pub with_alias : ℕ → ℕ → Space V F → Space V F
  with_alias base e s = record s { heap = set s.heap e exc_alias_name (class_value base) }

  -- `installExceptions`, with the constructor of the base class.
  unfoldable pub install_exceptions : F → ℕ → Space V F → Space V F
  unfolding make_exception make_exceptions with_alias
  install_exceptions fn e s =
      let base = length s.classes in
      make_exceptions base e exception_names
        (with_alias base e (make_exception exc_base_name none (some fn) e s))
