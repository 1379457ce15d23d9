-- ===== src/Tests/Objects.antt =====
-- Classes and channels.
use kolang.Prelude.{
  ℕ, zero, suc, ◌↔◌, ◌≡◌, refl, List, [], ◌∷◌, Option, none, some, Bool, true, false, Text, codes,
  arith, lookup, get_elem?, length, insert, text_eq,
}
use kolang.Classes.{
  Class, parent_of, ancestors, instance_of, is_exception_class, lookup_method, satisfies_interface,
  ex_builtin_in,
}
use kolang.Classes.Chain.{IsOrdered, IsUpFrom}
use kolang.Classes.Inherit.{
  instance_of_lem, Finds, lookup_method-Finds, satisfies_interface-inherited,
}
use kolang.Env.Store.{local, new_env, get, get_in, set, modify, scopes, chain}
use kolang.Classes.{new_class, any, walk}
use kolang.Classes.Define.{
  Space, exc_base_name, eval_class_def, resolve_parent, install_exceptions, make_exceptions,
  make_exception, with_alias,
}
use kolang.Classes.Define.Known.{IsOld}
use kolang.Classes.Define.Build.{Built, begins, installs, defines, Built-IsOrdered}
use kolang.Channels.{
  Channel, asked, took, gave, gave_up, begin_send, deliver, receive, give_up, Run, run_nil,
  run_cons,
}
use kolang.Channels.Order.{count, Run-order, Run-closed}

abbrev class : Option ℕ → List (Text × ℕ) → Class ℕ
class parent methods = record {
  name = codes "C";
  parent = parent;
  methods = methods;
  constructor = none;
  ex_builtin = false;
}

-- Three generations, the eldest with a method.
abbrev table : List (Class ℕ)
table = class none ((codes "f", 1) ∷ []) ∷ class (some 0) [] ∷ class (some 1) [] ∷ []

table-IsOrdered : IsOrdered (parent_of table)
table-IsOrdered zero p h = absurd (cc)
table-IsOrdered (suc zero) p h = rw (some_inj h) (omega arith)
  where
    some_inj : some 0 ≡ some p → p ≡ 0
    some_inj e = cc
table-IsOrdered (suc (suc zero)) p h = rw (some_inj h) (omega arith)
  where
    some_inj : some 1 ≡ some p → p ≡ 1
    some_inj e = cc
table-IsOrdered (suc (suc (suc c))) p h = absurd (cc)

instance_of_example :
    ((instance_of table 2 0 ≡ true) ↔ IsUpFrom (parent_of table) 2 0)
    × ((is_exception_class table 2 ≡ true)
        ↔ ((k : ℕ) × IsUpFrom (parent_of table) 2 k × (ex_builtin_in (get_elem? table k) ≡ true)))
instance_of_example = instance_of_lem table table-IsOrdered 2 0

lookup_method_example :
    Finds table table-IsOrdered (codes "f") 2 (lookup_method table 2 (codes "f"))
lookup_method_example = lookup_method-Finds table table-IsOrdered 2 (codes "f")

satisfies_interface_example : satisfies_interface table 2 (codes "f" ∷ []) ≡ true
unfolding instance_of satisfies_interface ancestors lookup_method lookup
satisfies_interface_example =
    satisfies_interface-inherited table table-IsOrdered 2 0 (codes "f" ∷ []) refl refl

abbrev channel : List ℕ → Bool → List ℕ → Channel ℕ
channel buffer closed pending = record {
  buffer = buffer;
  capacity = 2;
  closed = closed;
  pending = pending;
}

abbrev values : List ℕ → List ℕ
values vs = vs

-- A value is sent and received, on a channel that holds another one.
passing :
    Run ℕ (channel (4 ∷ []) false []) (asked 5 ∷ took 5 ∷ gave 4 ∷ []) (channel (5 ∷ []) false [])
passing =
    run_cons (begin_send 5 refl)
      (run_cons (deliver [] 5 [] refl (omega arith)) (run_cons (receive 4 (5 ∷ []) refl) run_nil))

Run-order_example :
    (values (4 ∷ 5 ∷ []) ≡ 4 ∷ 5 ∷ [])
    × ((test : ℕ → Bool) → count test (5 ∷ []) ≡ count test (5 ∷ []))
Run-order_example = Run-order passing

-- Two sends wait as the channel is closed; one of them is still taken.
closing_run :
    Run ℕ (channel [] true (6 ∷ 7 ∷ [])) (gave_up 6 ∷ took 7 ∷ []) (channel (7 ∷ []) true [])
closing_run =
    run_cons (give_up [] 6 (7 ∷ []) refl refl)
      (run_cons (deliver [] 7 [] refl (omega arith)) run_nil)

Run-closed_example :
    (true ≡ true)
    × (values [] ≡ [])
    × ((test : ℕ → Bool) → count test (6 ∷ 7 ∷ []) ≡ count test (7 ∷ 6 ∷ []))
Run-closed_example = Run-closed closing_run refl

-- Values are nil and the classes. A class is defined below the base of the exceptions, and another
-- one, with the same name, below that.
abbrev as_class : Option ℕ → Option ℕ
as_class v = v

built :
    Built {F = ℕ} as_class some
      (λ c. refl)
      (eval_class_def as_class some
        (codes "A")
        (some (codes "A"))
        0
        (eval_class_def as_class some
          (codes "A")
          (some exc_base_name)
          0
          (install_exceptions some 1 0 (record { heap = (new_env [] none).0; classes = [] }))).1).1
built =
    defines (codes "A") (some (codes "A")) 0
      (defines (codes "A") (some exc_base_name) 0 (installs 1 0 begins))

abbrev final_space : Space (Option ℕ) ℕ
final_space =
    (eval_class_def as_class some (codes "A") (some (codes "A")) 0
      (eval_class_def as_class some (codes "A") (some exc_base_name) 0
        (install_exceptions some 1 0 (record { heap = (new_env [] none).0; classes = [] }))).1).1

Built-IsOrdered_example :
    IsOrdered (parent_of final_space.classes)
    × ((e : ℕ) (name : Text) (v : Option ℕ)
        → local final_space.heap e name ≡ some v
        → IsOld as_class (length final_space.classes) v)
Built-IsOrdered_example = Built-IsOrdered as_class some (λ c. refl) built

-- Both classes are exception classes, the second one by way of the first.
built_run :
    (parent_of final_space.classes 9 ≡ some 8)
    × (parent_of final_space.classes 8 ≡ some 0)
    × (is_exception_class final_space.classes 9 ≡ true)
unfolding eval_class_def resolve_parent install_exceptions make_exceptions make_exception with_alias
    new_env get get_in set modify scopes chain new_class is_exception_class any ancestors walk
    lookup insert text_eq
built_run = (refl, refl, refl)
