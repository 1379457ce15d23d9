-- ===== src/Annotations.antt =====
-- internal/eval/eval_types.go: the check of a value against the text of a type annotation.
pub mod Names
pub mod Enough
use kolang.Prelude.{
  ℕ, zero, suc, ◌+◌, ◌-◌, ◌==◌, ◌&&◌, ◌||◌, Bool, true, false, List, [], ◌∷◌, map, Option, none,
  some, Text, length, text_eq, if◌then◌else◌,
}
use kolang.Prelude.Int.{ℤ, pos, ◌+ℤ◌, ◌-ℤ◌}
use kolang.Classes.{Class, instance_of, is_exception_class, satisfies_interface}
use kolang.Values.{
  class_sort, instance_sort, interface_sort, generator_sort, channel_sort, Value, nil, bool, int,
  float, string, list, tuple, dict, set, object, Items, no_items, item, item_count,
}
use kolang.Annotations.Names.{
  any_name, int_name, float_name, string_name, list_name, set_name, dict_name, tuple_name,
  bool_name, none_name, nones_name, generator_name, channel_name, unknown_name, separator,
}

-- `strings.TrimSpace`, over the spaces of Unicode.
module _ (is_space : ℕ → Bool) where
  unfoldable pub trim_left : Text → Text
  trim_left [] = []
  trim_left (c ∷ cs) = let rest = trim_left cs in if is_space c then rest else c ∷ cs

  abbrev pub before : ℕ → Text → Text
  before c [] = if is_space c then [] else c ∷ []
  before c (d ∷ ds) = c ∷ d ∷ ds

  unfoldable pub trim_right : Text → Text
  trim_right [] = []
  trim_right (c ∷ cs) = before c (trim_right cs)

  unfoldable pub trim : Text → Text
  unfolding trim_left trim_right
  trim s = trim_right (trim_left s)

abbrev pub is_none : ℤ → Bool
is_none (pos zero) = true
is_none _ = false

abbrev pub in_front : ℕ → Text × List Text → Text × List Text
in_front c (part, parts) = (c ∷ part, parts)

abbrev pub new_part : Text × List Text → Text × List Text
new_part (part, parts) = ([], part ∷ parts)

-- The loop of `splitTypeList`: the part at hand, and the parts behind it. The depth may fall below 0.
unfoldable pub split_loop : ℤ → Text → Text × List Text
unfolding ◌+ℤ◌ ◌-ℤ◌
split_loop depth [] = ([], [])
split_loop depth (c ∷ cs) =
    let deeper = split_loop (depth +ℤ pos 1) cs in
    let higher = split_loop (depth -ℤ pos 1) cs in
    let same = split_loop depth cs in
    if c == b'('
    then in_front c deeper
    else if c == b')'
    then in_front c higher
    else if c == separator && is_none depth
    then new_part same
    else in_front c same

abbrev pub all_parts : (Text → Text) → Text × List Text → List Text
all_parts trimmed (part, parts) = map trimmed (part ∷ parts)

unfoldable pub split_type_list : (ℕ → Bool) → Text → List Text
unfolding split_loop trim
split_type_list is_space s = all_parts (trim is_space) (split_loop (pos 0) s)

-- The outcome: nothing, or the type error that is raised.
pub data Checked : Type 0 where
  fits mismatch out_of_fuel : Checked

abbrev pub and_then : Checked → Checked → Checked
and_then fits rest = rest
and_then mismatch rest = mismatch
and_then out_of_fuel rest = out_of_fuel

-- `strings.HasSuffix(t, ")")`, and the text before its last character.
abbrev pub closes : Text → Bool
closes [] = false
closes (c ∷ []) = c == b')'
closes (c ∷ d ∷ ds) = closes (d ∷ ds)

abbrev pub but_last : Text → Text
but_last [] = []
but_last (c ∷ []) = []
but_last (c ∷ d ∷ ds) = c ∷ but_last (d ∷ ds)

module _ {F : Type 0} where
  -- The cases of `typeMatches` by the type of the value; `none` is a name of no primitive type.
  unfoldable pub primitive : Text → Value F → Option Bool
  unfolding text_eq
  primitive name v =
      if text_eq name any_name
      then some true
      else if text_eq name int_name
      then some (elim v [ int i ↦ true | _ ↦ false ])
      else if text_eq name float_name
      then some (elim v [ float t ↦ true | _ ↦ false ])
      else if text_eq name string_name
      then some (elim v [ string s ↦ true | _ ↦ false ])
      else if text_eq name list_name
      then some (elim v [ list xs ↦ true | _ ↦ false ])
      else if text_eq name set_name
      then some (elim v [ set m ↦ true | _ ↦ false ])
      else if text_eq name dict_name
      then some (elim v [ dict m ↦ true | _ ↦ false ])
      else if text_eq name tuple_name
      then some (elim v [ tuple xs ↦ true | _ ↦ false ])
      else if text_eq name bool_name
      then some (elim v [ bool b ↦ true | _ ↦ false ])
      else if text_eq name none_name || text_eq name nones_name
      then some (elim v [ nil ↦ true | _ ↦ false ])
      else none

  -- `typeName`, where `class_name` is the name of the class of an instance.
  unfoldable pub type_name : (ℕ → Text) → Value F → Text
  type_name class_name nil = none_name
  type_name class_name (int i) = int_name
  type_name class_name (float t) = float_name
  type_name class_name (bool b) = bool_name
  type_name class_name (string s) = string_name
  type_name class_name (list xs) = list_name
  type_name class_name (set m) = set_name
  type_name class_name (tuple xs) = tuple_name
  type_name class_name (dict m) = dict_name
  type_name class_name (object instance_sort i) = class_name i
  type_name class_name (object generator_sort g) = generator_name
  type_name class_name (object channel_sort c) = channel_name
  type_name class_name _ = unknown_name

-- What a name is bound to, the class of an instance, and the methods of an interface.
pub record Declared (F Fn : Type 0) : Type 0 where
  pub get : Text → Option (Value F)
  pub classes : List (Class Fn)
  pub class_of : ℕ → ℕ
  pub methods_of : ℕ → List Text

module _ {F Fn : Type 0} (decl : Declared F Fn) where
  abbrev pub is_instance : (ℕ → Bool) → Value F → Bool
  is_instance test (object instance_sort i) = test (decl.class_of i)
  is_instance test _ = false

  -- The cases of `typeMatches` by what the name is bound to.
  unfoldable pub declared : Option (Value F) → Value F → Bool
  unfolding is_exception_class instance_of satisfies_interface
  declared (some (object class_sort c)) nil = is_exception_class decl.classes c
  declared (some (object class_sort c)) v = is_instance (λ k. instance_of decl.classes k c) v
  declared (some (object interface_sort i)) v =
      is_instance (λ k. satisfies_interface decl.classes k (decl.methods_of i)) v
  declared _ v = true

  abbrev pub primitive_or : Bool → Option Bool → Bool
  primitive_or other none = other
  primitive_or other (some b) = b

  -- `typeMatches`.
  unfoldable pub type_matches : Value F → Text → Bool
  unfolding primitive declared
  type_matches v name = primitive_or (declared (decl.get name) v) (primitive name v)

  -- The loop of `checkType` over the elements of a tuple: an element that is nothing is not checked.
  unfoldable pub check_each : (Value F → Text → Checked) → Items F → List Text → Checked
  check_each again (item nil vs) (p ∷ ps) = check_each again vs ps
  check_each again (item v vs) (p ∷ ps) = and_then (again v p) (check_each again vs ps)
  check_each again _ _ = fits

  unfoldable pub check_parts : (Value F → Text → Checked) → Value F → List Text → Checked
  unfolding item_count check_each
  check_parts again v (p ∷ []) = again v p
  check_parts again (tuple vs) ps =
      if length ps == item_count vs then check_each again vs ps else mismatch
  check_parts again _ ps = mismatch

  module _ (is_space : ℕ → Bool) where
    abbrev pub check_trimmed : (Value F → Text → Checked) → Value F → Text → Checked
    check_trimmed again v [] = fits
    check_trimmed again v (c ∷ cs) =
        if c == b'(' && closes cs
        then check_parts again v (split_type_list is_space (trim is_space (but_last cs)))
        else if type_matches v (c ∷ cs)
        then fits
        else mismatch

    -- `checkType`, on fuel.
    unfoldable pub check_type : ℕ → Value F → Text → Checked
    unfolding trim split_type_list check_parts type_matches
    check_type zero v ann = out_of_fuel
    check_type (suc fuel) v ann = check_trimmed (check_type fuel) v (trim is_space ann)
