-- ===== src/Values.antt =====
-- internal/eval/eval.go and internal/eval/eval_helpers.go: the values of the interpreter, as an
-- operator reads them. A list, a tuple, a dictionary and a set are read by what they hold at that
-- moment, and every other object by its identity. Maps are association lists.
pub mod Printed
pub mod Equality
pub mod Keys
pub mod Symmetry
use kolang.Prelude.{ℕ, Bool, Option, none, some, Text, ◌==◌, ◌&&◌, text_eq, if◌then◌else◌, ◌+◌, suc}
use kolang.Prelude.Int.{ℤ}

-- The types whose values are pointers that `equal` compares, and the two that it does not know.
pub data Sort : Type 0 where
  instance_sort class_sort channel_sort function_sort builtin_sort module_sort super_sort : Sort
  interface_sort generator_sort range_sort : Sort

mutual
  pub data Value (F : Type 0) : Type 0 where
    nil : Value F
    bool : Bool → Value F
    int : ℤ → Value F
    float : F → Value F
    string : Text → Value F
    list : Items F → Value F
    tuple : Items F → Value F
    dict : Entries F → Value F
    set : Entries F → Value F
    object : Sort → ℕ → Value F

  pub data Items (F : Type 0) : Type 0 where
    no_items : Items F
    item : Value F → Items F → Items F

  -- The field `M` of a `Dict` and of a `Set`: its keys with their values.
  pub data Entries (F : Type 0) : Type 0 where
    no_entries : Entries F
    entry : Text → Value F → Entries F → Entries F

-- What is used of float64: Go's conversion of an int64, its operators, and `math.Floor` of a
-- quotient, `math.Mod` and `math.Pow`.
pub record Floats (F : Type 0) : Type 0 where
  pub of_int : ℤ → F
  pub is_zero : F → Bool
  pub add : F → F → F
  pub sub : F → F → F
  pub mul : F → F → F
  pub div : F → F → F
  pub floor_div : F → F → F
  pub remainder : F → F → F
  pub power : F → F → F
  pub neg : F → F
  pub eq : F → F → Bool
  pub lt : F → F → Bool

module _ {F : Type 0} where
  -- `toFloat`.
  unfoldable pub to_float : Floats F → Value F → Option F
  to_float floats (int i) = some (floats.of_int i)
  to_float floats (float t) = some t
  to_float floats _ = none

  -- `m[k]` of a map.
  unfoldable pub find : Text → Entries F → Option (Value F)
  unfolding text_eq
  find k no_entries = none
  find k (entry j v m) = if text_eq j k then some v else find k m

  -- `len`.
  unfoldable pub size : Entries F → ℕ
  size no_entries = 0
  size (entry k v m) = suc (size m)

  unfoldable pub item_count : Items F → ℕ
  item_count no_items = 0
  item_count (item v vs) = suc (item_count vs)

  -- `m[k] = v`.
  unfoldable pub put : Text → Value F → Entries F → Entries F
  unfolding text_eq
  put k v no_entries = entry k v no_entries
  put k v (entry j w m) = if text_eq j k then entry k v m else entry j w (put k v m)

  -- `delete(m, k)`, of a map that has each key once.
  unfoldable pub without : Text → Entries F → Entries F
  unfolding text_eq
  without k no_entries = no_entries
  without k (entry j v m) = if text_eq j k then m else entry j v (without k m)
