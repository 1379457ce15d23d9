-- ===== src/Values/Equality.antt =====
-- internal/eval/eval_helpers.go: `equal`, and the order of texts in `compare`.
use kolang.Prelude.{
  ℕ, ◌==◌, ◌&&◌, ◌||◌, ltb, [], ◌∷◌, Bool, true, false, Option, none, some, Text, text_eq,
}
use kolang.Values.{
  Sort, instance_sort, class_sort, channel_sort, function_sort, builtin_sort, module_sort,
  super_sort, interface_sort, Value, nil, bool, int, float, string, list, tuple, dict, set, object,
  Items, item, Entries, no_entries, entry, Floats, find, size, item_count,
}

abbrev pub same_bool : Bool → Bool → Bool
same_bool true b = b
same_bool false true = false
same_bool false false = true

-- Two pointers of one type, compared. Generators and ranges have no case in `equal`.
unfoldable pub same_object : Sort → ℕ → Sort → ℕ → Bool
same_object instance_sort p instance_sort q = p == q
same_object class_sort p class_sort q = p == q
same_object channel_sort p channel_sort q = p == q
same_object function_sort p function_sort q = p == q
same_object builtin_sort p builtin_sort q = p == q
same_object module_sort p module_sort q = p == q
same_object super_sort p super_sort q = p == q
same_object interface_sort p interface_sort q = p == q
same_object _ _ _ _ = false

-- `strings.Compare(a, b) < 0`: byte by byte, which for UTF-8 is the order of the code points.
unfoldable pub text_lt : Text → Text → Bool
text_lt [] [] = false
text_lt [] (y ∷ ys) = true
text_lt (x ∷ xs) [] = false
text_lt (x ∷ xs) (y ∷ ys) = ltb x y || (x == y && text_lt xs ys)

module _ {F : Type 0} where
  abbrev pub is_found : Option (Value F) → Bool
  is_found none = false
  is_found (some v) = true

  abbrev pub found_equal : (Value F → Bool) → Option (Value F) → Bool
  found_equal equals none = false
  found_equal equals (some w) = equals w

  -- `for k := range av.M { if _, ok := bv.M[k]; !ok { return false } }`.
  unfoldable pub keys_in : Entries F → Entries F → Bool
  unfolding find
  keys_in no_entries m = true
  keys_in (entry k v rest) m = is_found (find k m) && keys_in rest m

module _ {F : Type 0} (floats : Floats F) where
  unfoldable mutual
    unfolding text_eq same_object keys_in find size item_count

    -- `equal`. Two numbers are compared as float64, whatever their types.
    pub equal : Value F → Value F → Bool
    equal (int i) (int j) = floats.eq (floats.of_int i) (floats.of_int j)
    equal (int i) (float t) = floats.eq (floats.of_int i) t
    equal (float t) (int j) = floats.eq t (floats.of_int j)
    equal (float t) (float u) = floats.eq t u
    equal (bool a) (bool b) = same_bool a b
    equal (string s) (string t) = text_eq s t
    equal nil nil = true
    equal (list xs) (list ys) = item_count xs == item_count ys && all_equal xs ys
    equal (tuple xs) (tuple ys) = item_count xs == item_count ys && all_equal xs ys
    equal (dict a) (dict b) = size a == size b && all_in a b
    equal (set a) (set b) = size a == size b && keys_in a b
    equal (object s p) (object t q) = same_object s p t q
    equal _ _ = false

    -- The loop over the elements of two sequences of one length.
    pub all_equal : Items F → Items F → Bool
    all_equal (item x xs) (item y ys) = equal x y && all_equal xs ys
    all_equal _ _ = true

    -- The loop over the entries of a dictionary.
    pub all_in : Entries F → Entries F → Bool
    all_in no_entries m = true
    all_in (entry k v rest) m = found_equal (equal v) (find k m) && all_in rest m
