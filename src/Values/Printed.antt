-- ===== src/Values/Printed.antt =====
-- internal/eval/eval_helpers.go: `Stringify`, and the sets that are keyed by it.
use kolang.Prelude.{ℕ, ◌+◌, ◌-◌, suc, Bool, List, [], ◌∷◌, ◌++◌, map, if◌then◌else◌, Text}
use kolang.Prelude.Int.{ℤ, pos, negsuc}
use kolang.Lexer.Chars.{within}
use kolang.Lexer.Strconv.{format_int}
use kolang.Values.{
  Sort, Value, nil, bool, int, float, string, list, tuple, dict, set, object, Items, no_items, item,
  Entries, no_entries, entry, find, put, without,
}
use kolang.Values.Equality.{is_found}

-- `toPersianDigits`.
unfoldable pub to_persian_digits : Text → Text
to_persian_digits s = map (λ r. if within b'0' b'9' r then r - b'0' + 0x06f0 else r) s

-- `FormatInt(t, 10)`.
unfoldable pub format_int64 : ℤ → Text
unfolding format_int
format_int64 (pos n) = format_int n
format_int64 (negsuc n) = b'-' ∷ format_int (suc n)

-- What `Stringify` uses besides: `FormatFloat(t, 'f', -1, 64)`, `sort.Strings`, and the text of an
-- object, which has its name in it.
pub record Printing (F : Type 0) : Type 0 where
  pub format_float : F → Text
  pub sorted : List Text → List Text
  pub shown : Sort → ℕ → Text

-- `strings.Join(parts, ", ")`.
unfoldable pub join : List Text → Text
join [] = []
join (p ∷ []) = p
join (p ∷ q ∷ ps) = p ++ (b',' ∷ b' ' ∷ join (q ∷ ps))

abbrev pub none_text : Text
none_text = 0x062a ∷ 0x0647 ∷ 0x06cc ∷ []

abbrev pub true_text : Text
true_text = 0x062f ∷ 0x0631 ∷ 0x0633 ∷ 0x062a ∷ []

abbrev pub false_text : Text
false_text = 0x063a ∷ 0x0644 ∷ 0x0637 ∷ []

abbrev pub enclosed : ℕ → ℕ → Text → Text
enclosed first last s = first ∷ (s ++ (last ∷ []))

module _ {F : Type 0} where
  unfoldable pub keys : Entries F → List Text
  keys no_entries = []
  keys (entry k v m) = k ∷ keys m

  module _ (printing : Printing F) where
    unfoldable mutual
      unfolding to_persian_digits format_int64 join keys

      -- `Stringify`.
      pub stringify : Value F → Text
      stringify nil = none_text
      stringify (bool b) = if b then true_text else false_text
      stringify (int i) = to_persian_digits (format_int64 i)
      stringify (float t) = to_persian_digits (printing.format_float t)
      stringify (string s) = s
      stringify (list xs) = enclosed b'[' b']' (join (parts xs))
      stringify (tuple xs) = enclosed b'(' b')' (join (parts xs))
      stringify (dict m) = enclosed b'{' b'}' (join (printing.sorted (pairs m)))
      stringify (set m) = enclosed b'{' b'}' (join (printing.sorted (keys m)))
      stringify (object s p) = printing.shown s p

      pub parts : Items F → List Text
      parts no_items = []
      parts (item x xs) = stringify x ∷ parts xs

      pub pairs : Entries F → List Text
      pairs no_entries = []
      pairs (entry k v m) = (k ++ (b':' ∷ b' ' ∷ stringify v)) ∷ pairs m

    -- `Add`, `Has` and `Remove` of a set.
    unfoldable pub set_add : Value F → Entries F → Entries F
    unfolding stringify put
    set_add v s = put (stringify v) v s

    unfoldable pub set_has : Value F → Entries F → Bool
    unfolding stringify find
    set_has v s = is_found (find (stringify v) s)

    unfoldable pub set_remove : Value F → Entries F → Entries F
    unfolding stringify without
    set_remove v s = without (stringify v) s
