-- ===== src/Tests/Annotated.antt =====
-- Type annotations, printed values and sets, at concrete inputs.
use kolang.Prelude.{ℕ, ◌==◌, ◌≡◌, refl, ◌++◌, Bool, true, [], ◌∷◌, none, Text, codes, length}
use kolang.Prelude.Int.{ℤ, pos, negsuc}
use kolang.Values.{int, string, list, set, tuple, no_items, item, no_entries}
use kolang.Values.Printed.{stringify, set_add, set_has}
use kolang.Annotations.{Declared, fits, mismatch, split_type_list, check_type}
use kolang.Annotations.Names.{int_name, string_name, set_name, separator}
use kolang.Tests.Toys.{printing}

abbrev blank : ℕ → Bool
blank c = c == 32

-- Integer and text, as the type of a tuple.
abbrev pair_type : Text
pair_type = b'(' ∷ (int_name ++ (32 ∷ separator ∷ 32 ∷ (string_name ++ (b')' ∷ []))))

abbrev nothing_declared : Declared ℤ ℕ
nothing_declared = record {
  get = λ name. none;
  classes = [];
  class_of = λ i. i;
  methods_of = λ i. [];
}

pair_fits :
    check_type nothing_declared blank 99
      (tuple (item (int (pos 1)) (item (string []) no_items)))
      pair_type
    ≡ fits
unfolding check_type
pair_fits = refl

pair_of_numbers :
    check_type nothing_declared blank 99
      (tuple (item (int (pos 1)) (item (int (pos 2)) no_items)))
      pair_type
    ≡ mismatch
unfolding check_type
pair_of_numbers = refl

-- The name of the type of sets holds the separator, and is split where it stands in a tuple type.
set_name_is_split : length (split_type_list blank set_name) ≡ 2
unfolding split_type_list
set_name_is_split = refl

-- In parentheses it refuses a set, which it takes without them.
set_refused :
    check_type nothing_declared blank 99 (set no_entries) (b'(' ∷ (set_name ++ (b')' ∷ [])))
    ≡ mismatch
unfolding check_type
set_refused = refl

set_taken : check_type nothing_declared blank 99 (set no_entries) set_name ≡ fits
unfolding check_type
set_taken = refl

-- A number is printed in Persian digits.
printed_list :
    stringify printing (list (item (int (negsuc 41)) (item (string (codes "a")) no_items)))
    ≡ b'[' ∷ b'-' ∷ 0x06f4 ∷ 0x06f2 ∷ codes ", a]"
unfolding stringify
printed_list = refl

-- A number and the text of its digit are one element of a set.
one_element :
    set_has printing (string (0x06f1 ∷ [])) (set_add printing (int (pos 1)) no_entries) ≡ true
unfolding set_has set_add
one_element = refl
