-- ===== src/Annotations/Names.antt =====
-- internal/eval/eval_types.go: the names of types.
use kolang.Prelude.{ℕ, [], ◌∷◌, Text}

abbrev pub any_name : Text
any_name = 0x0647 ∷ 0x0631 ∷ []

abbrev pub int_name : Text
int_name = 0x0635 ∷ 0x062d ∷ 0x06cc ∷ 0x062d ∷ []

abbrev pub float_name : Text
float_name = 0x0627 ∷ 0x0639 ∷ 0x0634 ∷ 0x0627 ∷ 0x0631 ∷ 0x06cc ∷ []

abbrev pub string_name : Text
string_name = 0x0645 ∷ 0x062a ∷ 0x0646 ∷ []

abbrev pub list_name : Text
list_name = 0x0641 ∷ 0x0647 ∷ 0x0631 ∷ 0x0633 ∷ 0x062a ∷ []

abbrev pub set_name : Text
set_name = 0x0645 ∷ 0x062c ∷ 0x0645 ∷ 0x0648 ∷ 0x0639 ∷ 0x0647 ∷ []

abbrev pub dict_name : Text
dict_name = 0x06af ∷ 0x0646 ∷ 0x062c ∷ 0x0647 ∷ []

abbrev pub tuple_name : Text
tuple_name = 0x0642 ∷ 0x0641 ∷ 0x0633 ∷ 0x0647 ∷ []

abbrev pub bool_name : Text
bool_name = 0x0628 ∷ 0x0648 ∷ 0x0644 ∷ 0x06cc ∷ []

abbrev pub none_name : Text
none_name = 0x062a ∷ 0x0647 ∷ 0x06cc ∷ []

abbrev pub nones_name : Text
nones_name = 0x062a ∷ 0x0647 ∷ 0x06cc ∷ 0x200c ∷ 0x0647 ∷ 0x0627 ∷ []

abbrev pub generator_name : Text
generator_name = 0x062c ∷ 0x0646 ∷ 0x0631 ∷ 0x06cc ∷ 0x062a ∷ 0x0648 ∷ 0x0631 ∷ []

abbrev pub channel_name : Text
channel_name = 0x06a9 ∷ 0x0627 ∷ 0x0646 ∷ 0x0627 ∷ 0x0644 ∷ []

abbrev pub unknown_name : Text
unknown_name = 0x0646 ∷ 0x0627 ∷ 0x0634 ∷ 0x0646 ∷ 0x0627 ∷ 0x062e ∷ 0x062a ∷ 0x0647 ∷ []

-- The letter that separates the types of a tuple.
abbrev pub separator : ℕ
separator = 0x0648
