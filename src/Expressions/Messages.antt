-- ===== src/Expressions/Messages.antt =====
-- internal/eval: the messages of the errors that the evaluation of an expression makes itself.
use kolang.Prelude.{[], ◌∷◌, Text}

abbrev pub name_not_found : Text
name_not_found =
    0x0645 ∷ 0x062a ∷ 0x063a ∷ 0x06cc ∷ 0x0631 ∷ 0x0020 ∷ 0x06cc ∷ 0x0627 ∷ 0x0641 ∷ 0x062a ∷ 0x0020
    ∷ 0x0646 ∷ 0x0634 ∷ 0x062f ∷ 0x003a ∷ 0x0020 ∷ []

abbrev pub unknown_expression : Text
unknown_expression =
    0x0639 ∷ 0x0628 ∷ 0x0627 ∷ 0x0631 ∷ 0x062a ∷ 0x0020 ∷ 0x0646 ∷ 0x0627 ∷ 0x0634 ∷ 0x0646 ∷ 0x0627
    ∷ 0x062e ∷ 0x062a ∷ 0x0647 ∷ []

abbrev pub attribute_no_name : Text
attribute_no_name =
    0x0646 ∷ 0x0627 ∷ 0x0645 ∷ 0x0020 ∷ 0x0648 ∷ 0x06cc ∷ 0x0698 ∷ 0x06af ∷ 0x06cc ∷ 0x0020 ∷ 0x0628
    ∷ 0x0627 ∷ 0x06cc ∷ 0x062f ∷ 0x0020 ∷ 0x06cc ∷ 0x06a9 ∷ 0x0020 ∷ 0x0646 ∷ 0x0627 ∷ 0x0645
    ∷ 0x0020 ∷ 0x0628 ∷ 0x0627 ∷ 0x0634 ∷ 0x062f ∷ []

abbrev pub method_no_name : Text
method_no_name =
    0x0646 ∷ 0x0627 ∷ 0x0645 ∷ 0x0020 ∷ 0x0631 ∷ 0x0648 ∷ 0x0634 ∷ 0x0020 ∷ 0x0628 ∷ 0x0627 ∷ 0x06cc
    ∷ 0x062f ∷ 0x0020 ∷ 0x06cc ∷ 0x06a9 ∷ 0x0020 ∷ 0x0646 ∷ 0x0627 ∷ 0x0645 ∷ 0x0020 ∷ 0x0628
    ∷ 0x0627 ∷ 0x0634 ∷ 0x062f ∷ []

abbrev pub not_iterable : Text
not_iterable =
    0x0645 ∷ 0x0642 ∷ 0x062f ∷ 0x0627 ∷ 0x0631 ∷ 0x0020 ∷ 0x062f ∷ 0x0631 ∷ 0x06a9 ∷ 0x200c ∷ 0x0644
    ∷ 0x06cc ∷ 0x0633 ∷ 0x062a ∷ 0x0020 ∷ 0x0642 ∷ 0x0627 ∷ 0x0628 ∷ 0x0644 ∷ 0x0020 ∷ 0x067e
    ∷ 0x06cc ∷ 0x0645 ∷ 0x0627 ∷ 0x06cc ∷ 0x0634 ∷ 0x0020 ∷ 0x0646 ∷ 0x06cc ∷ 0x0633 ∷ 0x062a ∷ []

abbrev pub no_target : Text
no_target =
    0x0628 ∷ 0x0647 ∷ 0x0020 ∷ 0x0627 ∷ 0x06cc ∷ 0x0646 ∷ 0x0020 ∷ 0x0639 ∷ 0x0628 ∷ 0x0627 ∷ 0x0631
    ∷ 0x062a ∷ 0x0020 ∷ 0x0646 ∷ 0x0645 ∷ 0x06cc ∷ 0x200c ∷ 0x062a ∷ 0x0648 ∷ 0x0627 ∷ 0x0646
    ∷ 0x0020 ∷ 0x0645 ∷ 0x0642 ∷ 0x062f ∷ 0x0627 ∷ 0x0631 ∷ 0x0020 ∷ 0x062f ∷ 0x0627 ∷ 0x062f ∷ []

-- The name that stands for the parent class.
abbrev pub super_name : Text
super_name = 0x0648 ∷ 0x0627 ∷ 0x0644 ∷ 0x062f ∷ []
