-- ===== src/Operators/Kinds.antt =====
-- internal/eval/eval_expr.go: the types of the operands that `applyBinop` takes, and of its results.
use kolang.Prelude.{◌≡◌, List, [], ◌∷◌, ◌⊎◌}
use kolang.Token.{
  TokenType, plus, minus, star, div, floordiv, percent, pow, equal, less, greater, less_equal,
  greater_equal,
}
use kolang.Values.{Value, int, float, bool, string}

-- The types that an operator tells apart: int64, float64, bool, string, and all others.
pub data Kind : Type 0 where
  int_kind float_kind bool_kind string_kind other_kind : Kind

module _ {F : Type 0} where
  unfoldable pub kind : Value F → Kind
  kind (int i) = int_kind
  kind (float t) = float_kind
  kind (bool b) = bool_kind
  kind (string s) = string_kind
  kind _ = other_kind

-- The kinds of the results that arithmetic may have; no kind at all is a type error.
abbrev pub arith_kinds : Kind → Kind → List Kind
arith_kinds int_kind int_kind = int_kind ∷ []
arith_kinds int_kind float_kind = float_kind ∷ []
arith_kinds float_kind int_kind = float_kind ∷ []
arith_kinds float_kind float_kind = float_kind ∷ []
arith_kinds _ _ = []

abbrev sum_kinds : Kind → Kind → List Kind
sum_kinds string_kind string_kind = string_kind ∷ []
sum_kinds a b = arith_kinds a b

abbrev quotient_kinds : Kind → Kind → List Kind
quotient_kinds int_kind int_kind = float_kind ∷ []
quotient_kinds a b = arith_kinds a b

abbrev power_kinds : Kind → Kind → List Kind
power_kinds int_kind int_kind = int_kind ∷ float_kind ∷ []
power_kinds _ _ = float_kind ∷ []

abbrev pub order_kinds : Kind → Kind → List Kind
order_kinds int_kind int_kind = bool_kind ∷ []
order_kinds int_kind float_kind = bool_kind ∷ []
order_kinds float_kind int_kind = bool_kind ∷ []
order_kinds float_kind float_kind = bool_kind ∷ []
order_kinds string_kind string_kind = bool_kind ∷ []
order_kinds _ _ = []

abbrev pub binop_kinds : TokenType → Kind → Kind → List Kind
binop_kinds plus a b = sum_kinds a b
binop_kinds minus a b = arith_kinds a b
binop_kinds star a b = arith_kinds a b
binop_kinds div a b = quotient_kinds a b
binop_kinds floordiv a b = arith_kinds a b
binop_kinds percent a b = arith_kinds a b
binop_kinds pow a b = power_kinds a b
binop_kinds equal a b = bool_kind ∷ []
binop_kinds less a b = order_kinds a b
binop_kinds greater a b = order_kinds a b
binop_kinds less_equal a b = order_kinds a b
binop_kinds greater_equal a b = order_kinds a b
binop_kinds _ a b = []

abbrev pub IsKind : Kind → List Kind → Type 0
IsKind k [] = ⊥
IsKind k (j ∷ js) = (k ≡ j) ⊎ IsKind k js
