-- ===== src/Operators.antt =====
-- internal/eval/eval_expr.go: the operators on values that are evaluated already (`applyBinop`,
-- `inOperator`, and what `evalUnary` does with its operand), with `arith`, `compare` and `toBool`.
pub mod Kinds
pub mod Types
pub mod Overflow
pub mod Named
use kolang.Prelude.{
  ℕ, Bool, true, false, not, ◌&&◌, ◌||◌, ◌==◌, List, [], ◌∷◌, ◌++◌, Option, none, some, Text, codes,
  text_eq, if◌then◌else◌,
}
use kolang.Prelude.Int.{ℤ, pos, negsuc}
use kolang.Int64.{add64, sub64, mul64, neg64, quot64, rem64}
use kolang.Int64.Power.{int_pow}
use kolang.Token.{
  TokenType, illegal, plus, minus, star, div, floordiv, percent, pow, equal, less, greater,
  less_equal, greater_equal,
}
use kolang.Token.Spelling.{spelling}
use kolang.Values.{
  Sort, generator_sort, Value, nil, bool, int, float, string, list, tuple, dict, set, object, Items,
  no_items, item, Floats, to_float, find,
}
use kolang.Values.Equality
use kolang.Values.Equality.{text_lt, is_found}
use kolang.Values.Printed.{Printing, stringify}

-- The exception classes that an operator raises.
pub data Raised : Type 0 where
  exc_zero exc_val exc_type : Raised

-- A value, an exception, a `RuntimeError`, or a panic of the interpreter; an error has its line.
pub data Computed (A : Type 0) : Type 0 where
  result : A → Computed A
  raises : Raised → ℕ → Computed A
  runtime_error : ℕ → Computed A
  panics : Computed A

-- The outcome of the comparison that the test of `compare` reads: -1, 0 or 1.
pub data Order : Type 0 where
  below same above : Order

abbrev pub order_of : Bool → Bool → Order
order_of true _ = below
order_of false true = above
order_of false false = same

abbrev pub is_below : Order → Bool
is_below below = true
is_below _ = false

abbrev pub is_above : Order → Bool
is_above above = true
is_above _ = false

abbrev pub exactly : (ℤ → ℤ → ℤ) → ℤ → ℤ → Option ℤ
exactly f a b = some (f a b)

unfoldable pub is_prefix : Text → Text → Bool
is_prefix [] t = true
is_prefix (x ∷ s) [] = false
is_prefix (x ∷ s) (y ∷ t) = x == y && is_prefix s t

-- `strings.Contains(t, s)`.
unfoldable pub contains : Text → Text → Bool
unfolding is_prefix
contains s [] = is_prefix s []
contains s (y ∷ t) = is_prefix s (y ∷ t) || contains s t

-- The case of a `switch` over operators whose spelling the operator is.
unfoldable pub first_named : Text → List TokenType → TokenType
unfolding text_eq spelling
first_named op [] = illegal
first_named op (t ∷ ts) = if text_eq (spelling t) op then t else first_named op ts

-- The cases of `applyBinop`, in the source's order.
abbrev pub binop_cases : List TokenType
binop_cases =
    plus ∷ minus ∷ star ∷ div ∷ floordiv ∷ percent ∷ pow ∷ equal ∷ less ∷ greater ∷ less_equal
    ∷ greater_equal ∷ []

module _ {F : Type 0} where
  abbrev pub int_result : Option ℤ → Computed (Value F)
  int_result none = panics
  int_result (some i) = result (int i)

  -- The result of `intPow`.
  abbrev pub pow_result : ℕ → Option ℤ → Computed (Value F)
  pow_result line none = raises exc_val line
  pow_result line (some i) = result (int i)

  -- `toBool`.
  unfoldable pub to_bool : Value F → ℕ → Computed Bool
  to_bool (bool b) line = result b
  to_bool _ line = raises exc_type line

  abbrev pub holds : Computed Bool → Computed (Value F)
  holds (result b) = result (bool b)
  holds (raises c line) = raises c line
  holds (runtime_error line) = runtime_error line
  holds panics = panics

  abbrev pub float_or : F → Option F → F
  float_or zero_float none = zero_float
  float_or zero_float (some t) = t

module _ {F : Type 0} (floats : Floats F) where
  -- `arith`, with its operation on int64 and the one on float64.
  unfoldable pub arith :
      (ℤ → ℤ → Option ℤ) → (F → F → F) → Value F → Value F → ℕ → Computed (Value F)
  arith i_fn f_fn (int a) (int b) line = int_result (i_fn a b)
  arith i_fn f_fn (int a) (float u) line = result (float (f_fn (floats.of_int a) u))
  arith i_fn f_fn (float t) (int b) line = result (float (f_fn t (floats.of_int b)))
  arith i_fn f_fn (float t) (float u) line = result (float (f_fn t u))
  arith i_fn f_fn _ _ line = raises exc_type line

  -- `+`: texts are joined.
  unfoldable pub add_values : Value F → Value F → ℕ → Computed (Value F)
  unfolding arith add64
  add_values (string s) (string t) line = result (string (s ++ t))
  add_values l r line = arith (exactly add64) floats.add l r line

  -- `rf, ok := toFloat(r); ok && rf == 0`.
  unfoldable pub is_zero_number : Value F → Bool
  is_zero_number (int i) = floats.is_zero (floats.of_int i)
  is_zero_number (float t) = floats.is_zero t
  is_zero_number _ = false

  abbrev pub true_div : Option F → Option F → ℕ → Computed (Value F)
  true_div (some t) (some u) line =
      if floats.is_zero u then raises exc_zero line else result (float (floats.div t u))
  true_div _ _ line = runtime_error line

  -- The power: by `intPow` for an int64 and an int64 that is not negative, else on float64, where an
  -- operand that is no number is taken for 0.
  unfoldable pub power_values : Value F → Value F → ℕ → Computed (Value F)
  unfolding int_pow to_float
  power_values (int a) (int (pos n)) line = pow_result line (int_pow a n)
  power_values l r line =
      let number = λ (v : Value F). float_or (floats.of_int (pos 0)) (to_float floats v) in
      result (float (floats.power (number l) (number r)))

  -- `compare`. Its error has the line 0.
  unfoldable pub compare : (Order → Bool) → Value F → Value F → Computed Bool
  unfolding text_lt
  compare test (int a) (int b) =
      let t = floats.of_int a in
      let u = floats.of_int b in result (test (order_of (floats.lt t u) (floats.lt u t)))
  compare test (int a) (float u) =
      let t = floats.of_int a in result (test (order_of (floats.lt t u) (floats.lt u t)))
  compare test (float t) (int b) =
      let u = floats.of_int b in result (test (order_of (floats.lt t u) (floats.lt u t)))
  compare test (float t) (float u) = result (test (order_of (floats.lt t u) (floats.lt u t)))
  compare test (string s) (string t) = result (test (order_of (text_lt s t) (text_lt t s)))
  compare test _ _ = runtime_error 0

  -- `applyBinop`.
  unfoldable pub apply_binop : TokenType → Value F → Value F → ℕ → Computed (Value F)
  unfolding arith add_values to_float is_zero_number power_values compare Equality.equal
  apply_binop plus l r line = add_values l r line
  apply_binop minus l r line = arith (exactly sub64) floats.sub l r line
  apply_binop star l r line = arith (exactly mul64) floats.mul l r line
  apply_binop div l r line = true_div (to_float floats l) (to_float floats r) line
  apply_binop floordiv l r line =
      if is_zero_number r then raises exc_zero line else arith quot64 floats.floor_div l r line
  apply_binop percent l r line =
      if is_zero_number r then raises exc_zero line else arith rem64 floats.remainder l r line
  apply_binop pow l r line = power_values l r line
  apply_binop equal l r line = result (bool (Equality.equal floats l r))
  apply_binop less l r line = holds (compare is_below l r)
  apply_binop greater l r line = holds (compare is_above l r)
  apply_binop less_equal l r line = holds (compare (λ c. not (is_above c)) l r)
  apply_binop greater_equal l r line = holds (compare (λ c. not (is_below c)) l r)
  apply_binop _ l r line = runtime_error line

  abbrev pub negated : Value F → ℕ → Computed (Value F)
  negated (int i) line = result (int (neg64 i))
  negated (float t) line = result (float (floats.neg t))
  negated _ line = runtime_error line

  abbrev pub inverted : Computed Bool → Computed (Value F)
  inverted (result b) = result (bool (not b))
  inverted (raises c line) = raises c line
  inverted (runtime_error line) = runtime_error line
  inverted panics = panics

  -- What `evalUnary` does with its operand.
  unfoldable pub apply_unary : Text → Value F → ℕ → Computed (Value F)
  unfolding to_bool neg64 text_eq
  apply_unary op v line =
      if text_eq op (codes "-")
      then negated v line
      else if text_eq op (codes "not")
      then inverted (to_bool v line)
      else runtime_error line

  -- The loop of `inOperator` over a list or a tuple.
  unfoldable pub holds_equal : Value F → Items F → Bool
  unfolding Equality.equal
  holds_equal l no_items = false
  holds_equal l (item v vs) = Equality.equal floats v l || holds_equal l vs

  -- `inOperator`.
  unfoldable pub in_operator : Printing F → Value F → Value F → ℕ → Computed Bool
  unfolding holds_equal contains stringify find
  in_operator printing l (list xs) line = result (holds_equal l xs)
  in_operator printing l (tuple xs) line = result (holds_equal l xs)
  in_operator printing l (set m) line = result (is_found (find (stringify printing l) m))
  in_operator printing l (dict m) line = result (is_found (find (stringify printing l) m))
  in_operator printing (string s) (string t) line = result (contains s t)
  in_operator printing l (string t) line = result false
  in_operator printing l _ line = runtime_error line
