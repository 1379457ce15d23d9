-- ===== src/Operators/Types.antt =====
-- internal/eval/eval_expr.go: the types of the operands and of the result of `applyBinop`.
use kolang.Prelude.{
  ℕ, ◌≡◌, ◌≢◌, refl, ◌∙◌, if_split, Bool, true, false, not, ◌&&◌, [], ◌∷◌, Option, none, some,
  arith, inl, inr,
}
use kolang.Prelude.Int.{ℤ, pos, negsuc}
use kolang.Int64.{add64, sub64, mul64, is_zero, quot64, rem64}
use kolang.Int64.Power.{int_pow}
use kolang.Token.{
  TokenType, plus, minus, star, div, floordiv, percent, pow, equal, less, greater, less_equal,
  greater_equal,
}
use kolang.Values.{Value, nil, int, float, string, Floats, to_float}
use kolang.Operators
use kolang.Operators.Kinds.{
  int_kind, float_kind, kind, arith_kinds, order_kinds, binop_kinds, IsKind,
}
use kolang.Operators.{
  Computed, result, raises, runtime_error, panics, exc_zero, exc_val, exc_type, int_result, exactly,
  add_values, is_zero_number, true_div, power_values, is_below, is_above, compare, apply_binop,
  Order, holds, pow_result,
}

abbrev divides : TokenType → Bool
divides div = true
divides floordiv = true
divides percent = true
divides _ = false

module _ {F : Type 0} (floats : Floats F) where
  -- What an operator may give for two operands, on a line: a value of a type that it has there; a
  -- division by zero; an overflow; a refusal, where it has no type.
  abbrev pub Fits : TokenType → Value F → Value F → ℕ → Computed (Value F) → Type 0
  Fits op l r line (result v) =
      IsKind (kind v) (binop_kinds op (kind l) (kind r))
      × ((divides op && is_zero_number floats r) ≡ false)
  Fits op l r line (raises exc_zero n) =
      (divides op ≡ true) × (is_zero_number floats r ≡ true) × (n ≡ line)
  Fits op l r line (raises exc_val n) =
      (op ≡ pow) × (kind l ≡ int_kind) × (kind r ≡ int_kind) × (n ≡ line)
  Fits op l r line (raises exc_type n) = (binop_kinds op (kind l) (kind r) ≡ []) × (n ≡ line)
  Fits op l r line (runtime_error n) = binop_kinds op (kind l) (kind r) ≡ []
  Fits op l r line panics = ⊥

  abbrev Divisible : (ℤ → ℤ → Option ℤ) → Value F → Type 0
  Divisible i_fn (int b) = (a : ℤ) → i_fn a b ≢ none
  Divisible i_fn _ = Unit {0}

  int_result-Fits :
      (op : TokenType) (a b : ℤ) (line : ℕ) (o : Option ℤ)
      → binop_kinds op int_kind int_kind ≡ int_kind ∷ []
      → (divides op && is_zero_number floats (int b)) ≡ false
      → o ≢ none
      → Fits op (int a) (int b) line (int_result o)
  unfolding kind
  int_result-Fits op a b line none kinds ne h = absurd (h refl)
  int_result-Fits op a b line (some i) kinds ne h = (rw kinds (inl refl), ne)

  arith-Fits :
      (op : TokenType) (i_fn : ℤ → ℤ → Option ℤ) (f_fn : F → F → F) (l r : Value F) (line : ℕ)
      → binop_kinds op (kind l) (kind r) ≡ arith_kinds (kind l) (kind r)
      → (divides op && is_zero_number floats r) ≡ false
      → Divisible i_fn r
      → Fits op l r line (Operators.arith floats i_fn f_fn l r line)
  unfolding kind Operators.arith
  arith-Fits op i_fn f_fn (int a) (int b) line kinds ne d =
      int_result-Fits op a b line (i_fn a b) kinds ne (d a)
  arith-Fits op i_fn f_fn (int a) (float u) line kinds ne d = (rw kinds (inl refl), ne)
  arith-Fits op i_fn f_fn (float t) (int b) line kinds ne d = (rw kinds (inl refl), ne)
  arith-Fits op i_fn f_fn (float t) (float u) line kinds ne d = (rw kinds (inl refl), ne)
  arith-Fits op i_fn f_fn _ _ line kinds ne d = (kinds, refl)

  some_clash : {i : ℤ} → some i ≡ none → ⊥
  some_clash e = cc

  exactly-Divisible : (f : ℤ → ℤ → ℤ) (r : Value F) → Divisible (exactly f) r
  exactly-Divisible f (int b) = λ a e. absurd (some_clash e)
  exactly-Divisible f nil = tt
  exactly-Divisible f _ = tt

  add-Fits : (l r : Value F) (line : ℕ) → Fits plus l r line (add_values floats l r line)
  unfolding kind add_values
  add-Fits (string s) (string t) line = (inl refl, refl)
  add-Fits l r line =
      arith-Fits plus (exactly add64) floats.add l r line refl refl (exactly-Divisible add64 r)

  quotient-Fits :
      (l r : Value F) (t u : F) (line : ℕ)
      → binop_kinds div (kind l) (kind r) ≡ float_kind ∷ []
      → is_zero_number floats r ≡ floats.is_zero u
      → Fits div l r line (true_div floats (some t) (some u) line)
  unfolding kind
  quotient-Fits l r t u line kinds same =
      if_split (Fits div l r line) (floats.is_zero u) _ _ (λ zero. (refl, same ∙ zero, refl))
        (λ other. (rw kinds (inl refl), same ∙ other))

  true_div-Fits :
      (l r : Value F) (line : ℕ)
      → Fits div l r line (true_div floats (to_float floats l) (to_float floats r) line)
  unfolding kind to_float is_zero_number
  true_div-Fits (int a) (int b) line =
      quotient-Fits (int a) (int b) (floats.of_int a) (floats.of_int b) line refl refl
  true_div-Fits (int a) (float u) line =
      quotient-Fits (int a) (float u) (floats.of_int a) u line refl refl
  true_div-Fits (float t) (int b) line =
      quotient-Fits (float t) (int b) t (floats.of_int b) line refl refl
  true_div-Fits (float t) (float u) line = quotient-Fits (float t) (float u) t u line refl refl
  true_div-Fits _ _ line = refl

  pow_result-Fits :
      (a b : ℤ) (line : ℕ) (o : Option ℤ) → Fits pow (int a) (int b) line (pow_result line o)
  unfolding kind
  pow_result-Fits a b line none = (refl, refl, refl, refl)
  pow_result-Fits a b line (some i) = (inl refl, refl)

  power-Fits : (l r : Value F) (line : ℕ) → Fits pow l r line (power_values floats l r line)
  unfolding kind power_values
  power-Fits (int a) (int (pos n)) line = pow_result-Fits a (pos n) line (int_pow a n)
  power-Fits (int a) (int (negsuc n)) line = (inr (inl refl), refl)
  power-Fits _ _ line = (inl refl, refl)

  order-Fits :
      (op : TokenType) (test : Order → Bool) (l r : Value F) (line : ℕ)
      → binop_kinds op (kind l) (kind r) ≡ order_kinds (kind l) (kind r)
      → divides op ≡ false
      → Fits op l r line (holds (compare floats test l r))
  unfolding kind compare
  order-Fits op test (int a) (int b) line kinds n = (rw kinds (inl refl), rw n refl)
  order-Fits op test (int a) (float u) line kinds n = (rw kinds (inl refl), rw n refl)
  order-Fits op test (float t) (int b) line kinds n = (rw kinds (inl refl), rw n refl)
  order-Fits op test (float t) (float u) line kinds n = (rw kinds (inl refl), rw n refl)
  order-Fits op test (string s) (string t) line kinds n = (rw kinds (inl refl), rw n refl)
  order-Fits op test _ _ line kinds n = kinds

module _ {F : Type 0} (floats : Floats F)
    (of_zero : (i : ℤ) → is_zero i ≡ true → floats.is_zero (floats.of_int i) ≡ true) where
  -- A divisor that passes the test on its float64 is no zero as an int64.
  nonzero : (b : ℤ) → floats.is_zero (floats.of_int b) ≡ false → is_zero b ≡ false
  nonzero b h = ground (arith, of_zero b)

  quot-Divisible : (r : Value F) → is_zero_number floats r ≡ false → Divisible floats quot64 r
  unfolding is_zero_number quot64
  quot-Divisible (int b) h = λ a. rw (nonzero b h) (λ e. some_clash floats e)
  quot-Divisible nil h = tt
  quot-Divisible _ h = tt

  rem-Divisible : (r : Value F) → is_zero_number floats r ≡ false → Divisible floats rem64 r
  unfolding is_zero_number rem64
  rem-Divisible (int b) h = λ a. rw (nonzero b h) (λ e. some_clash floats e)
  rem-Divisible nil h = tt
  rem-Divisible _ h = tt

  pub apply_binop-Fits :
      (op : TokenType) (l r : Value F) (line : ℕ)
      → Fits floats op l r line (apply_binop floats op l r line)
  unfolding apply_binop kind
  apply_binop-Fits plus l r line = add-Fits floats l r line
  apply_binop-Fits minus l r line =
      arith-Fits floats minus (exactly sub64) floats.sub l r line refl refl
        (exactly-Divisible floats sub64 r)
  apply_binop-Fits star l r line =
      arith-Fits floats star (exactly mul64) floats.mul l r line refl refl
        (exactly-Divisible floats mul64 r)
  apply_binop-Fits div l r line = true_div-Fits floats l r line
  apply_binop-Fits floordiv l r line =
      if_split (Fits floats floordiv l r line) (is_zero_number floats r) _ _
        (λ zero. (refl, zero, refl))
        (λ other.
          arith-Fits floats floordiv quot64 floats.floor_div l r line refl other
            (quot-Divisible r other))
  apply_binop-Fits percent l r line =
      if_split (Fits floats percent l r line) (is_zero_number floats r) _ _
        (λ zero. (refl, zero, refl))
        (λ other.
          arith-Fits floats percent rem64 floats.remainder l r line refl other
            (rem-Divisible r other))
  apply_binop-Fits pow l r line = power-Fits floats l r line
  apply_binop-Fits equal l r line = (inl refl, refl)
  apply_binop-Fits less l r line = order-Fits floats less is_below l r line refl refl
  apply_binop-Fits greater l r line = order-Fits floats greater is_above l r line refl refl
  apply_binop-Fits less_equal l r line =
      order-Fits floats less_equal (λ c. not (is_above c)) l r line refl refl
  apply_binop-Fits greater_equal l r line =
      order-Fits floats greater_equal (λ c. not (is_below c)) l r line refl refl
  apply_binop-Fits _ l r line = refl
