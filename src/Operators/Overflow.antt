-- ===== src/Operators/Overflow.antt =====
-- internal/eval/eval_expr.go: the overflow of `applyBinop`.
use mathlib.Core.Path.{subst}
use kolang.Prelude.{ℕ, ◌≡◌, refl, sym, ap, ◌∙◌, if◌then◌else◌, Bool, true, false, none, some, arith}
use kolang.Prelude.Int.{ℤ, pos, negsuc}
use kolang.Int64.{InRange, in_range, is_zero}
use kolang.Int64.Power.{int_pow}
use kolang.Int64.Power.Exact.{int_pow_lem}
use kolang.Int64.Power.Scale
use kolang.Int64.Laws.{in_range_iff}
use kolang.Token.{TokenType, pow}
use kolang.Values.{Value, int, Floats}
use kolang.Operators.{Computed, raises, exc_val, power_values, apply_binop, pow_result}
use kolang.Operators.Types.{Fits, apply_binop-Fits}

-- The power of an integer, beside the token `pow`.
abbrev pub pow_of : ℤ → ℕ → ℤ
pow_of a n = Scale.pow a n

module _ {F : Type 0} where
  abbrev pub IsInt64 : Value F → Type 0
  IsInt64 (int i) = InRange i
  IsInt64 _ = Unit

  -- Two operands whose power is none of int64.
  abbrev pub Overflows : Value F → Value F → Type 0
  Overflows (int a) (int (pos n)) = ¬ InRange (pow_of a n)
  Overflows _ _ = ⊥

  -- If a result is the overflow, it is one.
  abbrev pub MayOverflow : Value F → Value F → Computed (Value F) → Type 0
  MayOverflow l r (raises exc_val n) = Overflows l r
  MayOverflow l r _ = Unit

checked-MayOverflow :
    (F : Type 0) (a : ℤ) (n line : ℕ) (x : Bool)
    → in_range (pow_of a n) ≡ x
    → MayOverflow {F = F}
        (int a)
        (int (pos n))
        (pow_result {F = F} line (if x then some (pow_of a n) else none))
checked-MayOverflow F a n line true h = tt
checked-MayOverflow F a n line false h =
    λ i. absurd (clash (sym ((in_range_iff (pow_of a n)).1 i) ∙ h))
  where
    clash : true ≡ false → ⊥
    clash e = cc

pow_result-MayOverflow :
    (F : Type 0) (a : ℤ) (n line : ℕ)
    → InRange a
    → InRange (pos n)
    → MayOverflow {F = F} (int a) (int (pos n)) (pow_result {F = F} line (int_pow a n))
pow_result-MayOverflow F a n line a_in n_in =
    rw (int_pow_lem a n a_in (omega arith))
      (checked-MayOverflow F a n line (in_range (pow_of a n)) refl)

module _ {F : Type 0} (floats : Floats F)
    (of_zero : (i : ℤ) → is_zero i ≡ true → floats.is_zero (floats.of_int i) ≡ true) where
  power-MayOverflow :
      (l r : Value F) (line : ℕ)
      → IsInt64 l
      → IsInt64 r
      → MayOverflow l r (power_values floats l r line)
  unfolding power_values
  power-MayOverflow (int a) (int (pos n)) line a_in n_in =
      pow_result-MayOverflow F a n line a_in n_in
  power-MayOverflow (int a) (int (negsuc n)) line a_in n_in = tt
  power-MayOverflow _ _ line l_in r_in = tt

  apply_binop-pow :
      (l r : Value F) (line : ℕ) → apply_binop floats pow l r line ≡ power_values floats l r line
  unfolding apply_binop
  apply_binop-pow l r line = refl

  Fits-MayOverflow :
      (op : TokenType) (l r : Value F) (line : ℕ)
      → IsInt64 l
      → IsInt64 r
      → (c : Computed (Value F)) → apply_binop floats op l r line ≡ c
      → Fits floats op l r line c
      → MayOverflow l r c
  Fits-MayOverflow op l r line l_in r_in (raises exc_val n) e h =
      subst (MayOverflow l r)
        (sym (apply_binop-pow l r line) ∙ ap (λ t. apply_binop floats t l r line) (sym h.0) ∙ e)
        (power-MayOverflow l r line l_in r_in)
  Fits-MayOverflow op l r line l_in r_in _ e h = tt

  -- Where the float64 of the int64 zero is zero and integers among the operands are int64: an
  -- operator gives a value only of a type that it has for the types of its operands, and not by a
  -- zero divisor; it raises the division by zero only for a divisor that is zero, and the overflow
  -- only for a power of two integers that is not an int64; it refuses its operands only where it has
  -- no type for theirs; each exception has the operator's line; and the interpreter never panics.
  pub apply_binop-Exact :
      (op : TokenType) (l r : Value F) (line : ℕ)
      → IsInt64 l
      → IsInt64 r
      → Fits floats op l r line (apply_binop floats op l r line)
        × MayOverflow l r (apply_binop floats op l r line)
  apply_binop-Exact op l r line l_in r_in =
      let fits = apply_binop-Fits floats of_zero op l r line in
      (fits, Fits-MayOverflow op l r line l_in r_in (apply_binop floats op l r line) refl fits)
