-- ===== src/Int64/Power.antt =====
-- internal/eval/eval_expr.go: `mulOverflows` and `intPow`.
pub mod Overflow
pub mod Scale
pub mod Exact
use kolang.Prelude.{
  ℕ, zero, suc, ◌/◌, ◌%◌, ◌==◌, Bool, false, ◌||◌, ◌&&◌, Option, none, some, if◌then◌else◌,
}
use kolang.Prelude.Int.{ℤ, pos, pos_part, neg_part, ltb_ℤ, ◌*ℤ◌}
use kolang.Int64.{is_zero, max_int64, min_int64, quot, mul64}

unfoldable pub mul_overflows : ℤ → ℤ → Bool
mul_overflows a b =
    if is_zero a || is_zero b
    then false
    else if ltb_ℤ (pos 0) a
    then (if ltb_ℤ (pos 0) b then ltb_ℤ (quot max_int64 b) a else ltb_ℤ b (quot min_int64 a))
    else if ltb_ℤ (pos 0) b
    then ltb_ℤ a (quot min_int64 b)
    else ltb_ℤ b (quot max_int64 a)

-- `result`, with the bit of the exponent that is at hand. `none` is the raised value error.
unfoldable pub take_bit : ℕ → ℤ → ℤ → Option ℤ
unfolding mul_overflows mul64
take_bit bit result base =
    if bit == 1
    then (if mul_overflows result base then none else some (mul64 result base))
    else some result

infixl 5 ◌>>=◌
abbrev pub ◌>>=◌ : Option ℤ → (ℤ → Option ℤ) → Option ℤ
◌>>=◌ none k = none
◌>>=◌ (some r) k = k r

-- Behind the first part of a round: the end, or the square of the base and the next round.
unfoldable pub square_on : (ℤ → ℤ → ℕ → Option ℤ) → ℤ → ℕ → ℤ → Option ℤ
unfolding mul_overflows mul64
square_on again base rest result =
    if rest == 0
    then some result
    else if mul_overflows base base
    then none
    else again result (mul64 base base) rest

-- The loop of `intPow`. Each round halves the exponent and spends one unit of fuel.
unfoldable pub pow_loop : ℕ → ℤ → ℤ → ℕ → Option ℤ
unfolding take_bit square_on
pow_loop zero result base exp = some result
pow_loop (suc fuel) result base exp =
    if exp == 0
    then some result
    else take_bit (exp % 2) result base >>= square_on (pow_loop fuel) base (exp / 2)

-- `intPow`, for an exponent that is not negative. Fuel for 63 bits is enough.
unfoldable pub int_pow : ℤ → ℕ → Option ℤ
unfolding pow_loop
int_pow base exp = pow_loop 64 (pos 1) base exp
