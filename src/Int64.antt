-- ===== src/Int64.antt =====
-- Go's type int64, as internal/eval computes with it: integers, with the wrap-around written out.
pub mod Laws
pub mod Power
use kolang.Prelude.{
  ℕ, suc, ◌+◌, ◌-◌, ◌*◌, ◌/◌, ◌%◌, ◌<◌, ◌≤◌, Bool, ltb, leb, if◌then◌else◌, ◌&&◌, ◌==◌, Option,
  none, some,
}
use kolang.Prelude.Int.{ℤ, pos, negsuc, pos_part, neg_part, sub_ℕ, ◌+ℤ◌, ◌-ℤ◌, ◌*ℤ◌}

-- 2 ^ 63 and 2 ^ 64.
abbrev pub half_range : ℕ
half_range = 0x8000000000000000

abbrev pub full_range : ℕ
full_range = 0x1_0000_0000_0000_0000

abbrev pub max_int64 : ℤ
max_int64 = pos 0x7FFF_FFFF_FFFF_FFFF

abbrev pub min_int64 : ℤ
min_int64 = negsuc 0x7FFF_FFFF_FFFF_FFFF

-- The values of an int64.
abbrev pub InRange : ℤ → Type 0
InRange a = (pos_part a < half_range) × (neg_part a ≤ half_range)

abbrev pub in_range : ℤ → Bool
in_range a = ltb (pos_part a) half_range && leb (neg_part a) half_range

-- The int64 with a given bit pattern, and the bit pattern of an integer's low 64 bits.
unfoldable pub of_bits : ℕ → ℤ
of_bits n = if ltb n half_range then pos n else sub_ℕ n full_range

unfoldable pub to_bits : ℤ → ℕ
to_bits (pos n) = n % full_range
to_bits (negsuc n) = full_range - 1 - n % full_range

unfoldable pub wrap : ℤ → ℤ
unfolding of_bits to_bits
wrap a = of_bits (to_bits a)

-- `a + b` and `a * b` of int64.
unfoldable pub add64 : ℤ → ℤ → ℤ
unfolding wrap ◌+ℤ◌
add64 a b = wrap (a +ℤ b)

unfoldable pub mul64 : ℤ → ℤ → ℤ
unfolding wrap ◌*ℤ◌
mul64 a b = wrap (a *ℤ b)

-- `a / b`, which truncates towards zero, of a divisor that is not zero.
unfoldable pub quot : ℤ → ℤ → ℤ
quot a b =
    sub_ℕ (pos_part a / pos_part b + neg_part a / neg_part b)
      (pos_part a / neg_part b + neg_part a / pos_part b)

-- `a - b`, and `-a`.
unfoldable pub sub64 : ℤ → ℤ → ℤ
unfolding wrap ◌-ℤ◌
sub64 a b = wrap (a -ℤ b)

unfoldable pub neg64 : ℤ → ℤ
unfolding wrap ◌-ℤ◌
neg64 a = wrap (pos 0 -ℤ a)

abbrev pub is_zero : ℤ → Bool
is_zero a = pos_part a == 0 && neg_part a == 0

-- `a / b` and `a % b`. `none` is the panic of a division by zero. The quotient of the least int64
-- by -1 wraps around; a remainder has the sign of the dividend.
unfoldable pub quot64 : ℤ → ℤ → Option ℤ
unfolding wrap quot
quot64 a b = if is_zero b then none else some (wrap (quot a b))

unfoldable pub rem64 : ℤ → ℤ → Option ℤ
unfolding ◌-ℤ◌ ◌*ℤ◌ quot
rem64 a b = if is_zero b then none else some (a -ℤ quot a b *ℤ b)
