-- ===== src/Int64/Power/Overflow.antt =====
-- `mulOverflows` decides whether a product leaves the range of int64.
use native.Mathlib.Nat.{div-lt_iff_lt-mul, mul_comm}
use kolang.Prelude.{ℕ, suc, zero, ◌-◌, ◌*◌, ◌/◌, ◌<◌, ◌≡◌, arith, not, dec_lt, ◌∙◌, ◌↔◌}
use kolang.Prelude.Int.{ℤ, pos, negsuc, sub_ℕ, ◌*ℤ◌, ltb_ℤ}
use kolang.Int64.{max_int64, min_int64, half_range, in_range, quot}
use kolang.Int64.Power.{mul_overflows}

abbrev max_part : ℕ
max_part = 0x7FFF_FFFF_FFFF_FFFF

-- A quotient and a product tell the same, for the two bounds that the code divides.
below_quotient : (m d x : ℕ) → 0 < d → (m / d < x) ↔ (m < x * d)
below_quotient m d x h = div-lt_iff_lt-mul h

-- The products and quotients of two signs, by their magnitudes.
pub mul_pos_pos : (m n : ℕ) → pos m *ℤ pos n ≡ pos (m * n)
unfolding ◌*ℤ◌
mul_pos_pos m n = ground arith

pub mul_pos_negsuc : (m n : ℕ) → pos (suc m) *ℤ negsuc n ≡ negsuc (suc m * suc n - 1)
unfolding ◌*ℤ◌
mul_pos_negsuc m n = ground arith

pub mul_negsuc_pos : (m n : ℕ) → negsuc m *ℤ pos (suc n) ≡ negsuc (suc m * suc n - 1)
unfolding ◌*ℤ◌
mul_negsuc_pos m n = ground arith

pub mul_negsuc_negsuc : (m n : ℕ) → negsuc m *ℤ negsuc n ≡ pos (suc m * suc n)
unfolding ◌*ℤ◌
mul_negsuc_negsuc m n = ground arith

quot_pos_pos : (m n : ℕ) → quot (pos m) (pos (suc n)) ≡ pos (m / suc n)
unfolding quot
quot_pos_pos m n = ground arith

quot_pos_negsuc : (m n : ℕ) → quot (pos m) (negsuc n) ≡ sub_ℕ 0 (m / suc n)
unfolding quot
quot_pos_negsuc m n = ground arith

quot_negsuc_pos : (m n : ℕ) → quot (negsuc m) (pos (suc n)) ≡ sub_ℕ 0 (suc m / suc n)
unfolding quot
quot_negsuc_pos m n = ground arith

-- Which quotient decides, by the signs.
overflow_pos_pos :
    (x y : ℕ)
    → mul_overflows (pos (suc x)) (pos (suc y)) ≡ ltb_ℤ (quot max_int64 (pos (suc y))) (pos (suc x))
unfolding mul_overflows
overflow_pos_pos x y = ground arith

overflow_pos_negsuc :
    (x y : ℕ)
    → mul_overflows (pos (suc x)) (negsuc y) ≡ ltb_ℤ (negsuc y) (quot min_int64 (pos (suc x)))
unfolding mul_overflows
overflow_pos_negsuc x y = ground arith

overflow_negsuc_pos :
    (x y : ℕ)
    → mul_overflows (negsuc x) (pos (suc y)) ≡ ltb_ℤ (negsuc x) (quot min_int64 (pos (suc y)))
unfolding mul_overflows
overflow_negsuc_pos x y = ground arith

overflow_negsuc_negsuc :
    (x y : ℕ) → mul_overflows (negsuc x) (negsuc y) ≡ ltb_ℤ (negsuc y) (quot max_int64 (negsuc x))
unfolding mul_overflows
overflow_negsuc_negsuc x y = ground arith

-- The tests on a quotient `q` and a product `p`.
upper_test : (q s p : ℕ) → (q < s) ↔ (max_part < p) → ltb_ℤ (pos q) (pos s) ≡ not (in_range (pos p))
upper_test q s p h = elim (dec_lt q s) [
  | yes below ↦ let over = h.0 below in ground arith
  | no above ↦ let under : ¬ (max_part < p) = λ over. above (h.1 over) in ground arith
]

lower_test :
    (q s p : ℕ)
    → (q < suc s) ↔ (half_range < p)
    → ltb_ℤ (negsuc s) (sub_ℕ 0 q) ≡ not (in_range (negsuc (p - 1)))
lower_test q s p h = elim (dec_lt q (suc s)) [
  | yes below ↦ let over = h.0 below in ground arith
  | no above ↦ let under : ¬ (half_range < p) = λ over. above (h.1 over) in ground arith
]

both_negative_test :
    (q s p : ℕ)
    → (q < suc s) ↔ (max_part < p)
    → ltb_ℤ (negsuc s) (sub_ℕ 0 q) ≡ not (in_range (pos p))
both_negative_test q s p h = elim (dec_lt q (suc s)) [
  | yes below ↦ let over = h.0 below in ground arith
  | no above ↦ let under : ¬ (max_part < p) = λ over. above (h.1 over) in ground arith
]

-- The code's test is exact: it holds if and only if the true product is not
-- a value of int64.
pub mul_overflows_lem : (a b : ℤ) → mul_overflows a b ≡ not (in_range (a *ℤ b))
mul_overflows_lem (pos zero) b = unfold mul_overflows ◌*ℤ◌ in ground arith
mul_overflows_lem (pos (suc x)) (pos zero) = unfold mul_overflows ◌*ℤ◌ in ground arith
mul_overflows_lem (pos (suc x)) (pos (suc y)) =
    overflow_pos_pos x y
    ∙ rw (quot_pos_pos max_part y, mul_pos_pos (suc x) (suc y))
        (upper_test (max_part / suc y) (suc x) (suc x * suc y)
          (below_quotient max_part (suc y) (suc x) (omega arith)))
mul_overflows_lem (pos (suc x)) (negsuc y) =
    overflow_pos_negsuc x y
    ∙ rw (quot_negsuc_pos max_part x, mul_pos_negsuc x y, mul_comm (suc x) (suc y))
        (lower_test (half_range / suc x) y (suc y * suc x)
          (below_quotient half_range (suc x) (suc y) (omega arith)))
mul_overflows_lem (negsuc x) (pos zero) = unfold mul_overflows ◌*ℤ◌ in ground arith
mul_overflows_lem (negsuc x) (pos (suc y)) =
    overflow_negsuc_pos x y
    ∙ rw (quot_negsuc_pos max_part y, mul_negsuc_pos x y)
        (lower_test (half_range / suc y) x (suc x * suc y)
          (below_quotient half_range (suc y) (suc x) (omega arith)))
mul_overflows_lem (negsuc x) (negsuc y) =
    overflow_negsuc_negsuc x y
    ∙ rw (quot_pos_negsuc max_part x, mul_negsuc_negsuc x y, mul_comm (suc x) (suc y))
        (both_negative_test (max_part / suc x) y (suc y * suc x)
          (below_quotient max_part (suc x) (suc y) (omega arith)))
