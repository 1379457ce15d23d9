-- ===== src/Tests/Numbers.antt =====
-- Numbers, ranges and slices.
use kolang.Prelude.{ℕ, ◌≡◌, refl, List, [], ◌∷◌, none, some, not, arith}
use kolang.Prelude.Int.{pos, negsuc, ◌*ℤ◌, ◌+ℤ◌}
use kolang.Int64.{in_range, quot}
use kolang.Int64.Power.{int_pow, mul_overflows}
use kolang.Int64.Power.Scale.{pow, checked}
use kolang.Int64.Power.Exact.{int_pow_lem}
use kolang.Int64.Power.Overflow.{mul_overflows_lem}
use kolang.Control.Loops.Counters.{Counts, values_from_lem}
use kolang.Slices.{slice, values, panic, low_bound, high_bound}
use kolang.Slices.Elements.{Elements, slice_lem}

int_pow_run : int_pow (negsuc 2) 5 ≡ some (negsuc 242)
unfolding int_pow quot
int_pow_run = refl

int_pow_over : int_pow (pos 2) 63 ≡ none
unfolding int_pow quot
int_pow_over = refl

int_pow_example : int_pow (negsuc 2) 5 ≡ checked (pow (negsuc 2) 5)
int_pow_example = int_pow_lem (negsuc 2) 5 (omega arith, omega arith) (omega arith)

mul_overflows_example : mul_overflows (negsuc 2) (pos 4) ≡ not (in_range (negsuc 2 *ℤ pos 4))
mul_overflows_example = mul_overflows_lem (negsuc 2) (pos 4)

abbrev letters : List ℕ
letters = 10 ∷ 11 ∷ 12 ∷ 13 ∷ []

-- All of a sequence backwards, with the bounds left out.
backwards : slice letters none none (negsuc 0) ≡ some (values (13 ∷ 12 ∷ 11 ∷ 10 ∷ []))
unfolding slice
backwards = refl

-- A step as large as an int64 can be wraps the counter around, and the next index is negative.
overflow : slice letters (some (pos 1)) (some (pos 3)) (pos 0x7FFF_FFFF_FFFF_FFFF) ≡ some panic
unfolding slice
overflow = refl

slice_example :
    Elements letters
      (pos 2)
      (high_bound none 4 (pos 2))
      (low_bound (some (negsuc 2)) 4 (pos 2))
      (slice letters (some (negsuc 2)) none (pos 2))
unfolding high_bound
slice_example =
    slice_lem letters (some (negsuc 2)) none (pos 2) (omega arith) (omega arith, omega arith) tt
      refl (unfold ◌+ℤ◌ in (omega arith, omega arith))

values_from_example : Counts 20 (negsuc 2) (pos 1) (pos 10)
values_from_example =
    values_from_lem 20 (negsuc 2) (pos 1) (pos 10) (omega arith, omega arith)
      (unfold ◌+ℤ◌ in (omega arith, omega arith)) (omega arith)
