-- ===== src/Slices/Bounds.antt =====
-- The bounds of a slice lie in the sequence, or one place beyond it in the direction of the step.
use kolang.Prelude.{ℕ, zero, suc, ◌<◌, ◌≤◌, ◌≡◌, arith, Option, none, some, false}
use kolang.Prelude.Int.{ℤ, pos, negsuc, pos_part, neg_part, ◌+ℤ◌, ◌≤ℤ◌}
use kolang.Int64.{half_range, InRange, add64}
use kolang.Int64.Laws.{wrap_exact}
use kolang.Slices.{last_of, clamp_slice_idx, low_bound, high_bound, is_zero}

-- From 0 to n for a step that is not negative, and from -1 to n - 1 for a negative one.
abbrev pub IsBound : ℤ → ℕ → ℤ → Type 0
IsBound (pos k) n b = (neg_part b ≡ 0) × (pos_part b ≤ n)
IsBound (negsuc k) n b = (neg_part b ≤ 1) × (b ≤ℤ last_of n)

-- A negative index and a length do not overflow.
from_end :
    (k n : ℕ) → k < half_range → n < half_range → add64 (negsuc k) (pos n) ≡ negsuc k +ℤ pos n
from_end k n h l = unfold add64 in wrap_exact (negsuc k +ℤ pos n) (unfold ◌+ℤ◌ in ground arith)

clamp-IsBound :
    (step i : ℤ) (n : ℕ) → InRange i → n < half_range → IsBound step n (clamp_slice_idx i n step)
clamp-IsBound (pos k) (pos i) n h l = unfold clamp_slice_idx in ground arith
clamp-IsBound (negsuc k) (pos i) zero h l = unfold clamp_slice_idx in ground arith
clamp-IsBound (negsuc k) (pos i) (suc n) h l = unfold clamp_slice_idx in ground arith
clamp-IsBound (pos k) (negsuc i) n h l =
    unfold clamp_slice_idx in rw (from_end i n (omega arith) l) (unfold ◌+ℤ◌ in ground arith)
clamp-IsBound (negsuc k) (negsuc i) zero h l =
    unfold clamp_slice_idx in rw (from_end i zero (omega arith) l) (unfold ◌+ℤ◌ in ground arith)
clamp-IsBound (negsuc k) (negsuc i) (suc n) h l =
    unfold clamp_slice_idx in rw (from_end i (suc n) (omega arith) l) (unfold ◌+ℤ◌ in ground arith)

-- A bound that is set is an int64.
abbrev pub IsInt64 : Option ℤ → Type 0
IsInt64 none = Unit
IsInt64 (some i) = InRange i

pub low_bound-IsBound :
    (step : ℤ) (low : Option ℤ) (n : ℕ)
    → is_zero step ≡ false
    → IsInt64 low
    → n < half_range
    → IsBound step n (low_bound low n step)
low_bound-IsBound step (some low) n z h l = unfold low_bound in clamp-IsBound step low n h l
low_bound-IsBound (pos k) none zero z h l = unfold low_bound in ground arith
low_bound-IsBound (pos k) none (suc n) z h l = unfold low_bound in ground arith
low_bound-IsBound (negsuc k) none zero z h l = unfold low_bound in ground arith
low_bound-IsBound (negsuc k) none (suc n) z h l = unfold low_bound in ground arith

pub high_bound-IsBound :
    (step : ℤ) (high : Option ℤ) (n : ℕ)
    → is_zero step ≡ false
    → IsInt64 high
    → n < half_range
    → IsBound step n (high_bound high n step)
high_bound-IsBound step (some high) n z h l = unfold high_bound in clamp-IsBound step high n h l
high_bound-IsBound (pos k) none zero z h l = unfold high_bound in ground arith
high_bound-IsBound (pos k) none (suc n) z h l = unfold high_bound in ground arith
high_bound-IsBound (negsuc k) none zero z h l = unfold high_bound in ground arith
high_bound-IsBound (negsuc k) none (suc n) z h l = unfold high_bound in ground arith
