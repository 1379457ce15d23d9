-- ===== src/Slices.antt =====
-- internal/eval/eval_members.go: `evalSlice` and what it uses.
pub mod Bounds
pub mod Elements
use kolang.Prelude.{
  ℕ, zero, suc, ◌==◌, ◌-◌, ◌<◌, List, [], ◌∷◌, Option, none, some, Bool, true, false, if◌then◌else◌,
  length, get_elem?, not, ltb,
}
use mathlib.Core.Option.{map}
use kolang.Prelude.Int.{ℤ, pos, negsuc, ltb_ℤ}
use kolang.Int64.{add64}
use kolang.Control.Loops.{goes_on}

abbrev pub is_zero : ℤ → Bool
is_zero (pos k) = k == 0
is_zero (negsuc k) = false

-- `n - 1`, of a length.
abbrev pub last_of : ℕ → ℤ
last_of zero = negsuc 0
last_of (suc n) = pos n

-- `clampSliceIdx`.
unfoldable pub clamp_slice_idx : ℤ → ℕ → ℤ → ℤ
unfolding add64
clamp_slice_idx i n step =
    if ltb_ℤ i (pos 0)
    then if ltb_ℤ (add64 i (pos n)) (pos 0)
      then (if ltb_ℤ step (pos 0) then negsuc 0 else pos 0)
      else add64 i (pos n)
    else if ltb_ℤ i (pos n)
    then i
    else if ltb_ℤ step (pos 0)
    then last_of n
    else pos n

-- `sliceBounds`: a bound that is not set is `none`.
unfoldable pub low_bound : Option ℤ → ℕ → ℤ → ℤ
unfolding clamp_slice_idx
low_bound (some low) n step = clamp_slice_idx low n step
low_bound none n step = if ltb_ℤ (pos 0) step then pos 0 else last_of n

unfoldable pub high_bound : Option ℤ → ℕ → ℤ → ℤ
unfolding clamp_slice_idx
high_bound (some high) n step = clamp_slice_idx high n step
high_bound none n step = if ltb_ℤ (pos 0) step then pos n else negsuc 0

-- `vals[i]`, which panics where it is out of range.
abbrev pub nth {ℓ} : {A : Type ℓ} → List A → ℤ → Option A
nth vals (pos k) = get_elem? vals k
nth vals (negsuc k) = none

-- The elements, the raised value error, or a panic.
pub data Sliced {ℓ} (A : Type ℓ) : Type ℓ where
  values : List A → Sliced A
  zero_step : Sliced A
  panic : Sliced A

-- The loop, from the counter `i` on, on fuel. The tests of its two forms are those of a range.
abbrev pub keep {ℓ} : {A : Type ℓ} → Option A → Option (Sliced A) → Option (Sliced A)
keep none rest = some panic
keep (some v) none = none
keep (some v) (some panic) = some panic
keep (some v) (some zero_step) = some zero_step
keep (some v) (some (values vs)) = some (values (v ∷ vs))

unfoldable pub slice_from {ℓ} : {A : Type ℓ} → ℕ → (step hi : ℤ) → List A → ℤ → Option (Sliced A)
unfolding add64
slice_from zero step hi vals i = none
slice_from (suc fuel) step hi vals i =
    let rest = slice_from fuel step hi vals (add64 i step) in
    if goes_on step hi i then keep (nth vals i) rest else some (values [])

-- `evalSlice` behind the evaluation of its parts, of a list or of the runes of a text. `none` is a
-- loop that is longer than the fuel, of one unit more than the length.
unfoldable pub slice {ℓ} :
    {A : Type ℓ} → List A → (low high : Option ℤ) → (step : ℤ) → Option (Sliced A)
unfolding slice_from low_bound high_bound
slice vals low high step =
    if is_zero step
    then some zero_step
    else slice_from (suc (length vals)) step (high_bound high (length vals) step) vals
        (low_bound low (length vals) step)
