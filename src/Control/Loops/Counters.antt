-- ===== src/Control/Loops/Counters.antt =====
-- The counters of a range are those of its arithmetic progression, where no counter overflows.
use kolang.Prelude.{
  ℕ, zero, suc, ◌+◌, ◌-◌, ◌<◌, List, [], ◌∷◌, some, true, false, ◌≡◌, refl, arith, Bool-cases, inl,
  inr,
}
use kolang.Prelude.Int.{ℤ, pos, negsuc, pos_part, neg_part, ◌+ℤ◌}
use kolang.Int64.{add64, InRange}
use kolang.Int64.Laws.{wrap_exact}
use kolang.Control.Loops.{goes_on, values_from}

-- `i`, `i + step`, and so on, without any wrap-around: the first n, and the one behind them.
abbrev pub progression : ℤ → ℤ → ℕ → List ℤ
progression i step zero = []
progression i step (suc n) = i ∷ progression (i +ℤ step) step n

abbrev pub counter_at : ℤ → ℤ → ℕ → ℤ
counter_at i step zero = i
counter_at i step (suc n) = counter_at (i +ℤ step) step n

-- The progression ends exactly where the range does.
abbrev pub IsCut : (step end i : ℤ) → ℕ → Type 0
IsCut step end i n =
    ((m : ℕ) → m < n → goes_on step end (counter_at i step m) ≡ true)
    × (goes_on step end (counter_at i step n) ≡ false)

-- How far the end is, in the direction of the step.
abbrev pub gap : ℤ → ℤ → ℤ → ℕ
gap (pos k) end i = pos_part end + neg_part i - (pos_part i + neg_part end)
gap (negsuc k) end i = pos_part i + neg_part end - (pos_part end + neg_part i)

pub next-InRange :
    (step end i : ℤ)
    → InRange i
    → InRange (end +ℤ step)
    → goes_on step end i ≡ true
    → InRange (i +ℤ step)
unfolding ◌+ℤ◌
next-InRange (pos k) (pos e) (pos i) h l g = ground arith
next-InRange (pos k) (pos e) (negsuc i) h l g = ground arith
next-InRange (pos k) (negsuc e) (pos i) h l g = ground arith
next-InRange (pos k) (negsuc e) (negsuc i) h l g = ground arith
next-InRange (negsuc k) (pos e) (pos i) h l g = ground arith
next-InRange (negsuc k) (pos e) (negsuc i) h l g = ground arith
next-InRange (negsuc k) (negsuc e) (pos i) h l g = ground arith
next-InRange (negsuc k) (negsuc e) (negsuc i) h l g = ground arith

pub gap_shrinks :
    (step end i : ℤ) → goes_on step end i ≡ true → gap step end (i +ℤ step) < gap step end i
unfolding ◌+ℤ◌
gap_shrinks (pos k) (pos e) (pos i) g = ground arith
gap_shrinks (pos k) (pos e) (negsuc i) g = ground arith
gap_shrinks (pos k) (negsuc e) (pos i) g = ground arith
gap_shrinks (pos k) (negsuc e) (negsuc i) g = ground arith
gap_shrinks (negsuc k) (pos e) (pos i) g = ground arith
gap_shrinks (negsuc k) (pos e) (negsuc i) g = ground arith
gap_shrinks (negsuc k) (negsuc e) (pos i) g = ground arith
gap_shrinks (negsuc k) (negsuc e) (negsuc i) g = ground arith

-- The values of a range, given fuel.
abbrev pub Counts : ℕ → (step end i : ℤ) → Type 0
Counts fuel step end i =
    (n : ℕ) × (values_from fuel step end i ≡ some (progression i step n)) × IsCut step end i n

Counts-more :
    (fuel : ℕ) (step end i : ℤ)
    → InRange i
    → InRange (end +ℤ step)
    → goes_on step end i ≡ true
    → Counts fuel step end (i +ℤ step)
    → Counts (suc fuel) step end i
Counts-more fuel step end i h l g (n, found, (below, cut)) =
    let next : add64 i step ≡ i +ℤ step =
      unfold add64 in wrap_exact (i +ℤ step) (next-InRange step end i h l g) in
    (suc n, unfold values_from in rw (g, next, found) refl, (first, cut))
  where
    first : (m : ℕ) → m < suc n → goes_on step end (counter_at i step m) ≡ true
    first zero k = g
    first (suc m) k = below m (omega arith)

-- Let the start be an int64, and let the end have room for one step more. Then with more fuel than
-- the distance the values of a range are the members of the progression up to the first that
-- leaves the range, for steps of either sign, and for none at all.
pub values_from_lem :
    (fuel : ℕ) (step end i : ℤ)
    → InRange i
    → InRange (end +ℤ step)
    → gap step end i < fuel
    → Counts fuel step end i
values_from_lem zero step end i h l enough = absurd (omega arith)
values_from_lem (suc fuel) step end i h l enough = elim (Bool-cases (goes_on step end i)) [
  | inl g ↦ Counts-more fuel step end i h l g (
      values_from_lem fuel step end (i +ℤ step) (next-InRange step end i h l g) l
        (omega (arith, gap_shrinks step end i g)))
  | inr f ↦ (zero, unfold values_from in rw f refl, ((λ m k. absurd (omega arith)), f))
]
