-- ===== src/Slices/Elements.antt =====
-- A slice has the elements at its counters, and no index leaves the sequence.
use kolang.Prelude.{
  ℕ, zero, suc, ◌<◌, ◌≤◌, ◌≡◌, refl, arith, Option, some, true, false, List, [], ◌∷◌, map, length,
  get_elem?, Bool-cases, inl, inr,
}
use kolang.Prelude.Int.{ℤ, pos, negsuc, pos_part, neg_part, ◌+ℤ◌, ◌≤ℤ◌}
use kolang.Int64.{half_range, InRange, add64}
use kolang.Int64.Laws.{wrap_exact}
use kolang.Control.Loops.{goes_on}
use kolang.Control.Loops.Counters.{progression, counter_at, IsCut, gap, next-InRange, gap_shrinks}
use kolang.Slices.{last_of, low_bound, high_bound, nth, Sliced, values, slice_from, slice, is_zero}
use kolang.Slices.Bounds.{IsBound, IsInt64, low_bound-IsBound, high_bound-IsBound}

-- The counter is not behind the end that the step moves away from, and the end of the loop keeps
-- it from the other one.
abbrev Inside : ℤ → ℕ → ℤ → ℤ → Type 0
Inside (pos k) n hi i = (neg_part i ≡ 0) × (pos_part hi ≤ n)
Inside (negsuc k) n hi i = (i ≤ℤ last_of n) × (neg_part hi ≤ 1)

Inside-bounds :
    (step lo hi : ℤ) (n : ℕ) → IsBound step n lo → IsBound step n hi → Inside step n hi lo
Inside-bounds (pos k) lo hi n h l = (h.0, l.1)
Inside-bounds (negsuc k) lo hi n h l = (h.1, l.0)

Inside-step :
    (step hi i : ℤ) (n : ℕ)
    → goes_on step hi i ≡ true
    → Inside step n hi i
    → Inside step n hi (i +ℤ step)
unfolding ◌+ℤ◌
Inside-step (pos k) hi (pos i) n g h = ground arith
Inside-step (pos k) hi (negsuc i) n g h = ground arith
Inside-step (negsuc k) hi (pos i) zero g h = ground arith
Inside-step (negsuc k) hi (negsuc i) zero g h = ground arith
Inside-step (negsuc k) hi (pos i) (suc n) g h = ground arith
Inside-step (negsuc k) hi (negsuc i) (suc n) g h = ground arith

get_elem?_found {ℓ} :
    {A : Type ℓ} (vals : List A) (i : ℕ) → i < length vals → (v : A) × (get_elem? vals i ≡ some v)
get_elem?_found [] i h = absurd (omega arith)
get_elem?_found (x ∷ xs) zero h = (x, refl)
get_elem?_found (x ∷ xs) (suc i) h = get_elem?_found xs i (omega arith)

below_last : (i n : ℕ) → pos i ≤ℤ last_of n → i < n
below_last i zero h = absurd (omega arith)
below_last i (suc n) h = omega arith

nth_found {ℓ} :
    {A : Type ℓ} (vals : List A) (step hi i : ℤ)
    → goes_on step hi i ≡ true
    → Inside step (length vals) hi i
    → (v : A) × (nth vals i ≡ some v)
nth_found vals (pos k) (pos e) (pos i) g h = get_elem?_found vals i (ground arith)
nth_found vals (pos k) (negsuc e) (pos i) g h = absurd (ground arith)
nth_found vals (pos k) hi (negsuc i) g h = absurd (omega arith)
nth_found vals (negsuc k) hi (pos i) g h = get_elem?_found vals i (below_last i (length vals) h.0)
nth_found vals (negsuc k) (pos e) (negsuc i) g h = absurd (ground arith)
nth_found vals (negsuc k) (negsuc e) (negsuc i) g h = absurd (ground arith)

-- What a slice loop gives with enough fuel: one element for each counter, and the counters are
-- those of the progression that stay before the end.
abbrev pub Elements {ℓ} : {A : Type ℓ} → List A → (step hi i : ℤ) → Option (Sliced A) → Type ℓ
Elements {A = A} vals step hi i o =
    (out : List A) × (m : ℕ) × (o ≡ some (values out))
    × (map some out ≡ map (nth vals) (progression i step m))
    × IsCut step hi i m

slice_from_more {ℓ} :
    {A : Type ℓ} (fuel : ℕ) (step hi i : ℤ) (vals : List A) (v : A)
    → goes_on step hi i ≡ true
    → nth vals i ≡ some v
    → add64 i step ≡ i +ℤ step
    → Elements vals step hi (i +ℤ step) (slice_from fuel step hi vals (i +ℤ step))
    → Elements vals step hi i (slice_from (suc fuel) step hi vals i)
slice_from_more fuel step hi i vals v g at next (out, m, ran, same, (below, cut)) =
    (v ∷ out, suc m, unfold slice_from in rw (g, next, at, ran) refl, rw (at, same), (first, cut))
  where
    first : (j : ℕ) → j < suc m → goes_on step hi (counter_at i step j) ≡ true
    first zero k = g
    first (suc j) k = below j (omega arith)

slice_from_lem {ℓ} :
    {A : Type ℓ} (fuel : ℕ) (step hi i : ℤ) (vals : List A)
    → InRange i
    → InRange (hi +ℤ step)
    → Inside step (length vals) hi i
    → gap step hi i < fuel
    → Elements vals step hi i (slice_from fuel step hi vals i)
slice_from_lem zero step hi i vals h l inside enough = absurd (omega arith)
slice_from_lem (suc fuel) step hi i vals h l inside enough = elim (Bool-cases (goes_on step hi i)) [
  | inl g ↦
      let v = nth_found vals step hi i g inside in
      let stays : InRange (i +ℤ step) = next-InRange step hi i h l g in
      slice_from_more fuel step hi i vals v.0 g v.1 (exact i step stays) (
        slice_from_lem fuel step hi (i +ℤ step) vals stays l
          (Inside-step step hi i (length vals) g inside) (omega (arith, gap_shrinks step hi i g)))
  | inr f ↦ ([], zero, unfold slice_from in rw f refl, refl, ((λ m k. absurd (omega arith)), f))
]
  where
    exact : (i step : ℤ) → InRange (i +ℤ step) → add64 i step ≡ i +ℤ step
    exact i step h = unfold add64 in wrap_exact (i +ℤ step) h

gap-length :
    (step lo hi : ℤ) (n : ℕ) → IsBound step n lo → IsBound step n hi → gap step hi lo < suc n
gap-length (pos k) lo hi n h l = omega arith
gap-length (negsuc k) lo hi zero h l = omega arith
gap-length (negsuc k) lo hi (suc n) h l = omega arith

bound-InRange : (step b : ℤ) (n : ℕ) → n < half_range → IsBound step n b → InRange b
bound-InRange (pos k) b n l h = omega arith
bound-InRange (negsuc k) b zero l h = omega arith
bound-InRange (negsuc k) b (suc n) l h = omega arith

-- A slice with a step other than zero, of a sequence with bounds that are int64 where they are
-- set, ends within the fuel and never panics: it gives one element for each member of the
-- progression from the low bound up to the high one, the element at that place. The high bound
-- is to have room for one step more, as the counter otherwise overflows.
pub slice_lem {ℓ} :
    {A : Type ℓ} (vals : List A) (low high : Option ℤ) (step : ℤ)
    → length vals < half_range
    → IsInt64 low
    → IsInt64 high
    → is_zero step ≡ false
    → InRange (high_bound high (length vals) step +ℤ step)
    → Elements vals step
        (high_bound high (length vals) step)
        (low_bound low (length vals) step)
        (slice vals low high step)
slice_lem vals low high step short low_in high_in nonzero room =
    let n = length vals in
    let lo = low_bound low n step in
    let hi = high_bound high n step in
    let lo_ok = low_bound-IsBound step low n nonzero low_in short in
    let hi_ok = high_bound-IsBound step high n nonzero high_in short in
    unfold slice in
    rw nonzero (
      slice_from_lem (suc n) step hi lo vals (bound-InRange step lo n short lo_ok) room
        (Inside-bounds step lo hi n lo_ok hi_ok) (gap-length step lo hi n lo_ok hi_ok))
