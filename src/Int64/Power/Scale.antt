-- ===== src/Int64/Power/Scale.antt =====
-- The powers of an integer by squaring: the algebra that `intPow` rests on.
use native.Mathlib.Nat.{mul_assoc, mul_comm, pow-suc, pow-zero, mul-le-mul}
use kolang.Prelude.{
  ℕ, suc, zero, ◌-◌, ◌*◌, ◌^◌, ◌<◌, ◌≤◌, ◌≡◌, refl, dec_lt, sym, ap, arith, Bool, true, false,
  Option, none, some, ◌∙◌, if◌then◌else◌, not,
}
use kolang.Prelude.Int.{ℤ, pos, negsuc, sub_ℕ, ◌*ℤ◌}
use kolang.Int64.{half_range, InRange, in_range}
use kolang.Int64.Laws.{in_range_iff}
use kolang.Int64.Power.Overflow.{mul_pos_pos, mul_negsuc_negsuc}

-- The power of an integer, by its definition.
unfoldable pub pow : ℤ → ℕ → ℤ
pow b zero = pos 1
pow b (suc n) = pow b n *ℤ b

-- The value where it is an int64, or the overflow.
abbrev pub checked : ℤ → Option ℤ
checked x = if in_range x then some x else none

pub not-false : (x : Bool) → not x ≡ false → x ≡ true
not-false true h = refl
not-false false h = sym h

pub not-true : (x : Bool) → not x ≡ true → x ≡ false
not-true true h = sym h
not-true false h = refl

abbrev pub magnitude : ℤ → ℕ
magnitude (pos n) = n
magnitude (negsuc n) = suc n

-- A product with a natural number.
pub scale : ℤ → ℕ → ℤ
scale (pos k) n = pos (k * n)
scale (negsuc k) n = sub_ℕ 0 (suc k * n)

pub mul_scale : (a : ℤ) (n : ℕ) → a *ℤ pos n ≡ scale a n
unfolding ◌*ℤ◌ scale
mul_scale (pos k) n = ground arith
mul_scale (negsuc k) n = ground arith

scale_negsuc : (k m : ℕ) → scale (negsuc k) (suc m) ≡ negsuc (suc k * suc m - 1)
unfolding scale
scale_negsuc k m = ground arith

scale-zero : (k n : ℕ) → scale (scale (negsuc k) zero) n ≡ scale (negsuc k) (zero * n)
unfolding scale
scale-zero k n = ground arith

scale-scale : (a : ℤ) (m n : ℕ) → scale (scale a m) n ≡ scale a (m * n)
scale-scale (pos k) m n = unfold scale in ap pos (mul_assoc k m n)
scale-scale (negsuc k) zero n = scale-zero k n
scale-scale (negsuc k) (suc m) n = rw (scale_negsuc k m) after
  where
    after : scale (negsuc (suc k * suc m - 1)) n ≡ scale (negsuc k) (suc m * n)
    after =
        let whole : suc (suc k * suc m - 1) ≡ suc k * suc m = omega arith in
        unfold scale in rw whole (ap (sub_ℕ 0) (mul_assoc (suc k) (suc m) n))

pub square : (b : ℤ) → b *ℤ b ≡ pos (magnitude b * magnitude b)
unfolding ◌*ℤ◌
square (pos n) = ground arith
square (negsuc n) = ground arith

pub scale_one : (a : ℤ) → scale a 1 ≡ a
unfolding scale
scale_one (pos k) = ground arith
scale_one (negsuc k) = ground arith

pub pos-mul : (j : ℕ) (b : ℤ) → pos j *ℤ b ≡ scale b j
unfolding ◌*ℤ◌ scale
pos-mul j (pos k) = ground arith
pos-mul j (negsuc k) = ground arith

-- A factor twice is its magnitude twice.
scale-mul : (b : ℤ) (j : ℕ) → scale b j *ℤ b ≡ pos (j * (magnitude b * magnitude b))
scale-mul (pos k) j = unfold scale in mul_pos_pos (k * j) k ∙ ap pos (omega arith)
scale-mul (negsuc k) zero = unfold scale ◌*ℤ◌ in ground arith
scale-mul (negsuc k) (suc j) =
    let whole : suc (suc k * suc j - 1) ≡ suc k * suc j = omega arith in
    rw (scale_negsuc k j, mul_negsuc_negsuc, whole) (ap pos (omega arith))

mul-scale_negsuc : (x y k : ℕ) → negsuc x *ℤ scale (negsuc y) k ≡ pos (suc x * (suc y * k))
mul-scale_negsuc x y zero = unfold scale ◌*ℤ◌ in ground arith
mul-scale_negsuc x y (suc k) =
    rw (scale_negsuc y k, mul_negsuc_negsuc) (ap pos (ap (◌*◌ (suc x)) (omega arith)))

pub mul-scale : (r b : ℤ) (k : ℕ) → r *ℤ scale b k ≡ scale (r *ℤ b) k
mul-scale (pos x) b k =
    pos-mul x (scale b k)
    ∙ scale-scale b k x
    ∙ ap (scale b) (mul_comm k x)
    ∙ sym (scale-scale b x k)
    ∙ ap (λ a. scale a k) (sym (pos-mul x b))
mul-scale (negsuc x) (pos y) k =
    unfold scale in
    mul_scale (negsuc x) (y * k)
    ∙ sym (scale-scale (negsuc x) y k)
    ∙ ap (λ a. scale a k) (sym (mul_scale (negsuc x) y))
mul-scale (negsuc x) (negsuc y) k =
    mul-scale_negsuc x y k ∙ rw mul_negsuc_negsuc (unfold scale in ap pos (omega arith))

pow_twice : (b : ℤ) (n : ℕ) → pow b (suc (suc n)) ≡ pow b n *ℤ b *ℤ b
unfolding pow
pow_twice b n = refl

-- An exponent of 2 n, and one of 2 n + 1.
pub pow-even : (b : ℤ) (n : ℕ) → pow b (2 * n) ≡ pos ((magnitude b * magnitude b) ^ n)
pow-even b zero = unfold pow in rw pow-zero
pow-even b (suc n) =
    let twice : 2 * suc n ≡ suc (suc (2 * n)) = omega arith in
    rw (twice, pow_twice b (2 * n), pow-even b n, pos-mul, scale-mul, pow-suc)

pub pow-odd : (b : ℤ) (n : ℕ) → pow b (suc (2 * n)) ≡ scale b ((magnitude b * magnitude b) ^ n)
pow-odd b n = unfold pow in rw (pow-even b n, pos-mul)

-- What leaves the range stays outside under a larger magnitude.
pub out_of_magnitude : (x : ℤ) → half_range < magnitude x → in_range x ≡ false
out_of_magnitude (pos n) h = ground arith
out_of_magnitude (negsuc n) h = ground arith

pub out-scale : (x : ℤ) (k : ℕ) → in_range x ≡ false → 0 < k → in_range (scale x k) ≡ false
out-scale (pos n) zero out h = absurd (omega arith)
out-scale (pos n) (suc k) out h =
    let grows : n ≤ n * suc k = omega arith in unfold scale in ground arith
out-scale (negsuc n) zero out h = absurd (omega arith)
out-scale (negsuc n) (suc k) out h =
    let grows : suc n ≤ suc n * suc k = omega arith in rw (scale_negsuc n k) (ground arith)

-- No square is 2 ^ 63, so a square outside the range is larger.
pub square_gap : (m : ℕ) → half_range ≤ m * m → half_range < m * m
square_gap m h = elim (dec_lt m 3_037_000_500) [
  | yes small ↦
      let bound : m * m ≤ 3_037_000_499 * 3_037_000_499 =
        mul-le-mul {n₂ = 3_037_000_499} {m₂ = 3_037_000_499} (omega arith) (omega arith) in
      absurd (omega arith)
  | no large ↦
      let bound : 3_037_000_500 * 3_037_000_500 ≤ m * m =
        mul-le-mul {n₁ = 3_037_000_500} {m₁ = 3_037_000_500} (omega arith) (omega arith) in
      omega arith
]

pub magnitude-scale : (a : ℤ) (n : ℕ) → magnitude (scale a n) ≡ magnitude a * n
magnitude-scale (pos k) n = unfold scale in refl
magnitude-scale (negsuc k) zero = unfold scale in ground arith
magnitude-scale (negsuc k) (suc n) = rw (scale_negsuc k n) (omega arith)

pub pos_power : (m n : ℕ) → 0 < m → 0 < m ^ n
pos_power m zero h = rw pow-zero (omega arith)
pos_power m (suc n) h = let ih = pos_power m n h in rw pow-suc (grind arith)

pub le_power : (m n : ℕ) → 0 < m → 0 < n → m ≤ m ^ n
le_power m zero h k = absurd (omega arith)
le_power m (suc n) h k = let ih = pos_power m n h in rw pow-suc (grind arith)

pub checked_in : (x : ℤ) → InRange x → checked x ≡ some x
checked_in x h = rw ((in_range_iff x).1 h)

pub checked_out : (x : ℤ) → in_range x ≡ false → checked x ≡ none
checked_out x h = rw h
