-- ===== src/Int64/Power/Exact.antt =====
-- `intPow` is exact: the power where it is a value of int64, and the error where it is not.
use mathlib.Core.Path.{subst}
use native.Mathlib.Nat.{pow-suc, pow-zero}
use kolang.Prelude.{
  ℕ, suc, zero, ◌*◌, ◌/◌, ◌%◌, ◌^◌, ◌<◌, ◌≤◌, ◌≡◌, sym, ap, arith, true, false, Option, none, some,
  ◌∙◌, ◌==◌, if◌then◌else◌, if_split, not, ==_iff,
}
use kolang.Prelude.Int.{ℤ, pos, negsuc, ◌*ℤ◌}
use kolang.Int64.{half_range, full_range, InRange, in_range, mul64}
use kolang.Int64.Laws.{wrap_exact, in_range_iff}
use kolang.Int64.Power.{mul_overflows, take_bit, square_on, pow_loop, int_pow, ◌>>=◌}
use kolang.Int64.Power.Overflow.{mul_overflows_lem, mul_pos_pos}
use kolang.Int64.Power.Scale.{
  pow, checked, not-false, not-true, magnitude, scale, mul_scale, square, scale_one, pos-mul,
  mul-scale, pow-even, pow-odd, out_of_magnitude, out-scale, square_gap, magnitude-scale, pos_power,
  le_power, checked_in, checked_out,
}

-- The accumulator is not zero while the base is not.
abbrev Alive : ℤ → ℤ → Type 0
Alive r b = 0 < magnitude b → 0 < magnitude r

-- What a loop with the given fuel computes.
abbrev Rounds : ℕ → (ℤ → ℤ → ℕ → Option ℤ) → Type 0
Rounds fuel again =
    (r b : ℤ) (e : ℕ)
    → InRange r
    → InRange b
    → Alive r b
    → e < 2 ^ fuel
    → again r b e ≡ checked (r *ℤ pow b e)

abbrev sq : ℤ → ℕ
sq b = magnitude b * magnitude b

exact_mul64 : (a b : ℤ) → mul_overflows a b ≡ false → (mul64 a b ≡ a *ℤ b) × InRange (a *ℤ b)
exact_mul64 a b h =
    let told : mul_overflows a b ≡ not (in_range (a *ℤ b)) = mul_overflows_lem a b in
    let inside : in_range (a *ℤ b) ≡ true = not-false (in_range (a *ℤ b)) (sym told ∙ h) in
    let within : InRange (a *ℤ b) = (in_range_iff (a *ℤ b)).0 inside in
    (unfold mul64 in wrap_exact (a *ℤ b) within, within)

outside_mul : (a b : ℤ) → mul_overflows a b ≡ true → in_range (a *ℤ b) ≡ false
outside_mul a b h =
    let told : mul_overflows a b ≡ not (in_range (a *ℤ b)) = mul_overflows_lem a b in
    not-true (in_range (a *ℤ b)) (sym told ∙ h)

pow-pos : (m n : ℕ) → pow (pos m) n ≡ pos (m ^ n)
unfolding pow
pow-pos m zero = rw pow-zero
pow-pos m (suc n) = rw (pow-pos m n, mul_pos_pos, pow-suc)

-- An overflow of the square shows in every later result.
square_out :
    (r b : ℤ) (n : ℕ)
    → Alive r b
    → 0 < n
    → mul_overflows b b ≡ true
    → in_range (scale r (sq b ^ n)) ≡ false
square_out r b n alive some_left over =
    let gone : in_range (pos (sq b)) ≡ false =
      ap in_range (sym (square b)) ∙ outside_mul b b over in
    let large : half_range < sq b = square_gap (magnitude b) (above (sq b) gone) in
    let base : 0 < magnitude b = positive (magnitude b) large in
    let grows : sq b ≤ sq b ^ n = le_power (sq b) n (omega arith) some_left in
    out_of_magnitude (scale r (sq b ^ n)) (
      rw (magnitude-scale r (sq b ^ n)) (widen (magnitude r) (sq b ^ n) (alive base) (omega arith)))
  where
    above : (m : ℕ) → in_range (pos m) ≡ false → half_range ≤ m
    above m h = ground arith

    positive : (m : ℕ) → half_range < m * m → 0 < m
    positive zero h = absurd (omega arith)
    positive (suc m) h = omega arith

    widen : (m n : ℕ) → 0 < m → half_range < n → half_range < m * n
    widen zero n h k = absurd (omega arith)
    widen (suc m) n h k = omega arith

tail :
    (fuel : ℕ) (r b : ℤ) (n : ℕ)
    → Rounds fuel (pow_loop fuel)
    → InRange r
    → InRange b
    → Alive r b
    → n < 2 ^ fuel
    → square_on (pow_loop fuel) b n r ≡ checked (scale r (sq b ^ n))
tail fuel r b n rounds r_in b_in alive few =
    unfold square_on in
    if_split (λ o. o ≡ checked (scale r (sq b ^ n))) (n == 0) _ _
      (λ done.
        let over : n ≡ 0 = (==_iff n 0).0 done in
        rw (over, pow-zero, scale_one) (sym (checked_in r r_in)))
      (λ left.
        if_split (λ o. o ≡ checked (scale r (sq b ^ n))) (mul_overflows b b) _ _
          (λ over.
            sym (checked_out (scale r (sq b ^ n)) (square_out r b n alive (unequal n left) over)))
          (λ fits. onward (exact_mul64 b b fits)))
  where
    root : (m : ℕ) → 0 < m * m → 0 < m
    root zero h = absurd (omega arith)
    root (suc m) h = omega arith

    unequal : (m : ℕ) → (m == 0) ≡ false → 0 < m
    unequal m h = ground arith

    onward :
        (mul64 b b ≡ b *ℤ b) × InRange (b *ℤ b)
        → pow_loop fuel r (mul64 b b) n ≡ checked (scale r (sq b ^ n))
    onward (same, fits) =
        let squared : mul64 b b ≡ pos (sq b) = same ∙ square b in
        let fits' : InRange (pos (sq b)) = subst InRange (square b) fits in
        rw squared (
          rounds r (pos (sq b)) n r_in fits' (λ h. alive (root (magnitude b) h)) few
          ∙ rw (pow-pos (sq b) n, mul_scale))

magnitude-mul : (a b : ℤ) → magnitude (a *ℤ b) ≡ magnitude a * magnitude b
unfolding ◌*ℤ◌
magnitude-mul (pos x) (pos y) = ground arith
magnitude-mul (pos x) (negsuc y) = ground arith
magnitude-mul (negsuc x) (pos y) = ground arith
magnitude-mul (negsuc x) (negsuc y) = ground arith

mul_pos_nat : (m n : ℕ) → 0 < m → 0 < n → 0 < m * n
mul_pos_nat zero n h k = absurd (omega arith)
mul_pos_nat (suc m) n h k = omega arith

Alive-mul : (r b : ℤ) → Alive r b → Alive (r *ℤ b) b
Alive-mul r b alive h = rw (magnitude-mul r b) (mul_pos_nat (magnitude r) (magnitude b) (alive h) h)

zero_in : (r b : ℤ) → in_range (r *ℤ b) ≡ false → 0 < magnitude b
zero_in (pos x) (pos zero) h = absurd (unfold ◌*ℤ◌ in ground arith)
zero_in (negsuc x) (pos zero) h = absurd (unfold ◌*ℤ◌ in ground arith)
zero_in r (pos (suc y)) h = omega arith
zero_in r (negsuc y) h = omega arith

even : (r b : ℤ) (n : ℕ) → scale r (sq b ^ n) ≡ r *ℤ pow b (2 * n)
even r b n = rw (pow-even b n, mul_scale)

odd : (r b : ℤ) (n : ℕ) → scale (r *ℤ b) (sq b ^ n) ≡ r *ℤ pow b (suc (2 * n))
odd r b n = rw (pow-odd b n, mul-scale)

-- A round of the loop, at an exponent of 2 n, and of 2 n + 1.
odd_round :
    (fuel : ℕ) (r b : ℤ) (n : ℕ)
    → Rounds fuel (pow_loop fuel)
    → InRange r
    → InRange b
    → Alive r b
    → n < 2 ^ fuel
    → ((if mul_overflows r b then none else some (mul64 r b)) >>= square_on (pow_loop fuel) b n)
      ≡ checked (r *ℤ pow b (suc (2 * n)))
odd_round fuel r b n rounds r_in b_in alive few =
    if_split (λ o. (o >>= square_on (pow_loop fuel) b n) ≡ checked (r *ℤ pow b (suc (2 * n))))
      (mul_overflows r b) none _
      (λ over. sym (checked_out (r *ℤ pow b (suc (2 * n))) (lost (outside_mul r b over))))
      (λ fits. on (exact_mul64 r b fits))
  where
    lost : in_range (r *ℤ b) ≡ false → in_range (r *ℤ pow b (suc (2 * n))) ≡ false
    lost gone =
        let base : 0 < magnitude b = zero_in r b gone in
        let some_left : 0 < sq b ^ n =
          pos_power (sq b) n (mul_pos_nat (magnitude b) (magnitude b) base base) in
        ap in_range (sym (odd r b n)) ∙ out-scale (r *ℤ b) (sq b ^ n) gone some_left

    on :
        (mul64 r b ≡ r *ℤ b) × InRange (r *ℤ b)
        → square_on (pow_loop fuel) b n (mul64 r b) ≡ checked (r *ℤ pow b (suc (2 * n)))
    on (same, fits) =
        rw same (
          tail fuel (r *ℤ b) b n rounds fits b_in (Alive-mul r b alive) few
          ∙ ap checked (odd r b n))

pow_one : (r b : ℤ) → InRange r → some r ≡ checked (r *ℤ pow b zero)
pow_one r b r_in = unfold pow in rw (mul_scale r 1, scale_one) (sym (checked_in r r_in))

half : (e : ℕ) → (e % 2 ≡ 1) → e ≡ suc (2 * (e / 2))
half e h = omega arith

even_half : (e : ℕ) → (e % 2 == 1) ≡ false → e ≡ 2 * (e / 2)
even_half e h = ground arith

half_few : (e fuel : ℕ) → e < 2 ^ suc fuel → e / 2 < 2 ^ fuel
half_few e fuel h = let double : 2 ^ suc fuel ≡ 2 ^ fuel * 2 = pow-suc 2 fuel in omega arith

round : (fuel : ℕ) → Rounds fuel (pow_loop fuel) → Rounds (suc fuel) (pow_loop (suc fuel))
round fuel again r b e r_in b_in alive few =
    let few' : e / 2 < 2 ^ fuel = half_few e fuel few in
    unfold pow_loop in
    if_split (λ o. o ≡ checked (r *ℤ pow b e)) (e == 0) _ _
      (λ done. let over : e ≡ 0 = (==_iff e 0).0 done in rw over (pow_one r b r_in))
      (λ left.
        unfold take_bit in
        if_split (λ o. (o >>= square_on (pow_loop fuel) b (e / 2)) ≡ checked (r *ℤ pow b e))
          (e % 2 == 1) _ (some r)
          (λ set.
            odd_round fuel r b (e / 2) again r_in b_in alive few'
            ∙ ap (λ n. checked (r *ℤ pow b n)) (sym (half e ((==_iff (e % 2) 1).0 set))))
          (λ clear.
            tail fuel r b (e / 2) again r_in b_in alive few'
            ∙ ap checked (even r b (e / 2))
            ∙ ap (λ n. checked (r *ℤ pow b n)) (sym (even_half e clear))))

ended : Rounds zero (pow_loop zero)
ended r b e r_in b_in alive few =
    let done : e ≡ 0 = none_left e few in unfold pow_loop in rw done (pow_one r b r_in)
  where
    none_left : (e : ℕ) → e < 2 ^ 0 → e ≡ 0
    none_left e h = let one : 2 ^ 0 ≡ 1 = pow-zero 2 in omega arith

pow_loop-Rounds : (fuel : ℕ) → Rounds fuel (pow_loop fuel)
pow_loop-Rounds zero = ended
pow_loop-Rounds (suc fuel) = round fuel (pow_loop-Rounds fuel)

-- For a base of int64 and an exponent below 2 ^ 64, `int_pow` gives the power itself where it is
-- an int64, and the error where it is not: no result ever wraps around.
pub int_pow_lem :
    (base : ℤ) (exp : ℕ)
    → InRange base
    → exp < full_range
    → int_pow base exp ≡ checked (pow base exp)
int_pow_lem base exp base_in few =
    unfold int_pow in
    pow_loop-Rounds 64 (pos 1) base exp (omega arith, omega arith) base_in (λ h. omega arith) few
    ∙ ap checked (pos-mul 1 (pow base exp) ∙ scale_one (pow base exp))
