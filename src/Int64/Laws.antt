-- ===== src/Int64/Laws.antt =====
-- An int64 operation is exact where its result fits.
use kolang.Prelude.{◌≡◌, arith, true, ◌↔◌}
use kolang.Prelude.Int.{ℤ, pos, negsuc}
use kolang.Int64.{InRange, in_range, wrap}

pub in_range_iff : (a : ℤ) → (in_range a ≡ true) ↔ InRange a
in_range_iff a = ground arith

pub wrap_exact : (a : ℤ) → InRange a → wrap a ≡ a
unfolding wrap
wrap_exact (pos n) h = ground arith
wrap_exact (negsuc n) h = ground arith

pub wrap-InRange : (a : ℤ) → InRange (wrap a)
unfolding wrap
wrap-InRange (pos n) = ground arith
wrap-InRange (negsuc n) = ground arith
