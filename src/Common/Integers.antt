-- ===== src/Common/Integers.antt =====
-- Go's signed integers of 64 bits, as integers over the native natural numbers, and their order.
use Prim.Native.Nat.{ℕ, ◌+◌, ◌-◌, ◌%◌, ◌^◌}
use mathlib.Core.Path.{◌≡◌, refl, ap}
use mathlib.Core.Bool.{Bool, true, false}
use native.Mathlib.Omega.{arith}
use rom_m_swarm.Common.Tests.{ltb, if◌then◌else◌}

-- `pos n` is n, and `negsuc n` is -(n + 1).
pub data ℤ : Type 0 where
  pos : ℕ → ℤ
  negsuc : ℕ → ℤ

unfoldable pub lt_int : ℤ → ℤ → Bool
lt_int (pos a) (pos b) = ltb a b
lt_int (pos a) (negsuc b) = false
lt_int (negsuc a) (pos b) = true
lt_int (negsuc a) (negsuc b) = ltb b a

-- The int64 with the low 64 bits of a number.
unfoldable pub wrap_int64 : ℕ → ℤ
wrap_int64 n = let m = n % 2 ^ 64 in if ltb m (2 ^ 63) then pos m else negsuc (2 ^ 64 - 1 - m)

-- The 64 bits of an int64, as a number.
unfoldable pub bits : ℤ → ℕ
bits (pos n) = n % 2 ^ 64
bits (negsuc n) = 2 ^ 64 - 1 - n % 2 ^ 64

-- `a += n` on an int64.
unfoldable pub add_int64 : ℤ → ℕ → ℤ
add_int64 a n = wrap_int64 (bits a + n)

bits-wrap_int64 : (n : ℕ) → bits (wrap_int64 n) ≡ n % 2 ^ 64
unfolding bits wrap_int64
bits-wrap_int64 n = ground arith

pub add_int64-wrap_int64 : (a n : ℕ) → add_int64 (wrap_int64 a) n ≡ wrap_int64 (a + n)
unfolding add_int64 wrap_int64
add_int64-wrap_int64 a n = ground (arith, bits-wrap_int64 a)

pub lt_int_asym : (a b : ℤ) → lt_int a b ≡ true → lt_int b a ≡ false
unfolding lt_int
lt_int_asym (pos a) (pos b) h = ground arith
lt_int_asym (pos a) (negsuc b) h = ground arith
lt_int_asym (negsuc a) (pos b) h = refl
lt_int_asym (negsuc a) (negsuc b) h = ground arith

pub lt_int_step : (a b c : ℤ) → lt_int b a ≡ false → lt_int c b ≡ false → lt_int c a ≡ false
unfolding lt_int
lt_int_step (pos a) (pos b) (pos c) h k = ground arith
lt_int_step (pos a) (pos b) (negsuc c) h k = ground arith
lt_int_step (pos a) (negsuc b) c h k = ground arith
lt_int_step (negsuc a) (pos b) (pos c) h k = refl
lt_int_step (negsuc a) (pos b) (negsuc c) h k = ground arith
lt_int_step (negsuc a) (negsuc b) (pos c) h k = refl
lt_int_step (negsuc a) (negsuc b) (negsuc c) h k = ground arith

-- Neither is less: the two are equal.
pub lt_int_total : (a b : ℤ) → lt_int a b ≡ false → lt_int b a ≡ false → a ≡ b
unfolding lt_int
lt_int_total (pos a) (pos b) h k = ap pos (ground arith)
lt_int_total (pos a) (negsuc b) h k = ground arith
lt_int_total (negsuc a) (pos b) h k = ground arith
lt_int_total (negsuc a) (negsuc b) h k = ap negsuc (ground arith)
