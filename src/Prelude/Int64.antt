-- ===== src/Prelude/Int64.antt =====
-- Go's `int` on a 64-bit platform: two's complement, with the wrap-around of `++` and `--`.
use Prim.Native.Nat.{ℕ, zero, suc, ◌<◌}
use mathlib.Core.Path.{◌≡◌}
use mathlib.Core.Bool.{Bool, true, false}
use native.Mathlib.Omega.{arith}
use weron.Prelude.Tests.{◌==◌, if◌then◌else◌}

-- `negsuc n` is -(n + 1).
pub data ℤ : Type 0 where
  pos : ℕ → ℤ
  negsuc : ℕ → ℤ

abbrev pub int_max : ℕ
int_max = 9223372036854775807

unfoldable pub increment : ℤ → ℤ
increment (pos n) = if n == int_max then negsuc int_max else pos (suc n)
increment (negsuc zero) = pos 0
increment (negsuc (suc n)) = negsuc n

unfoldable pub decrement : ℤ → ℤ
decrement (pos zero) = negsuc 0
decrement (pos (suc n)) = pos n
decrement (negsuc n) = if n == int_max then pos int_max else negsuc (suc n)

unfoldable pub is_positive : ℤ → Bool
is_positive (pos zero) = false
is_positive (pos (suc n)) = true
is_positive (negsuc n) = false

unfoldable pub is_zero : ℤ → Bool
is_zero (pos zero) = true
is_zero (pos (suc n)) = false
is_zero (negsuc n) = false

pub increment-pos : (n : ℕ) → n < int_max → increment (pos n) ≡ pos (suc n)
unfolding increment
increment-pos n h = ground arith

pub decrement-increment : (n : ℕ) → decrement (increment (pos n)) ≡ pos n
unfolding decrement increment
decrement-increment n = ground arith
