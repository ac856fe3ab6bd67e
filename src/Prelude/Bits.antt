-- ===== src/Prelude/Bits.antt =====
-- What the bit operations do at a variable, as far as the tables and the address checks need it.
use Prim.Native.Nat.{ℕ, zero, suc, ◌/◌, ◌%◌, ◌≤◌, min, bit_and, digits, bit_and-bitwise}
use mathlib.Core.Path.{◌≡◌}
use native.Mathlib.Omega.{arith}

-- No digit of the conjunction is above the mask's.
conjunction-le : (n x mask : ℕ) → digits (λ y. zero) min n x mask ≤ mask
conjunction-le zero zero mask = omega arith
conjunction-le zero (suc x) mask = omega arith
conjunction-le (suc n) zero mask = omega arith
conjunction-le (suc n) (suc x) mask = omega (arith, conjunction-le n (suc x / 2) (mask / 2))

pub bit_and-le : (x mask : ℕ) → bit_and x mask ≤ mask
bit_and-le x mask = omega (arith, bit_and-bitwise x mask, conjunction-le x x mask)

pub one-bit_and : (x : ℕ) → bit_and 1 x ≡ x % 2
one-bit_and x = omega (arith, bit_and-bitwise 1 x)
