-- ===== src/Prelude/Bits.antt =====
-- A mask bounds what it lets through.
use Prim.Native.Nat.{ℕ, zero, suc, ◌/◌, ◌≤◌, min, bit_and, digits, bit_and-bitwise}
use native.Mathlib.Omega.{arith}

-- However many binary digits are compared.
masked-le : (rounds x mask : ℕ) → digits (λ y. zero) min rounds x mask ≤ mask
masked-le zero x mask = omega arith
masked-le (suc rounds) zero mask = omega arith
masked-le (suc rounds) (suc x) mask = omega (arith, masked-le rounds (suc x / 2) (mask / 2))

pub bit_and-le : (x mask : ℕ) → bit_and x mask ≤ mask
bit_and-le x mask = omega (arith, bit_and-bitwise x mask, masked-le x x mask)
