-- ===== src/Base/Bits/Step.antt =====
-- `|` and `&` one binary digit at a time. The native operations stand for `digits` with their
-- first operand for fuel, and more fuel than the operand changes nothing.
use Prim.Native.Nat.{
  ℕ, zero, suc, ◌+◌, ◌*◌, ◌/◌, ◌%◌, ◌≤◌, min, max, bit_and, bit_or, digits, bit_and-bitwise,
  bit_or-bitwise,
}
use mathlib.Core.Path.{◌≡◌, refl}
use native.Mathlib.Omega.{arith}

spare_fuel :
    (rest : ℕ → ℕ) (op : ℕ → ℕ → ℕ) (extra x y : ℕ)
    → (fuel : ℕ) → x ≤ fuel
    → fuel ≤ extra
    → digits rest op extra x y ≡ digits rest op fuel x y
spare_fuel rest op zero zero y zero h k = refl
spare_fuel rest op zero x y (suc fuel) h k = absurd (omega arith)
spare_fuel rest op zero (suc x) y zero h k = absurd (omega arith)
spare_fuel rest op (suc extra) zero y zero h k = refl
spare_fuel rest op (suc extra) zero y (suc fuel) h k = refl
spare_fuel rest op (suc extra) (suc x) y zero h k = absurd (omega arith)
spare_fuel rest op (suc extra) (suc x) y (suc fuel) h k =
    omega (arith, spare_fuel rest op extra (suc x / 2) (y / 2) fuel (omega arith) (omega arith))

pub bit_or_step : (x y : ℕ) → bit_or x y ≡ bit_or (x / 2) (y / 2) * 2 + max (x % 2) (y % 2)
bit_or_step zero y = omega (arith, bit_or-bitwise 0 y, bit_or-bitwise 0 (y / 2))
bit_or_step (suc x) y = omega (
  arith,
  bit_or-bitwise (suc x) y,
  bit_or-bitwise (suc x / 2) (y / 2),
  spare_fuel (λ t. t) max x (suc x / 2) (y / 2) (suc x / 2) (omega arith) (omega arith),
)

pub bit_and_step : (x y : ℕ) → bit_and x y ≡ bit_and (x / 2) (y / 2) * 2 + min (x % 2) (y % 2)
bit_and_step zero y = omega (arith, bit_and-bitwise 0 y, bit_and-bitwise 0 (y / 2))
bit_and_step (suc x) y = omega (
  arith,
  bit_and-bitwise (suc x) y,
  bit_and-bitwise (suc x / 2) (y / 2),
  spare_fuel (λ t. zero) min x (suc x / 2) (y / 2) (suc x / 2) (omega arith) (omega arith),
)

pub zero-bit_and : (y : ℕ) → bit_and 0 y ≡ 0
zero-bit_and y = bit_and-bitwise 0 y

bit_and-zero_below : (bound x : ℕ) → x ≤ bound → bit_and x 0 ≡ 0
bit_and-zero_below bound zero h = zero-bit_and 0
bit_and-zero_below zero (suc x) h = absurd (omega arith)
bit_and-zero_below (suc bound) (suc x) h =
    omega (arith, bit_and_step (suc x) 0, bit_and-zero_below bound (suc x / 2) (omega arith))

pub bit_and-zero : (x : ℕ) → bit_and x 0 ≡ 0
bit_and-zero x = bit_and-zero_below x x (omega arith)
