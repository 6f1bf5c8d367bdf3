-- ===== src/Base/Bits.antt =====
-- The bits of a word: `|`, `&` and `!` of u64 read one bit at a time.
mod Step
use mathlib.Core.Path.{◌≡◌, refl, ◌∙◌, ap}
use mathlib.Core.Bool.{Bool, true, false, not, ◌&&◌, ◌||◌}
use Prim.Native.Nat.{ℕ, zero, suc, ◌+◌, ◌-◌, ◌*◌, ◌/◌, ◌%◌, ◌^◌, ◌≤◌, ◌<◌, bit_and, bit_or}
use native.Mathlib.Omega.{arith}
use native.Mathlib.Nat.{pow-suc, one-le-pow}
use Step.{bit_or_step, bit_and_step, zero-bit_and, bit_and-zero}
use the_rack.Base.Tests.{◌==◌, if◌then◌else◌}

-- Bit `k` of a number, read by halving.
unfoldable pub bit : ℕ → ℕ → Bool
bit w zero = w % 2 == 1
bit w (suc k) = bit (w / 2) k

-- `!x` on `n` bits.
abbrev pub not_bits : ℕ → ℕ → ℕ
not_bits n x = 2 ^ n - 1 - x

halve_or : (a b : ℕ) → bit_or a b / 2 ≡ bit_or (a / 2) (b / 2)
halve_or a b = omega (arith, bit_or_step a b)

halve_and : (a b : ℕ) → bit_and a b / 2 ≡ bit_and (a / 2) (b / 2)
halve_and a b = omega (arith, bit_and_step a b)

pub bit-bit_or : (a b k : ℕ) → bit (bit_or a b) k ≡ (bit a k || bit b k)
unfolding bit
bit-bit_or a b zero = ground (arith, bit_or_step a b)
bit-bit_or a b (suc k) = rw (halve_or a b) (bit-bit_or (a / 2) (b / 2) k)

pub bit-bit_and : (a b k : ℕ) → bit (bit_and a b) k ≡ (bit a k && bit b k)
unfolding bit
bit-bit_and a b zero = ground (arith, bit_and_step a b)
bit-bit_and a b (suc k) = rw (halve_and a b) (bit-bit_and (a / 2) (b / 2) k)

pub bit-zero : (k : ℕ) → bit 0 k ≡ false
unfolding bit
bit-zero zero = refl
bit-zero (suc k) = bit-zero k

halve_pow : (j : ℕ) → 2 ^ suc j / 2 ≡ 2 ^ j
halve_pow j = omega (arith, pow-suc 2 j)

pub bit-pow : (j k : ℕ) → bit (2 ^ j) k ≡ (j == k)
unfolding bit
bit-pow zero zero = refl
bit-pow zero (suc k) = ground (arith, bit-zero k)
bit-pow (suc j) zero = ground (arith, pow-suc 2 j)
bit-pow (suc j) (suc k) = rw (halve_pow j) (ground (arith, bit-pow j k))

pub bit-not_bits : (n x k : ℕ) → x < 2 ^ n → k < n → bit (not_bits n x) k ≡ not (bit x k)
unfolding bit
bit-not_bits zero x k h l = absurd (omega arith)
bit-not_bits (suc n) x zero h l = ground (arith, pow-suc 2 n)
bit-not_bits (suc n) x (suc k) h l =
    let halved : (2 ^ suc n - 1 - x) / 2 ≡ 2 ^ n - 1 - x / 2 = omega (arith, pow-suc 2 n) in
    rw halved (bit-not_bits n (x / 2) k (omega (arith, pow-suc 2 n)) (omega arith))

pub bit_or-lt : (n a b : ℕ) → a < 2 ^ n → b < 2 ^ n → bit_or a b < 2 ^ n
bit_or-lt zero a b h k = omega (arith, bit_or_zeros a b h k)
  where
    bit_or_zeros : (a b : ℕ) → a < 2 ^ 0 → b < 2 ^ 0 → bit_or a b ≡ 0
    bit_or_zeros zero zero h k = refl
    bit_or_zeros zero (suc b) h k = absurd (omega arith)
    bit_or_zeros (suc a) b h k = absurd (omega arith)
bit_or-lt (suc n) a b h k = omega (
  arith,
  pow-suc 2 n,
  bit_or_step a b,
  bit_or-lt n (a / 2) (b / 2) (omega (arith, pow-suc 2 n)) (omega (arith, pow-suc 2 n)),
)

pub bit_and-lt : (n a b : ℕ) → a < 2 ^ n → bit_and a b < 2 ^ n
bit_and-lt zero zero b h = omega (arith, zero-bit_and b)
bit_and-lt zero (suc a) b h = absurd (omega arith)
bit_and-lt (suc n) a b h = omega (
  arith,
  pow-suc 2 n,
  bit_and_step a b,
  bit_and-lt n (a / 2) (b / 2) (omega (arith, pow-suc 2 n)),
)

-- A word all of whose `n` bits are clear is zero.
pub zero_of_bits : (n a : ℕ) → a < 2 ^ n → ((k : ℕ) → k < n → bit a k ≡ false) → a ≡ 0
unfolding bit
zero_of_bits zero a h clear = omega arith
zero_of_bits (suc n) a h clear = ground (
  arith,
  pow-suc 2 n,
  clear 0 (omega arith),
  zero_of_bits n (a / 2) (omega (arith, pow-suc 2 n)) (λ k l. clear (suc k) (omega arith)),
)

-- `w & (1 << k) != 0` is bit `k`.
pub test_bit : (w k : ℕ) → not (bit_and w (2 ^ k) == 0) ≡ bit w k
unfolding bit
test_bit w zero = ground (arith, bit_and_step w 1, bit_and-zero (w / 2))
test_bit w (suc k) =
    ground (arith, bit_and_step w (2 ^ suc k), pow-suc 2 k, halve_pow k, test_bit (w / 2) k)

pub pow-lt : (k n : ℕ) → k < n → 2 ^ k < 2 ^ n
pow-lt k zero h = absurd (omega arith)
pow-lt zero (suc n) h = omega (arith, pow-suc 2 n, one-le-pow n 2)
pow-lt (suc k) (suc n) h = omega (arith, pow-suc 2 k, pow-suc 2 n, pow-lt k n (omega arith))

-- Every bit of the greatest word is set.
pub bit_max : (n k : ℕ) → k < n → bit (2 ^ n - 1) k ≡ true
bit_max n k h = ground (arith, bit-not_bits n 0 k (omega (arith, one-le-pow n 2)) h, bit-zero k)
