-- ===== src/Base/Words.antt =====
-- Words of physical memory, least significant byte first.
use Prim.Native.Nat.{ℕ, zero, suc, ◌+◌, ◌-◌, ◌*◌, ◌/◌, ◌%◌, ◌^◌, ◌≤◌, ◌<◌}
use mathlib.Core.Path.{◌≡◌, refl, sym, ◌∙◌}
use mathlib.Core.Logic.{◌⊎◌}
use mathlib.Core.Bool.{◌&&◌}
use native.Mathlib.Omega.{arith}
use native.Mathlib.Nat.{pow-suc, div-div-eq-div-mul}
use the_rack.Base.Tests.{leb, ltb, if◌then◌else◌}

-- The `n` bytes from `a` on.
unfoldable pub read_word : ℕ → (ℕ → ℕ) → ℕ → ℕ
read_word zero bytes a = 0
read_word (suc n) bytes a = bytes a + 256 * read_word n bytes (a + 1)

unfoldable pub write_word : ℕ → (ℕ → ℕ) → ℕ → ℕ → ℕ → ℕ
write_word n bytes a value x =
    if leb a x && ltb x (a + n) then value / 256 ^ (x - a) % 256 else bytes x

pub read_word-same :
    (n : ℕ) (bytes bytes' : ℕ → ℕ) (a : ℕ)
    → ((x : ℕ) → a ≤ x → x < a + n → bytes' x ≡ bytes x)
    → read_word n bytes' a ≡ read_word n bytes a
unfolding read_word
read_word-same zero bytes bytes' a h = refl
read_word-same (suc n) bytes bytes' a h = omega (
  arith,
  h a (omega arith) (omega arith),
  read_word-same n bytes bytes' (a + 1) (λ x p q. h x (omega arith) (omega arith)),
)

-- A write elsewhere is not read.
pub read_word-write_word_apart :
    (n k : ℕ) (bytes : ℕ → ℕ) (a b value : ℕ)
    → (a + n ≤ b) ⊎ (b + k ≤ a)
    → read_word n (write_word k bytes b value) a ≡ read_word n bytes a
unfolding write_word
read_word-write_word_apart n k bytes a b value h =
    read_word-same n bytes _ a (λ x p q. ground arith)

-- The bytes `i` and on of a written word.
read_rest :
    (n i k : ℕ) (bytes : ℕ → ℕ) (a value : ℕ)
    → i + n ≡ k
    → value / 256 ^ i < 256 ^ n
    → read_word n (write_word k bytes a value) (a + i) ≡ value / 256 ^ i
unfolding read_word write_word
read_rest zero i k bytes a value h l = omega arith
read_rest (suc n) i k bytes a value h l =
    let next : value / 256 ^ suc i ≡ value / 256 ^ i / 256 =
      rw (pow-suc 256 i) (sym (div-div-eq-div-mul value (256 ^ i) 256)) in
    let small : value / 256 ^ i / 256 < 256 ^ n = omega (arith, pow-suc 256 n) in
    let rest = read_rest n (suc i) k bytes a value (omega arith) (rw next small) in
    ground (arith, rest, next)

pub read_word-write_word :
    (n : ℕ) (bytes : ℕ → ℕ) (a value : ℕ)
    → value < 256 ^ n
    → read_word n (write_word n bytes a value) a ≡ value
read_word-write_word n bytes a value h =
    let whole : value / 256 ^ 0 ≡ value = omega arith in
    let start : a + 0 ≡ a = omega arith in
    let rest = read_rest n 0 n bytes a value (omega arith) (rw whole h) in
    (rw start at rest) ∙ whole

pub read_word-lt :
    (n : ℕ) (bytes : ℕ → ℕ) (a : ℕ) → ((x : ℕ) → bytes x < 256) → read_word n bytes a < 256 ^ n
unfolding read_word
read_word-lt zero bytes a h = omega arith
read_word-lt (suc n) bytes a h = omega (arith, pow-suc 256 n, h a, read_word-lt n bytes (a + 1) h)
