-- ===== src/Frames/Allocator/Sample.antt =====
-- A machine with four frames of RAM, one of them the kernel's, to run the allocator on.
use the_rack.Base.{ℕ, ◌+◌, ◌*◌, ◌≤◌, ◌<◌, ◌≡◌, ap, refl, false, ok, arith, ltb}
use the_rack.Frames.Bitmap.{new, frame_size}
use the_rack.Frames.Bitmap.Bit.{taken, IsWf, new-IsWf, taken-new}
use the_rack.Frames.Count.{vacant_pos}
use the_rack.Frames.Allocator.{Memory, init}
use the_rack.Frames.Allocator.Inv.{Inv}
use the_rack.Frames.Allocator.Init.{Booted, init-Booted}

abbrev pub ram_start : ℕ
ram_start = 0x4000_0000

-- Memory before `init`, with a blank bitmap and stale bytes.
pub unbooted : Memory
unbooted = record { bitmap = new; ram_base = 0; ram_length = 0; image_end = 0; bytes = λ a. 0xab }

pub unbooted-IsWf : IsWf unbooted.bitmap
unfolding unbooted
unbooted-IsWf = new-IsWf

pub unbooted-blank : (i : ℕ) → taken unbooted.bitmap i ≡ false
unfolding unbooted
unbooted-blank = taken-new

pub boot :
    (n : Memory) × (init (ram_start + 100) ram_start (4 * frame_size) unbooted ≡ ok n)
    × Booted (ram_start + 100) ram_start (4 * frame_size) unbooted n
boot =
    init-Booted (ram_start + 100) ram_start (4 * frame_size) unbooted unbooted-IsWf unbooted-blank
      refl (omega arith) (omega arith) (omega arith)

pub booted : Memory
booted = boot.0

pub booted-Inv : Inv booted
unfolding booted
booted-Inv = boot.2.inv

pub booted_at : booted.ram_base ≡ ram_start
unfolding booted
booted_at = boot.2.base_set

pub booted_size : booted.ram_length ≡ 4 * frame_size
unfolding booted
booted_size = boot.2.length_set

pub booted_counts : booted.bitmap.free + booted.bitmap.reserved ≡ 4
unfolding booted
booted_counts = omega (arith, boot.2.balanced, boot.2.length_set)

pub booted_image :
    (j : ℕ) → j < 4 → taken booted.bitmap j ≡ ltb (ram_start + j * frame_size) (ram_start + 100)
unfolding booted
booted_image j h = boot.2.image_taken j (omega (arith, boot.2.length_set))

pub booted_free : (j : ℕ) → 1 ≤ j → j < 4 → taken booted.bitmap j ≡ false
booted_free j p q = ground (arith, booted_image j q)

pub some_free : 0 < booted.bitmap.free
some_free = ground (
  arith,
  vacant_pos 4 1 (taken booted.bitmap) (omega arith) (booted_free 1 (omega arith) (omega arith)),
  booted-Inv.counted,
  booted_size,
)

pub booted_bytes : (a : ℕ) → booted.bytes a ≡ 0xab
unfolding booted unbooted
booted_bytes a = ap (λ bytes. bytes a) boot.2.bytes_same
