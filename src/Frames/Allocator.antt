-- ===== src/Frames/Allocator.antt =====
-- The allocator of kernel/src/frames.rs. `Memory` holds the lock's bitmap, the atomics beside it
-- and the bytes of physical memory by physical address (the kernel reaches them through an alias).
-- A `Frame` is its base address.
pub mod Inv
pub mod Alloc
pub mod Release
pub mod Scan
pub mod Contiguous
pub mod Reserve
pub mod Init
pub mod Adopt
pub mod RoundTrip
pub mod Sample
mod Tests
use the_rack.Base.{
  ℕ, zero, suc, ◌+◌, ◌-◌, ◌*◌, ◌/◌, ◌%◌, min, Bool, true, false, not, ◌&&◌, ◌||◌, Option, none,
  some, Result, ok, assert, ◌>>=◌, ◌>>◌, if◌then◌else◌, ◌==◌, leb, ltb, u64_mod, add_u64, sub_u64,
  mul_u64,
}
use the_rack.Base.Int.{ℤ, sub_ℕ}
use the_rack.Frames.Bitmap.{
  Bitmap, is_set, set, clear, each, set_range, clear_range, first_clear, frame_size, max_ram,
  max_frames,
}

abbrev pub Frame : Type 0
Frame = ℕ

pub record Memory : Type 0 where
  pub bitmap : Bitmap
  pub ram_base : ℕ
  pub ram_length : ℕ
  pub image_end : ℕ
  pub bytes : ℕ → ℕ

pub data ReserveError : Type 0 where
  outside_ram : ℕ → ReserveError
  already_taken : ℕ → ReserveError

-- `Result<A, ReserveError>` of the source; `Result` here is for panics.
pub data Reply (A : Type 0) : Type 0 where
  done : A → Reply A
  refused : ReserveError → Reply A

abbrev pub frame_count : Memory → ℕ
frame_count m = m.ram_length / frame_size

-- `ptr::write_bytes`
abbrev pub write_bytes : (ℕ → ℕ) → ℕ → ℕ → ℕ → ℕ → ℕ
write_bytes bytes start value len a = if leb start a && ltb a (start + len) then value else bytes a

-- `Frame::from_index` and `Frame::index`
pub from_index : Memory → ℕ → Result Frame
from_index m index = do offset ← mul_u64 index frame_size; add_u64 m.ram_base offset

pub index : Memory → Frame → Result ℕ
index m frame = do offset ← sub_u64 frame m.ram_base; ok (offset / frame_size)

abbrev pub div_ceil : ℕ → ℕ → ℕ
div_ceil a b = (a + (b - 1)) / b

-- `kernel_end` is the linker's symbol.
pub init : ℕ → ℕ → ℕ → Memory → Result Memory
init kernel_end base requested m = do
  let size = min requested max_ram / frame_size * frame_size
  let frames = size / frame_size
  first_free ← mul_u64 (div_ceil kernel_end frame_size) frame_size
  image ← sub_u64 first_free base
  let reserved_frames = image / frame_size
  b ← set_range 0 reserved_frames m.bitmap
  b ← set_range frames max_frames b
  free ← sub_u64 frames reserved_frames
  ok (record m {
    bitmap = record b { reserved = reserved_frames; free = free };
    ram_base = base;
    ram_length = size;
    image_end = first_free;
  })

-- `for index in index..index + n { if allocator.is_set(index) { return .. } }`
pub find_taken : ℕ → ℕ → Bitmap → Result (Option ℕ)
find_taken zero index b = ok none
find_taken (suc n) index b = do
  found ← is_set b index
  let rest = find_taken n (index + 1) b
  if found then ok (some index) else rest

-- The part of `reserve_range` under the lock.
reserve_frames : ℕ → ℕ → Memory → Result (Memory × Reply ℕ)
unfolding find_taken
reserve_frames first count m = do
  found ← find_taken count first m.bitmap
  elim found [
    | some index ↦ do addr ← from_index m index; ok (m, refused (already_taken addr))
    | none ↦ do
      b ← each set count first m.bitmap
      reserved ← add_u64 b.reserved count
      free ← sub_u64 b.free count
      ok (record m { bitmap = record b { reserved = reserved; free = free } }, done count)
  ]

pub reserve_range : ℕ → ℕ → Memory → Result (Memory × Reply ℕ)
unfolding reserve_frames
reserve_range base len m =
    if len == 0
    then ok (m, done 0)
    else if not (ltb (base + len) u64_mod)
    then ok (m, refused (outside_ram base))
    else do
      let start = base / frame_size * frame_size
      stop ← mul_u64 (div_ceil (base + len) frame_size) frame_size
      top ← add_u64 m.ram_base m.ram_length
      if ltb start m.ram_base || ltb top stop then ok (m, refused (outside_ram base)) else do
        above ← sub_u64 start m.ram_base
        size ← sub_u64 stop start
        reserve_frames (above / frame_size) (size / frame_size) m

pub is_taken : ℕ → Memory → Result Bool
is_taken addr m = do
  top ← add_u64 m.ram_base m.ram_length
  if not (leb m.ram_base addr && ltb addr top)
      then ok false
      else do above ← sub_u64 addr m.ram_base; is_set m.bitmap (above / frame_size)

-- The two branches of `adopt` under the lock, from `old` frames to `new`.
grow : ℕ → ℕ → ℕ → Memory → Result (Memory × Reply ℤ)
grow size old new m = do
  b ← clear_range old new m.bitmap
  free ← add_u64 b.free (new - old)
  ok (record m { bitmap = record b { free = free }; ram_length = size }, done (sub_ℕ new old))

shrink : ℕ → ℕ → ℕ → Memory → Result (Memory × Reply ℤ)
unfolding find_taken
shrink size old new m = do
  found ← find_taken (old - new) new m.bitmap
  elim found [
    | some index ↦ do addr ← from_index m index; ok (m, refused (already_taken addr))
    | none ↦ do
      b ← set_range new old m.bitmap
      free ← sub_u64 b.free (old - new)
      ok (record m { bitmap = record b { free = free }; ram_length = size }, done (sub_ℕ new old))
  ]

pub adopt : ℕ → ℕ → Memory → Result (Memory × Reply ℤ)
unfolding grow shrink
adopt base requested m =
    if not (base == m.ram_base)
    then ok (m, refused (outside_ram base))
    else let size = min requested max_ram / frame_size * frame_size in
      let old = frame_count m in
      let new = size / frame_size in
      if ltb old new then grow size old new m else shrink size old new m

pub alloc : Memory → Result (Memory × Option Frame)
alloc m = elim (first_clear m.bitmap) [
  | none ↦ ok (m, none)
  | some index ↦ do
    b ← set m.bitmap index
    free ← sub_u64 b.free 1
    addr ← from_index m index
    ok (
      record m { bitmap = record b { free = free }; bytes = write_bytes m.bytes addr 0 frame_size },
      some addr,
    )
]

-- The scan of `alloc_contiguous`: the first index of the run, if one is found in the `n` indices
-- from `index` on.
pub find_run : ℕ → ℕ → ℕ → ℕ → ℕ → Bitmap → Result (Option ℕ)
find_run count zero index run_start run b = ok none
find_run count (suc n) index run_start run b = do
  found ← is_set b index
  let reset = find_run count n (index + 1) run_start 0 b
  let start = if run == 0 then index else run_start
  let longer = find_run count n (index + 1) start (run + 1) b
  if found then reset else if ltb (run + 1) count then longer else ok (some start)

pub alloc_contiguous : ℕ → Memory → Result (Memory × Option Frame)
unfolding find_run
alloc_contiguous count m = do
  assert (ltb 0 count)
  found ← find_run count (frame_count m) 0 0 0 m.bitmap
  elim found [
    | none ↦ ok (m, none)
    | some run_start ↦ do
      b ← each set count run_start m.bitmap
      free ← sub_u64 b.free count
      addr ← from_index m run_start
      size ← mul_u64 count frame_size
      ok (
        record m { bitmap = record b { free = free }; bytes = write_bytes m.bytes addr 0 size },
        some addr,
      )
  ]

pub free : Frame → Memory → Result Memory
free frame m = do
  top ← add_u64 m.ram_base m.ram_length
  assert (leb m.ram_base frame && ltb frame top)
  assert (frame % frame_size == 0)
  i ← index m frame
  held ← is_set m.bitmap i
  assert held
  b ← clear m.bitmap i
  count ← add_u64 b.free 1
  ok (record m { bitmap = record b { free = count } })

-- `for index in index..index + n { free(first + index * FRAME_SIZE) }`
free_each : Frame → ℕ → ℕ → Memory → Result Memory
free_each first zero index m = ok m
free_each first (suc n) index m = do
  offset ← mul_u64 index frame_size
  addr ← add_u64 first offset
  m ← free addr m
  free_each first n (index + 1) m

pub free_contiguous : Frame → ℕ → Memory → Result Memory
unfolding free_each
free_contiguous first count m = free_each first count 0 m
