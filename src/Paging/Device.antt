-- ===== src/Paging/Device.antt =====
-- `map_device` of kernel/src/paging.rs. What it maps with, `map_range` into the kernel's own tables, is
-- an argument: from a virtual address, a physical address and a length.
use the_rack.Base.{
  ℕ, ◌+◌, ◌*◌, ◌/◌, Bool, true, false, not, ◌&&◌, Result, ok, assert, ◌>>=◌, ◌>>◌, if◌then◌else◌,
  ltb, leb, add_u64, sub_u64, mul_u64,
}
use the_rack.Frames.Allocator.{Memory, div_ceil}
use the_rack.Paging.{kernel_base, page_size}

abbrev pub device_base : ℕ
device_base = 0x0800_0000

abbrev pub device_size : ℕ
device_size = 32 * 1024 * 1024

abbrev pub MapRange : Type 0
MapRange = ℕ → ℕ → ℕ → Memory → Result Memory

-- `window.contains` for the window mapped at boot.
pub in_window : ℕ → Bool
in_window a = leb device_base a && ltb a (device_base + device_size)

pub map_device : MapRange → ℕ → ℕ → Memory → Result (Bool × Memory)
unfolding in_window
map_device map_range pa size m = do
  let start = pa / page_size * page_size
  top ← add_u64 pa size
  stop ← mul_u64 (div_ceil top page_size) page_size
  if in_window start && leb stop (device_base + device_size) then ok (false, m) else do
    assert (not (in_window start))
    last ← sub_u64 stop 1
    assert (not (in_window last))
    va ← add_u64 start kernel_base
    len ← sub_u64 stop start
    m ← map_range va start len m
    ok (true, m)
