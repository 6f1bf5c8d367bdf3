-- ===== src/Virtqueue/Announce.antt =====
-- What `new` of kernel/src/virtqueue.rs writes to the device's registers.
use the_rack.Base.{ℕ, ◌+◌, ◌*◌, ◌/◌, ◌%◌, ◌^◌, ◌<◌, ◌≡◌, refl, some, ◌∷◌, arith}
use the_rack.Frames.Bitmap.{frame_size}
use the_rack.Frames.Allocator.{Frame}
use the_rack.Virtio.{Trace, wrote, read_from, last_written}
use the_rack.Virtqueue.{
  queue_size, desc_offset, avail_offset, used_offset, queue_sel, queue_num_max, queue_num,
  queue_ready, queue_desc_low, queue_desc_high, queue_driver_low, queue_driver_high,
  queue_device_low, queue_device_high,
}

-- The two registers hold the halves of an address.
abbrev pub Holds : Trace → ℕ → ℕ → ℕ → Type 0
Holds t low high address =
    (l : ℕ) × (h : ℕ) × (last_written low t ≡ some l)
    × (last_written high t ≡ some h)
    × (l < 2 ^ 32)
    × (l + h * 2 ^ 32 ≡ address)

-- The device was told of the queue at `frame`, and that it is ready last of all.
pub record Announced (frame : Frame) (index : ℕ) (t : Trace) : Type 0 where
  pub before : Trace
  pub last : t ≡ wrote queue_ready 1 ∷ before
  pub selected : last_written queue_sel before ≡ some index
  pub sized : last_written queue_num before ≡ some queue_size
  pub descriptors : Holds before queue_desc_low queue_desc_high frame
  pub available : Holds before queue_driver_low queue_driver_high (frame + avail_offset)
  pub used : Holds before queue_device_low queue_device_high (frame + used_offset)

-- What the device is told of the queue at `frame`, after `t`.
unfoldable pub trace_of : Frame → Trace → Trace
trace_of frame t =
    wrote queue_ready 1
    ∷ wrote queue_device_high ((frame + used_offset) / 2 ^ 32 % 2 ^ 32)
    ∷ wrote queue_device_low ((frame + used_offset) % 2 ^ 32)
    ∷ wrote queue_driver_high ((frame + avail_offset) / 2 ^ 32 % 2 ^ 32)
    ∷ wrote queue_driver_low ((frame + avail_offset) % 2 ^ 32)
    ∷ wrote queue_desc_high ((frame + desc_offset) / 2 ^ 32 % 2 ^ 32)
    ∷ wrote queue_desc_low ((frame + desc_offset) % 2 ^ 32)
    ∷ wrote queue_num queue_size
    ∷ t

halves :
    (address : ℕ)
    → address < 2 ^ 64
    → address % 2 ^ 32 + address / 2 ^ 32 % 2 ^ 32 * 2 ^ 32 ≡ address
halves address h = omega arith

pub trace_of-Announced :
    (frame index : ℕ) (t : Trace)
    → frame + frame_size < 2 ^ 64
    → Announced frame index (trace_of frame (read_from queue_num_max ∷ wrote queue_sel index ∷ t))
unfolding trace_of last_written
trace_of-Announced frame index t h = record {
  before = _;
  last = refl;
  selected = refl;
  sized = refl;
  descriptors = (_, _, refl, refl, omega arith, omega (arith, halves (frame + desc_offset)));
  available = (_, _, refl, refl, omega arith, halves (frame + avail_offset) (omega arith));
  used = (_, _, refl, refl, omega arith, halves (frame + used_offset) (omega arith));
}
