-- ===== src/Virtqueue.antt =====
-- The split virtqueue of kernel/src/virtqueue.rs. The rings are bytes of one frame of physical
-- memory, and each field is a word of its own width there; the fences order nothing here, since a
-- step of the model is seen whole. The device's half of the memory changes by its own steps.
pub mod Ring
pub mod Chain
pub mod Filling
pub mod Publish
pub mod Adding
pub mod Walking
pub mod Taking
pub mod Threading
pub mod Announce
pub mod Building
pub mod Runs
pub mod Release
pub mod Represents
mod Tests
use the_rack.Base.{
  ℕ, zero, suc, ◌+◌, ◌-◌, ◌*◌, ◌/◌, ◌%◌, ◌^◌, Bool, true, false, not, Option, none, some, List, [],
  ◌∷◌, length, Result, ok, panic, assert, ◌>>=◌, ◌>>◌, if◌then◌else◌, ◌==◌, ltb, leb, bit_or,
  add_u64, sub_u64,
}
use the_rack.Base.Bits.{bit}
use the_rack.Base.Words.{read_word, write_word}
use the_rack.Frames.Allocator.{Memory, Frame, alloc, free}
use the_rack.Virtio.{Trace, Device, read, write}

abbrev pub queue_size : ℕ
queue_size = 16

abbrev pub descriptor_bytes : ℕ
descriptor_bytes = 16

abbrev pub desc_offset : ℕ
desc_offset = 0

abbrev pub avail_offset : ℕ
avail_offset = 256

abbrev pub used_offset : ℕ
used_offset = 512

-- The flags of a descriptor, and the bit of the first.
abbrev pub desc_next : ℕ
desc_next = 1

abbrev pub next_bit : ℕ
next_bit = 0

abbrev pub desc_write : ℕ
desc_write = 2

abbrev pub queue_sel : ℕ
queue_sel = 0x030

abbrev pub queue_num_max : ℕ
queue_num_max = 0x034

abbrev pub queue_num : ℕ
queue_num = 0x038

abbrev pub queue_ready : ℕ
queue_ready = 0x044

abbrev pub queue_notify : ℕ
queue_notify = 0x050

abbrev pub queue_desc_low : ℕ
queue_desc_low = 0x080

abbrev pub queue_desc_high : ℕ
queue_desc_high = 0x084

abbrev pub queue_driver_low : ℕ
queue_driver_low = 0x090

abbrev pub queue_driver_high : ℕ
queue_driver_high = 0x094

abbrev pub queue_device_low : ℕ
queue_device_low = 0x0a0

abbrev pub queue_device_high : ℕ
queue_device_high = 0x0a4

pub record Buffer : Type 0 where
  pub pa : ℕ
  pub len : ℕ
  pub device_writes : Bool

pub data Error : Type 0 where
  too_small : ℕ → Error
  no_memory : Error
  full : Error
  empty : Error

-- `Result<A, Error>` of the source; `Result` here is for panics.
pub data Outcome (A : Type 0) : Type 0 where
  success : A → Outcome A
  failure : Error → Outcome A

pub record Queue : Type 0 where
  pub frame : Frame
  pub size : ℕ
  pub free_head : ℕ
  pub free_count : ℕ
  pub last_used : ℕ

abbrev pub u16_mod : ℕ
u16_mod = 2 ^ 16

pub add_u16 : ℕ → ℕ → Result ℕ
add_u16 a b = if ltb (a + b) u16_mod then ok (a + b) else panic

pub rem : ℕ → ℕ → Result ℕ
rem a b = do assert (not (b == 0)); ok (a % b)

-- `ring_ptr` of a field, in physical memory. A method that reads no more of its queue than the
-- frame takes the frame.
abbrev pub field : Frame → ℕ → ℕ
field frame offset = frame + offset

abbrev pub descriptor : ℕ → ℕ
descriptor index = desc_offset + index * descriptor_bytes

abbrev pub write_field : ℕ → Frame → ℕ → ℕ → Memory → Memory
write_field width frame offset value m = record m {
  bytes = write_word width m.bytes (field frame offset) value;
}

pub read_field : ℕ → Frame → ℕ → Memory → ℕ
read_field width frame offset m = read_word width m.bytes (field frame offset)

-- The flags that `write_descriptor` stores.
abbrev pub flags_of : Buffer → Bool → ℕ
flags_of buffer chained =
    bit_or (if chained then desc_next else 0) (if buffer.device_writes then desc_write else 0)

pub write_descriptor : Frame → ℕ → Buffer → ℕ → Bool → Memory → Memory
write_descriptor frame index buffer next chained m =
    let m = write_field 8 frame (descriptor index) buffer.pa m in
    let m = write_field 4 frame (descriptor index + 8) buffer.len m in
    let m = write_field 2 frame (descriptor index + 12) (flags_of buffer chained) m in
    write_field 2 frame (descriptor index + 14) next m

pub write_descriptor_next : Frame → ℕ → ℕ → Memory → Memory
write_descriptor_next frame index next m = write_field 2 frame (descriptor index + 14) next m

pub descriptor_next : Frame → ℕ → Memory → ℕ
unfolding read_field
descriptor_next frame index m = read_field 2 frame (descriptor index + 14) m

pub descriptor_flags : Frame → ℕ → Memory → ℕ
unfolding read_field
descriptor_flags frame index m = read_field 2 frame (descriptor index + 12) m

pub available_index : Frame → Memory → ℕ
unfolding read_field
available_index frame m = read_field 2 frame (avail_offset + 2) m

pub used_index : Frame → Memory → ℕ
unfolding read_field
used_index frame m = read_field 2 frame (used_offset + 2) m

-- The loop of `new`: `n` descriptors are left, from `index` on.
pub thread_free : ℕ → ℕ → Frame → Memory → Memory
unfolding write_descriptor_next
thread_free zero index frame m = m
thread_free (suc n) index frame m =
    thread_free n (index + 1) frame (write_descriptor_next frame index (index + 1) m)

pub new : Device → ℕ → Trace → Memory → Result (Outcome Queue × Trace × Memory)
new device index t m = do
  let (max, t) = read device queue_num_max (write queue_sel index t)
  if ltb max queue_size then ok (failure (too_small max), t, m) else do
    (m, found) ← alloc m
    elim found [
      | none ↦ ok (failure no_memory, t, m)
      | some frame ↦ do
        let q : Queue = record {
          frame = frame;
          size = queue_size;
          free_head = 0;
          free_count = queue_size;
          last_used = 0;
        }
        let m = thread_free queue_size 0 q.frame m
        desc ← add_u64 frame desc_offset
        avail ← add_u64 frame avail_offset
        used ← add_u64 frame used_offset
        let t = write queue_num queue_size t
        let t = write queue_desc_low (desc % 2 ^ 32) t
        let t = write queue_desc_high (desc / 2 ^ 32 % 2 ^ 32) t
        let t = write queue_driver_low (avail % 2 ^ 32) t
        let t = write queue_driver_high (avail / 2 ^ 32 % 2 ^ 32) t
        let t = write queue_device_low (used % 2 ^ 32) t
        let t = write queue_device_high (used / 2 ^ 32 % 2 ^ 32) t
        let t = write queue_ready 1 t
        ok (success q, t, m)
    ]

-- The loop of `add` over the buffers, with `free_head` and `index` as it changes them.
pub fill_chain : List Buffer → ℕ → ℕ → Frame → Memory → Memory × ℕ
unfolding write_descriptor descriptor_next
fill_chain [] free_head index frame m = (m, free_head)
fill_chain (buffer ∷ buffers) free_head index frame m =
    let next = descriptor_next frame index m in
    let chained = ltb 0 (length buffers) in
    fill_chain buffers (if chained then free_head else next) (if chained then next else index) frame
      (write_descriptor frame index buffer next chained m)

-- The part of `add` after the loop: the head goes into the available ring and is published.
pub publish : ℕ → Queue → Memory → Result Memory
unfolding available_index rem
publish head q m = do
  position ← rem (available_index q.frame m) q.size
  let m = write_field 2 q.frame (avail_offset + 4 + position * 2) head m
  ok (write_field 2 q.frame (avail_offset + 2) ((available_index q.frame m + 1) % u16_mod) m)

pub add : Queue → List Buffer → Memory → Result (Outcome ℕ × Queue × Memory)
unfolding fill_chain publish
add q buffers m =
    if length buffers == 0
    then ok (failure empty, q, m)
    else if ltb q.free_count (length buffers)
    then ok (failure full, q, m)
    else do
      let head = q.free_head
      let (m, free_head) = fill_chain buffers head head q.frame m
      free_count ← sub_u64 q.free_count (length buffers % u16_mod)
      m ← publish head q m
      ok (success head, record q { free_head = free_head; free_count = free_count }, m)

-- How many descriptors the walk of `recycle` may visit before its length leaves a u16.
pub longest_walk : ℕ
longest_walk = 65535

-- The walk of `recycle` to the last descriptor of a chain, and its length. The length is a u16, so
-- the walk panics at its 65536th descriptor; the fuel is how many it may still visit.
pub chain_end : ℕ → ℕ → ℕ → Frame → Memory → Result (ℕ × ℕ)
unfolding descriptor_flags descriptor_next
chain_end zero index length frame m = panic
chain_end (suc fuel) index length frame m =
    let rest = chain_end fuel (descriptor_next frame index m) (length + 1) frame m in
    if bit (descriptor_flags frame index m) next_bit then rest else ok (index, length)

pub recycle : ℕ → Queue → Memory → Result (Queue × Memory)
unfolding chain_end longest_walk write_descriptor_next add_u16
recycle head q m = do
  (index, length) ← chain_end longest_walk head 1 q.frame m
  let m = write_descriptor_next q.frame index q.free_head m
  free_count ← add_u16 q.free_count length
  ok (record q { free_head = head; free_count = free_count }, m)

-- The head and the length of the next entry of the used ring.
pub used_head : Frame → ℕ → Memory → ℕ
unfolding read_field
used_head frame position m = read_field 4 frame (used_offset + 4 + position * 8) m % u16_mod

pub used_length : Frame → ℕ → Memory → ℕ
unfolding read_field
used_length frame position m = read_field 4 frame (used_offset + 4 + position * 8 + 4) m

pub take_used : Queue → Memory → Result (Option (ℕ × ℕ) × Queue × Memory)
unfolding used_index used_head used_length
take_used q m = if q.last_used == used_index q.frame m then ok (none, q, m) else do
  position ← rem q.last_used q.size
  let head = used_head q.frame position m
  let written = used_length q.frame position m
  (q, m) ← recycle head (record q { last_used = (q.last_used + 1) % u16_mod }) m
  ok (some (head, written), q, m)

pub notify : ℕ → Trace → Trace
notify index t = write queue_notify index t

pub release : Queue → ℕ → Trace → Memory → Result (Trace × Memory)
release q index t m = do
  let t = write queue_ready 0 (write queue_sel index t)
  m ← free q.frame m
  ok (t, m)
