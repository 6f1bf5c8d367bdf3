-- ===== src/Virtqueue/Ring.antt =====
-- The descriptor table of kernel/src/virtqueue.rs in memory: what its fields read after a write,
-- and that a slot's fields are its own sixteen bytes.
use the_rack.Base.{
  ℕ, ◌+◌, ◌*◌, ◌^◌, ◌≤◌, ◌<◌, ◌≡◌, ◌≢◌, refl, ◌∙◌, ◌⊎◌, inl, inr, Bool, true, false, arith,
  Bool-cases,
}
use the_rack.Base.Bits.{bit}
use the_rack.Base.Words.{
  write_word, read_word-same, read_word-lt, read_word-write_word, read_word-write_word_apart,
}
use the_rack.Frames.Allocator.{Memory, Frame}
use the_rack.Virtqueue.{
  Buffer, avail_offset, available_index, read_field, descriptor, write_descriptor,
  write_descriptor_next, descriptor_next, descriptor_flags, flags_of, next_bit,
}

-- The bytes of slot `i` are those before.
unfoldable pub SameSlot : Frame → Memory → Memory → ℕ → Type 0
SameSlot frame m n i =
    (a : ℕ) → frame + i * 16 ≤ a → a < frame + i * 16 + 16 → n.bytes a ≡ m.bytes a

pub SameSlot-trans :
    (frame : Frame) (m n o : Memory) (i : ℕ)
    → SameSlot frame m n i
    → SameSlot frame n o i
    → SameSlot frame m o i
unfolding SameSlot
SameSlot-trans frame m n o i first second a p r = second a p r ∙ first a p r

module _ (frame : Frame) (m n : Memory) (i : ℕ) (same : SameSlot frame m n i) where
  pub read_field-same :
      (width offset : ℕ)
      → offset + width ≤ 16
      → read_field width frame (descriptor i + offset) n
        ≡ read_field width frame (descriptor i + offset) m
  unfolding read_field SameSlot
  read_field-same width offset h =
      read_word-same width m.bytes n.bytes _ (λ a p r. same a (omega arith) (omega arith))

  pub read_address-same : read_field 8 frame (descriptor i) n ≡ read_field 8 frame (descriptor i) m
  read_address-same =
      let start : descriptor i + 0 ≡ descriptor i = omega arith in
      rw start at (read_field-same 8 0 (omega arith))

  pub descriptor_next-same : descriptor_next frame i n ≡ descriptor_next frame i m
  unfolding descriptor_next
  descriptor_next-same = read_field-same 2 14 (omega arith)

  pub descriptor_flags-same : descriptor_flags frame i n ≡ descriptor_flags frame i m
  unfolding descriptor_flags
  descriptor_flags-same = read_field-same 2 12 (omega arith)

write_descriptor-SameSlot :
    (frame : Frame) (i j next : ℕ) (b : Buffer) (chained : Bool) (m : Memory)
    → j ≢ i
    → SameSlot frame m (write_descriptor frame i b next chained m) j
unfolding SameSlot write_descriptor write_word
write_descriptor-SameSlot frame i j next b chained m h a p r =
    let apart : (a < frame + i * 16) ⊎ (frame + i * 16 + 16 ≤ a) = ground arith in ground arith

write_descriptor_next-SameSlot :
    (frame : Frame) (i j next : ℕ) (m : Memory)
    → j ≢ i
    → SameSlot frame m (write_descriptor_next frame i next m) j
unfolding SameSlot write_descriptor_next write_word
write_descriptor_next-SameSlot frame i j next m h a p r =
    let apart : (a < frame + i * 16) ⊎ (frame + i * 16 + 16 ≤ a) = ground arith in ground arith

pub descriptor_next-write_descriptor_next :
    (frame : Frame) (i next : ℕ) (m : Memory)
    → next < 2 ^ 16
    → descriptor_next frame i (write_descriptor_next frame i next m) ≡ next
unfolding descriptor_next write_descriptor_next read_field
descriptor_next-write_descriptor_next frame i next m h =
    read_word-write_word 2 m.bytes _ next (omega arith)

-- Every byte is one.
unfoldable pub AreBytes : Memory → Type 0
AreBytes m = (a : ℕ) → m.bytes a < 256

pub descriptor_next-lt :
    (frame : Frame) (i : ℕ) (m : Memory) → AreBytes m → descriptor_next frame i m < 2 ^ 16
unfolding AreBytes descriptor_next read_field
descriptor_next-lt frame i m bytes = omega (arith, read_word-lt 2 m.bytes _ bytes)

pub available_index-same :
    (frame : Frame) (m n : Memory)
    → ((a : ℕ) → frame + avail_offset ≤ a → n.bytes a ≡ m.bytes a)
    → available_index frame n ≡ available_index frame m
unfolding available_index read_field
available_index-same frame m n same =
    read_word-same 2 m.bytes n.bytes _ (λ a p r. same a (omega arith))

-- What a write to a descriptor leaves of the memory.
pub record Writes (frame : Frame) (m n : Memory) (i : ℕ) : Type 0 where
  pub others : (j : ℕ) → j ≢ i → SameSlot frame m n j
  pub apart : (a : ℕ) → (a < frame + i * 16) ⊎ (frame + i * 16 + 16 ≤ a) → n.bytes a ≡ m.bytes a
  pub bytes_fit : AreBytes m → AreBytes n

pub write_descriptor-Writes :
    (frame : Frame) (i next : ℕ) (b : Buffer) (chained : Bool) (m : Memory)
    → Writes frame m (write_descriptor frame i b next chained m) i
unfolding write_descriptor write_word AreBytes
write_descriptor-Writes frame i next b chained m = record {
  others = λ j h. write_descriptor-SameSlot frame i j next b chained m h;
  apart = λ a h. ground arith;
  bytes_fit = λ h a. ground (arith, h a);
}

pub write_descriptor_next-Writes :
    (frame : Frame) (i next : ℕ) (m : Memory)
    → Writes frame m (write_descriptor_next frame i next m) i
unfolding write_descriptor_next write_word AreBytes
write_descriptor_next-Writes frame i next m = record {
  others = λ j h. write_descriptor_next-SameSlot frame i j next m h;
  apart = λ a h. ground arith;
  bytes_fit = λ h a. ground (arith, h a);
}

-- What the four fields of a descriptor hold.
pub record Describes (frame : Frame) (m : Memory) (i : ℕ) (b : Buffer) (chained : Bool)
    : Type 0 where
  pub address : read_field 8 frame (descriptor i) m ≡ b.pa
  pub extent : read_field 4 frame (descriptor i + 8) m ≡ b.len
  pub flags : descriptor_flags frame i m ≡ flags_of b chained

-- A buffer whose fields are of their machine types.
pub record IsWf (b : Buffer) : Type 0 where
  pub address_fits : b.pa < 2 ^ 64
  pub extent_fits : b.len < 2 ^ 32

pub Describes-same :
    (frame : Frame) (m n : Memory) (i : ℕ) (b : Buffer) (chained : Bool)
    → SameSlot frame m n i
    → Describes frame m i b chained
    → Describes frame n i b chained
Describes-same frame m n i b chained same d = record {
  address = read_address-same frame m n i same ∙ d.address;
  extent = read_field-same frame m n i same 4 8 (omega arith) ∙ d.extent;
  flags = descriptor_flags-same frame m n i same ∙ d.flags;
}

-- A descriptor that says NEXT is one of a chain.
pub bit-flags_of : (b : Buffer) (chained : Bool) → bit (flags_of b chained) next_bit ≡ chained
unfolding bit
bit-flags_of b true = elim (Bool-cases b.device_writes) [ inl e ↦ rw e refl | inr e ↦ rw e refl ]
bit-flags_of b false = elim (Bool-cases b.device_writes) [ inl e ↦ rw e refl | inr e ↦ rw e refl ]

flags_of-lt : (b : Buffer) (chained : Bool) → flags_of b chained < 4
flags_of-lt b true = elim (Bool-cases b.device_writes) [
  | inl e ↦ rw e (omega arith)
  | inr e ↦ rw e (omega arith)
]
flags_of-lt b false = elim (Bool-cases b.device_writes) [
  | inl e ↦ rw e (omega arith)
  | inr e ↦ rw e (omega arith)
]

module _ (frame : Frame) (i next : ℕ) (b : Buffer) (chained : Bool) (m : Memory) where
  pub descriptor_next-write_descriptor :
      next < 2 ^ 16 → descriptor_next frame i (write_descriptor frame i b next chained m) ≡ next
  unfolding descriptor_next write_descriptor read_field
  descriptor_next-write_descriptor h = read_word-write_word 2 _ _ next (omega arith)

  pub write_descriptor-Describes :
      IsWf b → Describes frame (write_descriptor frame i b next chained m) i b chained
  unfolding write_descriptor descriptor_flags read_field
  write_descriptor-Describes wf = record {
    address =
        read_word-write_word_apart 8 2 _ _ _ next (inl (omega arith))
        ∙ read_word-write_word_apart 8 2 _ _ _ (flags_of b chained) (inl (omega arith))
        ∙ read_word-write_word_apart 8 4 _ _ _ b.len (inl (omega arith))
        ∙ read_word-write_word 8 _ _ b.pa (omega (arith, wf.address_fits));
    extent =
        read_word-write_word_apart 4 2 _ _ _ next (inl (omega arith))
        ∙ read_word-write_word_apart 4 2 _ _ _ (flags_of b chained) (inl (omega arith))
        ∙ read_word-write_word 4 _ _ b.len (omega (arith, wf.extent_fits));
    flags =
        read_word-write_word_apart 2 2 _ _ _ next (inl (omega arith))
        ∙ read_word-write_word 2 _ _ (flags_of b chained) (omega (arith, flags_of-lt b chained));
  }
