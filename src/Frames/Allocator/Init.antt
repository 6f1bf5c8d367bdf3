-- ===== src/Frames/Allocator/Init.antt =====
-- `init` of kernel/src/frames.rs: the map at boot.
use the_rack.Base.{
  ℕ, ◌+◌, ◌-◌, ◌*◌, ◌/◌, ◌%◌, min, ◌≤◌, ◌<◌, ◌≡◌, refl, true, false, ok, arith, ltb, u64_mod,
  mul_u64, sub_u64,
}
use the_rack.Frames.Count.{vacant-Takes, vacant_empty, Takes}
use the_rack.Frames.Bitmap.{Bitmap, frame_size, max_ram, max_frames}
use the_rack.Frames.Bitmap.Bit.{taken, IsWf, Marks}
use the_rack.Frames.Bitmap.Range.{set_range-Marks}
use the_rack.Frames.Allocator.{Memory, frame_count, init, div_ceil}
use the_rack.Frames.Allocator.Inv.{Inv, recount-IsWf}

-- RAM as `init` rounds the size it is given.
abbrev pub whole_frames : ℕ → ℕ
whole_frames requested = min requested max_ram / frame_size * frame_size

abbrev image_frames : ℕ → ℕ → ℕ
image_frames kernel_end base = (div_ceil kernel_end frame_size * frame_size - base) / frame_size

-- The state that `init` leaves.
pub record Booted (kernel_end base requested : ℕ) (m n : Memory) : Type 0 where
  pub base_set : n.ram_base ≡ base
  pub length_set : n.ram_length ≡ whole_frames requested
  pub image_taken :
      (j : ℕ) → j < frame_count n → taken n.bitmap j ≡ ltb (base + j * frame_size) kernel_end
  pub balanced : n.bitmap.free + n.bitmap.reserved ≡ frame_count n
  pub bytes_same : n.bytes ≡ m.bytes
  pub inv : Inv n

module _ (kernel_end base requested : ℕ) (m : Memory) (wf : IsWf m.bitmap)
    (blank : (i : ℕ) → taken m.bitmap i ≡ false) (aligned : base % frame_size ≡ 0)
    (above : base ≤ kernel_end) (fits : kernel_end ≤ base + whole_frames requested)
    (no_wrap : base + max_ram < u64_mod) where
  init_state : Bitmap → Memory
  init_state c = record m {
    bitmap = record c {
      reserved = image_frames kernel_end base;
      free = whole_frames requested / frame_size - image_frames kernel_end base;
    };
    ram_base = base;
    ram_length = whole_frames requested;
    image_end = div_ceil kernel_end frame_size * frame_size;
  }

  image_fits : image_frames kernel_end base ≤ whole_frames requested / frame_size
  image_fits = omega arith

  module _ (b c : Bitmap) (first : Marks true 0 (image_frames kernel_end base) m.bitmap b)
      (second : Marks true (whole_frames requested / frame_size) max_frames b c) where
    image-Takes :
        Takes
          (whole_frames requested / frame_size)
          0
          (image_frames kernel_end base)
          (taken m.bitmap)
          (taken c)
    image-Takes = record {
      was_free = λ i p q. blank i;
      now_taken = λ i p q. ground (arith, first.reads i, second.reads i);
      before = λ i p. absurd (omega arith);
      after = λ i p q. ground (arith, first.reads i, second.reads i);
    }

    init_state-Booted : Booted kernel_end base requested m (init_state c)
    unfolding init_state taken
    init_state-Booted = record {
      base_set = refl;
      length_set = refl;
      image_taken = λ j h. ground (arith, first.reads j, second.reads j, blank j);
      balanced = omega (arith, image_fits);
      bytes_same = refl;
      inv = record {
        wf = recount-IsWf c _ _ second.wf;
        base_aligned = aligned;
        length_aligned = omega arith;
        fits = omega arith;
        no_wrap = omega arith;
        beyond = λ i p q. ground (arith, second.reads i);
        counted = omega (
          arith,
          vacant_empty (whole_frames requested / frame_size) (taken m.bitmap) (λ i p. blank i),
          vacant-Takes (whole_frames requested / frame_size) 0 (image_frames kernel_end base) _ _
              (omega arith) image_fits image-Takes,
        );
      };
    }

  -- From a blank bitmap of valid words, for RAM that begins at a multiple of a frame's size, whose base
  -- plus the four gigabytes that the bitmap can track is below 2^64, and that begins with the kernel
  -- image and holds all of it, `init` returns a valid state. RAM is the whole frames of the size that the bitmap can track, a frame is taken exactly if the image
  -- has a byte in it, and every frame is counted once, as free or as reserved.
  pub init-Booted :
      (n : Memory) × (init kernel_end base requested m ≡ ok n)
      × Booted kernel_end base requested m n
  unfolding init init_state
  init-Booted =
      let (b, ran, first) =
        set_range-Marks 0 (image_frames kernel_end base) m.bitmap (omega arith)
          (omega (arith, image_fits)) wf in
      let (c, ran', second) =
        set_range-Marks (whole_frames requested / frame_size) max_frames b (omega arith)
          (omega arith) first.wf in
      let rounded : mul_u64 (div_ceil kernel_end frame_size) frame_size
          ≡ ok (div_ceil kernel_end frame_size * frame_size) =
        ground arith in
      let image : sub_u64 (div_ceil kernel_end frame_size * frame_size) base
          ≡ ok (div_ceil kernel_end frame_size * frame_size - base) =
        ground arith in
      let left : sub_u64 (whole_frames requested / frame_size) (image_frames kernel_end base)
          ≡ ok (whole_frames requested / frame_size - image_frames kernel_end base) =
        ground (arith, image_fits) in
      (init_state c, rw (rounded, image, ran, ran', left) refl, init_state-Booted b c first second)
