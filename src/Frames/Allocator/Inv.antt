-- ===== src/Frames/Allocator/Inv.antt =====
-- The allocator's invariant, and that taking or releasing a range of frames keeps it.
use the_rack.Base.{
  ℕ, ◌+◌, ◌-◌, ◌%◌, ◌≤◌, ◌<◌, ◌≡◌, Bool, true, false, arith, ◌&&◌, if◌then◌else◌, leb, ltb, u64_mod,
}
use the_rack.Frames.Count.{vacant, vacant-Takes, vacant-le, Takes}
use the_rack.Frames.Bitmap.{Bitmap, frame_size, max_ram, max_frames}
use the_rack.Frames.Bitmap.Bit.{taken, IsWf, Marks}
use the_rack.Frames.Allocator.{Memory, frame_count}

-- RAM is whole frames that the bitmap can hold, frames past its end count as taken, and `free`
-- counts the frames in RAM that are not taken.
pub record Inv (m : Memory) : Type 0 where
  pub wf : IsWf m.bitmap
  pub base_aligned : m.ram_base % frame_size ≡ 0
  pub length_aligned : m.ram_length % frame_size ≡ 0
  pub fits : m.ram_length ≤ max_ram
  pub no_wrap : m.ram_base + m.ram_length < u64_mod
  pub beyond : (i : ℕ) → frame_count m ≤ i → i < max_frames → taken m.bitmap i ≡ true
  pub counted : m.bitmap.free ≡ vacant (frame_count m) (taken m.bitmap)

-- `n` is `m` with the frames from `s` up to `e` made taken (or free) and nothing else of the map
-- changed.
pub record Remarks (v : Bool) (s e : ℕ) (m n : Memory) : Type 0 where
  pub reads : (i : ℕ) → taken n.bitmap i ≡ (if leb s i && ltb i e then v else taken m.bitmap i)
  pub base_same : n.ram_base ≡ m.ram_base
  pub length_same : n.ram_length ≡ m.ram_length
  pub image_same : n.image_end ≡ m.image_end

-- A state with the bitmap `b`, but for its counters, and the bytes `bytes`.
abbrev pub with_bitmap : Memory → Bitmap → ℕ → ℕ → (ℕ → ℕ) → Memory
with_bitmap m b free reserved bytes = record m {
  bitmap = record b { free = free; reserved = reserved };
  bytes = bytes;
}

pub recount-IsWf :
    (b : Bitmap) (free reserved : ℕ) → IsWf b → IsWf (record b { free = free; reserved = reserved })
recount-IsWf b free reserved wf = record { sized = wf.sized; words = wf.words }

module _ (m : Memory) (c : Bitmap) (s e : ℕ) (inv : Inv m) (h : s ≤ e) (k : e ≤ frame_count m) where
  module _ (vacant_before : (i : ℕ) → s ≤ i → i < e → taken m.bitmap i ≡ false)
      (marks : Marks true s e m.bitmap c) where
    take-Takes : Takes (frame_count m) s e (taken m.bitmap) (taken c)
    take-Takes = record {
      was_free = vacant_before;
      now_taken = λ i a b. ground (arith, marks.reads i);
      before = λ i a. ground (arith, marks.reads i);
      after = λ i a b. ground (arith, marks.reads i);
    }

    pub take_count : m.bitmap.free ≡ vacant (frame_count m) (taken c) + (e - s)
    take_count = omega (arith, inv.counted, vacant-Takes (frame_count m) s e _ _ h k take-Takes)

    pub take-Inv :
        (reserved : ℕ) (bytes : ℕ → ℕ)
        → Inv (with_bitmap m c (m.bitmap.free - (e - s)) reserved bytes)
    unfolding taken
    take-Inv reserved bytes = record {
      wf = recount-IsWf c _ reserved marks.wf;
      base_aligned = inv.base_aligned;
      length_aligned = inv.length_aligned;
      fits = inv.fits;
      no_wrap = inv.no_wrap;
      beyond = λ i a b. ground (arith, marks.reads i, inv.beyond i a b);
      counted = omega (arith, take_count);
    }

  module _ (taken_before : (i : ℕ) → s ≤ i → i < e → taken m.bitmap i ≡ true)
      (marks : Marks false s e m.bitmap c) where
    release-Takes : Takes (frame_count m) s e (taken c) (taken m.bitmap)
    release-Takes = record {
      was_free = λ i a b. ground (arith, marks.reads i);
      now_taken = taken_before;
      before = λ i a. ground (arith, marks.reads i);
      after = λ i a b. ground (arith, marks.reads i);
    }

    pub release_count : vacant (frame_count m) (taken c) ≡ m.bitmap.free + (e - s)
    release_count =
        omega (arith, inv.counted, vacant-Takes (frame_count m) s e _ _ h k release-Takes)

    pub release_bound : m.bitmap.free + (e - s) ≤ max_frames
    release_bound = omega (arith, release_count, vacant-le (frame_count m) (taken c), inv.fits)

    pub release-Inv :
        (reserved : ℕ) (bytes : ℕ → ℕ)
        → Inv (with_bitmap m c (m.bitmap.free + (e - s)) reserved bytes)
    unfolding taken
    release-Inv reserved bytes = record {
      wf = recount-IsWf c _ reserved marks.wf;
      base_aligned = inv.base_aligned;
      length_aligned = inv.length_aligned;
      fits = inv.fits;
      no_wrap = inv.no_wrap;
      beyond = λ i a b. ground (arith, marks.reads i, inv.beyond i a b);
      counted = omega (arith, release_count);
    }
