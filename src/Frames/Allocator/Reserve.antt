-- ===== src/Frames/Allocator/Reserve.antt =====
-- `reserve_range` of kernel/src/frames.rs.
use the_rack.Base.{
  ℕ, ◌+◌, ◌-◌, ◌*◌, ◌^◌, ◌/◌, ◌≤◌, ◌<◌, ◌≡◌, refl, ◌⊎◌, inl, inr, Bool, true, false, ◌&&◌, ◌||◌,
  Option, none, some, Result, ok, panic, arith, leb, ltb, u64_mod, Bool-cases,
}
use the_rack.Frames.Bitmap.{set, frame_size}
use the_rack.Frames.Bitmap.Bit.{taken, set-Marking}
use the_rack.Frames.Bitmap.Range.{each-Marks}
use the_rack.Frames.Allocator.{
  Memory, Reply, done, refused, outside_ram, already_taken, frame_count, find_taken, reserve_frames,
  reserve_range, div_ceil,
}
use the_rack.Frames.Allocator.Inv.{Inv, Remarks, with_bitmap, take-Inv, take_count}
use the_rack.Frames.Allocator.Alloc.{from_index-ok}
use the_rack.Frames.Allocator.Scan.{FirstTaken, find_taken-FirstTaken}

-- Frames `first` up to `first + count` were free and are now reserved.
record Reserved (first count : ℕ) (m n : Memory) : Type 0 where
  was_free : (j : ℕ) → first ≤ j → j < first + count → taken m.bitmap j ≡ false
  marks : Remarks true first (first + count) m n
  bytes_same : n.bytes ≡ m.bytes
  counted : m.bitmap.free ≡ n.bitmap.free + count
  reserved_grows : n.bitmap.reserved ≡ m.bitmap.reserved + count
  inv : Inv n

-- What the part under the lock returns.
abbrev FramesReturns : ℕ → ℕ → Memory → Result (Memory × Reply ℕ) → Type 0
FramesReturns first count m panic = ⊥
FramesReturns first count m (ok (n, done k)) = (k ≡ count) × Reserved first count m n
FramesReturns first count m (ok (n, refused (outside_ram a))) = ⊥
FramesReturns first count m (ok (n, refused (already_taken a))) =
    (n ≡ m)
    × (j : ℕ) × (a ≡ m.ram_base + j * frame_size)
    × FirstTaken m.bitmap first (first + count) (some j)

module _ (first count : ℕ) (m : Memory) (inv : Inv m) (h : first + count ≤ frame_count m)
    (room : m.bitmap.reserved < 2 ^ 63) where
  reserve_free :
      find_taken count first m.bitmap ≡ ok none
      → FirstTaken m.bitmap first (first + count) none
      → FramesReturns first count m (reserve_frames first count m)
  unfolding reserve_frames taken
  reserve_free found was_free =
      let (c, ran, marks) =
        each-Marks true set set-Marking count first (first + count) m.bitmap refl
          (omega (arith, inv.fits)) inv.wf in
      let size : first + count - first ≡ count = omega arith in
      let taking = take_count m c first (first + count) inv (omega arith) h was_free marks in
      let kept =
        take-Inv m c first (first + count) inv (omega arith) h was_free marks
          (m.bitmap.reserved + count) m.bytes in
      let returns : reserve_frames first count m
          ≡ ok (
            with_bitmap m c (m.bitmap.free - count) (m.bitmap.reserved + count) m.bytes,
            done count,
          ) =
        ground (arith, marks.free_same, marks.reserved_same, inv.fits, taking) in
      rw returns (
        refl,
        record {
          was_free = was_free;
          marks = record {
            reads = marks.reads;
            base_same = refl;
            length_same = refl;
            image_same = refl;
          };
          bytes_same = refl;
          counted = omega (arith, taking);
          reserved_grows = refl;
          inv = rw size at kept;
        },
      )

  reserve_frames-FramesReturns : FramesReturns first count m (reserve_frames first count m)
  unfolding reserve_frames
  reserve_frames-FramesReturns =
      let (o, ran, first_taken) =
        find_taken-FirstTaken count first (first + count) m.bitmap refl (omega (arith, inv.fits))
          inv.wf in
      go o ran first_taken
    where
      go :
          (o : Option ℕ)
          → find_taken count first m.bitmap ≡ ok o
          → FirstTaken m.bitmap first (first + count) o
          → FramesReturns first count m (reserve_frames first count m)
      go none found f = reserve_free found f
      go (some j) found f =
          rw (found, reserve_frames, from_index-ok m j inv (omega (arith, f.1))) (refl, j, refl, f)

-- Whether frame `j` has a byte of `base..base + len`.
abbrev pub touches : Memory → ℕ → ℕ → ℕ → Bool
touches m base len j =
    ltb base (m.ram_base + (j + 1) * frame_size) && ltb (m.ram_base + j * frame_size) (base + len)

abbrev pub OutsideRam : Memory → ℕ → ℕ → Type 0
OutsideRam m base len = (base < m.ram_base) ⊎ (m.ram_base + m.ram_length < base + len)

-- What `reserve_range` may return: never a panic; a refusal leaves the state as it was and names
-- its reason, the range or the lowest frame of it that is taken; and otherwise every frame that
-- the range touches was free and is taken, and both counters moved by their number.
abbrev pub ReserveReturns : ℕ → ℕ → Memory → Result (Memory × Reply ℕ) → Type 0
ReserveReturns base len m panic = ⊥
ReserveReturns base len m (ok (n, refused (outside_ram a))) =
    (n ≡ m) × (a ≡ base) × OutsideRam m base len
ReserveReturns base len m (ok (n, refused (already_taken a))) =
    (n ≡ m)
    × (j : ℕ) × (a ≡ m.ram_base + j * frame_size)
    × (touches m base len j ≡ true)
    × (taken m.bitmap j ≡ true)
    × ((i : ℕ) → i < j → touches m base len i ≡ true → taken m.bitmap i ≡ false)
ReserveReturns base len m (ok (n, done k)) =
    ((j : ℕ) → touches m base len j ≡ true → taken m.bitmap j ≡ false)
    × ((j : ℕ) → taken n.bitmap j ≡ (touches m base len j || taken m.bitmap j))
    × (n.bytes ≡ m.bytes)
    × (m.bitmap.free ≡ n.bitmap.free + k)
    × (n.bitmap.reserved ≡ m.bitmap.reserved + k)
    × Inv n

abbrev first_frame : Memory → ℕ → ℕ
first_frame m base = (base / frame_size * frame_size - m.ram_base) / frame_size

abbrev frames_spanned : ℕ → ℕ → ℕ
frames_spanned base len =
    (div_ceil (base + len) frame_size * frame_size - base / frame_size * frame_size) / frame_size

module _ (base len : ℕ) (m : Memory) (inv : Inv m) (nonempty : 0 < len)
    (below_top : base + len + frame_size ≤ u64_mod) where
  outside_refused :
      OutsideRam m base len → reserve_range base len m ≡ ok (m, refused (outside_ram base))
  unfolding reserve_range
  outside_refused out = ground (arith, inv.no_wrap, inv.base_aligned, inv.length_aligned)

  module _ (low : m.ram_base ≤ base) (high : base + len ≤ m.ram_base + m.ram_length) where
    spanned_inside : first_frame m base + frames_spanned base len ≤ frame_count m
    spanned_inside = omega (arith, inv.base_aligned, inv.length_aligned)

    touches-eq :
        (j : ℕ)
        → touches m base len j
          ≡ (leb (first_frame m base) j && ltb j (first_frame m base + frames_spanned base len))
    touches-eq j = ground (arith, inv.base_aligned, inv.length_aligned)

    inside_locked :
        reserve_range base len m ≡ reserve_frames (first_frame m base) (frames_spanned base len) m
    unfolding reserve_range
    inside_locked = ground (arith, inv.no_wrap, inv.base_aligned, inv.length_aligned)

    widen :
        (r : Result (Memory × Reply ℕ))
        → FramesReturns (first_frame m base) (frames_spanned base len) m r
        → ReserveReturns base len m r
    widen panic f = f
    widen (ok (n, refused (outside_ram a))) f = absurd f
    widen (ok (n, refused (already_taken a))) (same, j, e, (p, q, t, below)) = (
      same,
      j,
      e,
      ground (arith, touches-eq j),
      t,
      λ i h k. below i (ground (arith, touches-eq i)) h,
    )
    widen (ok (n, done k)) (e, r) = (
      λ j h. r.was_free j (ground (arith, touches-eq j)) (ground (arith, touches-eq j)),
      λ j. ground (arith, touches-eq j, r.marks.reads j),
      r.bytes_same,
      omega (arith, r.counted),
      omega (arith, r.reserved_grows),
      r.inv,
    )

-- In a valid state `reserve_range` returns on every nonempty range that ends a frame below the top
-- of the address space. It refuses a range that leaves RAM or touches a taken frame and then changes
-- nothing; otherwise exactly the frames that the range touches, all free before, become taken, no
-- byte changes and both counters move by their number. (`reserved` must have room to count.)
pub reserve_range-ReserveReturns :
    (base len : ℕ) (m : Memory)
    → Inv m
    → 0 < len
    → base + len + frame_size ≤ u64_mod
    → m.bitmap.reserved < 2 ^ 63
    → ReserveReturns base len m (reserve_range base len m)
reserve_range-ReserveReturns base len m inv nonempty below_top room =
    elim (Bool-cases (ltb base m.ram_base || ltb (m.ram_base + m.ram_length) (base + len))) [
      | inl out ↦
          let outside : OutsideRam m base len = ground arith in
          rw (outside_refused base len m inv nonempty below_top outside) (refl, refl, outside)
      | inr within ↦
          let low : m.ram_base ≤ base = ground arith in
          let high : base + len ≤ m.ram_base + m.ram_length = ground arith in
          rw (inside_locked base len m inv nonempty below_top low high) (
            widen base len m inv nonempty below_top low high _ (
              reserve_frames-FramesReturns _ _ m inv
                (spanned_inside base len m inv nonempty below_top low high) room))
    ]

-- A nonempty range that ends below 2^64 but in the last frame of the address space makes
-- `reserve_range` panic: rounding its end up leaves 64 bits, so it is not refused.
pub reserve_range_top :
    (base len : ℕ) (m : Memory)
    → 0 < len
    → base + len < u64_mod
    → u64_mod < base + len + frame_size
    → reserve_range base len m ≡ panic
unfolding reserve_range
reserve_range_top base len m nonempty fits high = ground arith
