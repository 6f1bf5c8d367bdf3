-- ===== src/Frames/Allocator/Alloc.antt =====
-- `alloc` of kernel/src/frames.rs: the lowest free frame, zeroed.
use the_rack.Base.{
  ℕ, ◌+◌, ◌-◌, ◌*◌, ◌≤◌, ◌<◌, ◌≡◌, refl, ◌⊎◌, inl, inr, true, false, Option, none, some, Result, ok,
  panic, arith, Bool-cases, ltb,
}
use the_rack.Frames.Count.{vacant_full}
use the_rack.Frames.Bitmap.{Bitmap, first_clear, frame_size, max_frames}
use the_rack.Frames.Bitmap.Bit.{taken, Marks, set-Marking}
use the_rack.Frames.Bitmap.Search.{IsLowest, FirstClear, first_clear-FirstClear}
use the_rack.Frames.Allocator.{Memory, Frame, frame_count, from_index, alloc, write_bytes}
use the_rack.Frames.Allocator.Inv.{Inv, Remarks, with_bitmap, take-Inv, take_count}

pub from_index-ok :
    (m : Memory) (i : ℕ)
    → Inv m
    → i < frame_count m
    → from_index m i ≡ ok (m.ram_base + i * frame_size)
unfolding from_index
from_index-ok m i inv h = ground (arith, inv.no_wrap, inv.fits)

-- `n` is `m` after `count` free frames from index `i` on were taken and zeroed.
pub record Allocated (count : ℕ) (m n : Memory) (i : ℕ) : Type 0 where
  pub within : i + count ≤ frame_count m
  pub was_free : (j : ℕ) → i ≤ j → j < i + count → taken m.bitmap j ≡ false
  pub marks : Remarks true i (i + count) m n
  pub zeroed :
      (a : ℕ)
      → m.ram_base + i * frame_size ≤ a
      → a < m.ram_base + (i + count) * frame_size
      → n.bytes a ≡ 0
  pub untouched :
      (a : ℕ)
      → (a < m.ram_base + i * frame_size) ⊎ (m.ram_base + (i + count) * frame_size ≤ a)
      → n.bytes a ≡ m.bytes a
  pub counted : m.bitmap.free ≡ n.bitmap.free + count
  pub reserved_same : n.bitmap.reserved ≡ m.bitmap.reserved
  pub inv : Inv n

-- The state that `alloc` and `alloc_contiguous` leave.
unfoldable pub after_taking : Memory → Bitmap → ℕ → ℕ → Memory
after_taking m c i count =
    with_bitmap m c (m.bitmap.free - count) m.bitmap.reserved
      (write_bytes m.bytes (m.ram_base + i * frame_size) 0 (count * frame_size))

module _ (m : Memory) (c : Bitmap) (i count : ℕ) (inv : Inv m) (k : i + count ≤ frame_count m)
    (was_free : (j : ℕ) → i ≤ j → j < i + count → taken m.bitmap j ≡ false)
    (marks : Marks true i (i + count) m.bitmap c) where
  pub after_taking-Allocated : Allocated count m (after_taking m c i count) i
  unfolding after_taking taken
  after_taking-Allocated =
      let size : i + count - i ≡ count = omega arith in
      let bytes = write_bytes m.bytes (m.ram_base + i * frame_size) 0 (count * frame_size) in
      let kept =
        take-Inv m c i (i + count) inv (omega arith) k was_free marks m.bitmap.reserved bytes in
      record {
        within = k;
        was_free = was_free;
        marks = record {
          reads = marks.reads;
          base_same = refl;
          length_same = refl;
          image_same = refl;
        };
        zeroed = λ a p q. ground arith;
        untouched = λ a p. ground arith;
        counted = omega (arith, take_count m c i (i + count) inv (omega arith) k was_free marks);
        reserved_same = refl;
        inv = rw size at kept;
      }

  pub taking_fits : count ≤ m.bitmap.free
  taking_fits = omega (arith, take_count m c i (i + count) inv (omega arith) k was_free marks)

-- What `alloc` may return: never a panic; nothing only when every frame is taken, with the state as
-- it was; and otherwise the lowest free frame.
abbrev pub AllocReturns : Memory → Result (Memory × Option Frame) → Type 0
AllocReturns m panic = ⊥
AllocReturns m (ok (n, none)) = (n ≡ m) × ((i : ℕ) → i < frame_count m → taken m.bitmap i ≡ true)
AllocReturns m (ok (n, some frame)) =
    (i : ℕ) × (frame ≡ m.ram_base + i * frame_size)
    × IsLowest (taken m.bitmap) (frame_count m) i
    × Allocated 1 m n i

-- A clear bit stands for a frame inside RAM, since those beyond count as taken.
lowest_inside :
    (m : Memory) (i : ℕ) → Inv m → IsLowest (taken m.bitmap) max_frames i → i < frame_count m
lowest_inside m i inv lowest = elim (Bool-cases (ltb i (frame_count m))) [
  | inl inside ↦ ground arith
  | inr outside ↦ ground (arith, inv.beyond i (ground arith) lowest.within, lowest.is_clear)
]

module _ (m : Memory) (i : ℕ) (inv : Inv m) (found : first_clear m.bitmap ≡ some i)
    (lowest : IsLowest (taken m.bitmap) max_frames i) where
  alloc_some : AllocReturns m (alloc m)
  unfolding alloc after_taking
  alloc_some =
      let inside = lowest_inside m i inv lowest in
      let inside' : i + 1 ≤ frame_count m = omega arith in
      let (c, ran, marks) = set-Marking m.bitmap i inv.wf lowest.within in
      let was_free : (j : ℕ) → i ≤ j → j < i + 1 → taken m.bitmap j ≡ false =
        λ j p q. let same : j ≡ i = omega arith in rw same lowest.is_clear in
      let room = taking_fits m c i 1 inv inside' was_free marks in
      let returns : alloc m ≡ ok (after_taking m c i 1, some (m.ram_base + i * frame_size)) =
        ground (arith, from_index-ok m i inv inside) in
      rw returns (
        i,
        refl,
        record {
          within = inside;
          is_clear = lowest.is_clear;
          all_set_below = lowest.all_set_below;
        },
        after_taking-Allocated m c i 1 inv inside' was_free marks,
      )

-- `alloc` returns in every valid state. It finds nothing exactly when every frame of RAM is taken.
-- Otherwise the frame is the lowest that was free; it alone becomes taken, its bytes read zero, no
-- other byte changes, the free count drops by one and the state is valid again.
pub alloc-AllocReturns : (m : Memory) → Inv m → AllocReturns m (alloc m)
unfolding alloc
alloc-AllocReturns m inv = go (first_clear m.bitmap) refl (first_clear-FirstClear m.bitmap inv.wf)
  where
    go :
        (o : Option ℕ) → first_clear m.bitmap ≡ o → FirstClear m.bitmap o → AllocReturns m (alloc m)
    go none found full = rw (found, alloc) (refl, λ i h. full i (omega (arith, inv.fits)))
    go (some i) found lowest = alloc_some m i inv found lowest

-- In a valid state with a positive free count, `alloc` returns a frame.
pub alloc_succeeds :
    (m : Memory)
    → Inv m
    → 0 < m.bitmap.free
    → (n : Memory) × (frame : Frame) × (alloc m ≡ ok (n, some frame))
alloc_succeeds m inv room = go (alloc m) refl (alloc-AllocReturns m inv)
  where
    go :
        (r : Result (Memory × Option Frame))
        → alloc m ≡ r
        → AllocReturns m r
        → (n : Memory) × (frame : Frame) × (alloc m ≡ ok (n, some frame))
    go panic e never = absurd never
    go (ok (n, none)) e (same, full) =
        absurd (omega (arith, inv.counted, vacant_full (frame_count m) (taken m.bitmap) full))
    go (ok (n, some frame)) e returns = (n, frame, e)
