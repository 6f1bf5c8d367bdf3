-- ===== src/Frames/Allocator/RoundTrip.antt =====
-- `alloc` and `free` of kernel/src/frames.rs together.
use the_rack.Base.{
  ℕ, ◌+◌, ◌*◌, ◌≤◌, ◌<◌, ◌≡◌, ◌≢◌, refl, subst, true, false, some, Result, ok, panic, arith,
}
use the_rack.Frames.Bitmap.{frame_size}
use the_rack.Frames.Bitmap.Bit.{taken}
use the_rack.Frames.Allocator.{
  Memory, Frame, frame_count, alloc, free, alloc_contiguous, free_contiguous,
}
use the_rack.Frames.Allocator.Inv.{Inv}
use the_rack.Frames.Allocator.Alloc.{Allocated, AllocReturns, alloc-AllocReturns}
use the_rack.Frames.Allocator.Release.{
  IsHeld, Released, FreeReturns, free-FreeReturns, free_contiguous-Released,
}
use the_rack.Frames.Allocator.Contiguous.{RunReturns, alloc_contiguous_positive}

-- The map of `n` is that of `m`.
pub record SameMap (m n : Memory) : Type 0 where
  pub taken_same : (i : ℕ) → taken n.bitmap i ≡ taken m.bitmap i
  pub free_same : n.bitmap.free ≡ m.bitmap.free
  pub reserved_same : n.bitmap.reserved ≡ m.bitmap.reserved
  pub inv : Inv n

undo : (count i : ℕ) (m n o : Memory) → Allocated count m n i → Released count n o i → SameMap m o
undo count i m n o a r = record {
  taken_same = λ j. ground (arith, a.marks.reads j, r.marks.reads j, a.was_free j);
  free_same = omega (arith, a.counted, r.counted);
  reserved_same = ground (arith, a.reserved_same, r.reserved_same);
  inv = r.inv;
}

-- A run of frames that `alloc_contiguous` returned in a valid state can be handed back at once,
-- and that restores the map, both counters and the validity of the state.
pub alloc_contiguous-free_contiguous :
    (count : ℕ) (m n : Memory) (frame : Frame)
    → 0 < count
    → Inv m
    → alloc_contiguous count m ≡ ok (n, some frame)
    → (o : Memory) × (free_contiguous frame count n ≡ ok o) × SameMap m o
alloc_contiguous-free_contiguous count m n frame h inv ran =
    let (i, e, lowest, a) =
      subst (RunReturns count m) ran (alloc_contiguous_positive count m h inv) in
    let placed : frame ≡ n.ram_base + i * frame_size = ground (arith, e, a.marks.base_same) in
    let inside : i + count ≤ frame_count n = omega (arith, a.within, a.marks.length_same) in
    let (o, ran', r) =
      free_contiguous-Released n frame i count a.inv placed inside
        (λ j p q. ground (arith, a.marks.reads j)) in
    (o, ran', undo count i m n o a r)

-- A frame that `alloc` returned in a valid state can be handed back at once, and that restores
-- the map, both counters and the validity of the state.
pub alloc-free :
    (m n : Memory) (frame : Frame)
    → Inv m
    → alloc m ≡ ok (n, some frame)
    → (o : Memory) × (free frame n ≡ ok o) × SameMap m o
alloc-free m n frame inv ran =
    let (i, e, lowest, a) = subst (AllocReturns m) ran (alloc-AllocReturns m inv) in
    let held : IsHeld n frame i = record {
      placed = ground (arith, e, a.marks.base_same);
      inside = omega (arith, a.within, a.marks.length_same);
      held = ground (arith, a.marks.reads i);
    } in
    go i a held (free frame n) refl (free-FreeReturns n frame a.inv)
  where
    go :
        (i : ℕ)
        → Allocated 1 m n i
        → IsHeld n frame i
        → (r : Result Memory) → free frame n ≡ r
        → FreeReturns n frame r
        → (o : Memory) × (free frame n ≡ ok o) × SameMap m o
    go i a held panic e absent = absurd (absent i held)
    go i a held (ok o) e (j, held', r) =
        let same : j ≡ i = omega (arith, held.placed, held'.placed) in
        (o, e, undo 1 i m n o a (subst (Released 1 n o) same r))

-- In a valid state, handing a frame back a second time at once is a panic.
pub free_twice : (m n : Memory) (frame : Frame) → Inv m → free frame m ≡ ok n → free frame n ≡ panic
free_twice m n frame inv ran =
    let (i, held, r) = subst (FreeReturns m frame) ran (free-FreeReturns m frame inv) in
    go i held r (free frame n) refl (free-FreeReturns n frame r.inv)
  where
    go :
        (i : ℕ)
        → IsHeld m frame i
        → Released 1 m n i
        → (q : Result Memory) → free frame n ≡ q
        → FreeReturns n frame q
        → free frame n ≡ panic
    go i held r panic e absent = e
    go i held r (ok o) e (j, held', r') =
        let same : j ≡ i = omega (arith, held.placed, held'.placed, r.marks.base_same) in
        let still : taken n.bitmap i ≡ true =
          subst (λ k. taken n.bitmap k ≡ true) same held'.held in
        ground (arith, r.marks.reads i)

-- Two allocations in a row return different frames.
pub alloc_distinct :
    (m n o : Memory) (f g : Frame)
    → Inv m
    → alloc m ≡ ok (n, some f)
    → alloc n ≡ ok (o, some g)
    → f ≢ g
alloc_distinct m n o f g inv first second same =
    let (i, e, _, a) = subst (AllocReturns m) first (alloc-AllocReturns m inv) in
    let (j, e', lowest, b) = subst (AllocReturns n) second (alloc-AllocReturns n a.inv) in
    let at : j ≡ i = omega (arith, a.marks.base_same) in
    let clear : taken n.bitmap i ≡ false =
      subst (λ k. taken n.bitmap k ≡ false) at lowest.is_clear in
    ground (arith, a.marks.reads i)

pub alloc-Inv : (m n : Memory) (frame : Frame) → Inv m → alloc m ≡ ok (n, some frame) → Inv n
alloc-Inv m n frame inv ran =
    let (i, e, lowest, a) = subst (AllocReturns m) ran (alloc-AllocReturns m inv) in a.inv
