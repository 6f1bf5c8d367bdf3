-- ===== src/Frames/Allocator/Contiguous.antt =====
-- `alloc_contiguous` of kernel/src/frames.rs: first fit, zeroed.
use the_rack.Base.{
  ℕ, zero, suc, ◌⊎◌, inl, inr, ◌+◌, ◌*◌, ◌≤◌, ◌<◌, ◌≡◌, refl, true, false, Option, none, some,
  Result, ok, panic, arith, ltb, mul_u64,
}
use the_rack.Frames.Bitmap.{set, frame_size}
use the_rack.Frames.Bitmap.Bit.{taken, set-Marking}
use the_rack.Frames.Bitmap.Range.{each-Marks}
use the_rack.Frames.Allocator.{Memory, Frame, frame_count, find_run, alloc_contiguous}
use the_rack.Frames.Allocator.Inv.{Inv}
use the_rack.Frames.Allocator.Alloc.{
  Allocated, after_taking, after_taking-Allocated, taking_fits, from_index-ok,
}
use the_rack.Frames.Allocator.Scan.{Blocked, FirstRun, find_run_lem}

-- What `alloc_contiguous` may return: never a panic, nothing only when RAM has no run of `count`
-- free frames, and otherwise the lowest such run.
abbrev pub RunReturns : ℕ → Memory → Result (Memory × Option Frame) → Type 0
RunReturns count m panic = ⊥
RunReturns count m (ok (n, none)) =
    (n ≡ m) × ((s : ℕ) → s + count ≤ frame_count m → Blocked (taken m.bitmap) count s)
RunReturns count m (ok (n, some frame)) =
    (i : ℕ) × (frame ≡ m.ram_base + i * frame_size)
    × ((s : ℕ) → s < i → Blocked (taken m.bitmap) count s)
    × Allocated count m n i

module _ (count : ℕ) (m : Memory) (i : ℕ) (inv : Inv m) (h : 0 < count)
    (found : find_run count (frame_count m) 0 0 0 m.bitmap ≡ ok (some i))
    (first : FirstRun (taken m.bitmap) count (frame_count m) (some i)) where
  run_some : RunReturns count m (alloc_contiguous count m)
  unfolding alloc_contiguous after_taking
  run_some =
      let (c, ran, marks) =
        each-Marks true set set-Marking count i (i + count) m.bitmap refl
          (omega (arith, first.0, inv.fits)) inv.wf in
      let room = taking_fits m c i count inv first.0 first.1 marks in
      let size : mul_u64 count frame_size ≡ ok (count * frame_size) =
        ground (arith, first.0, inv.fits) in
      let returns : alloc_contiguous count m
          ≡ ok (after_taking m c i count, some (m.ram_base + i * frame_size)) =
        ground (
          arith,
          from_index-ok m i inv (omega (arith, first.0)),
          marks.free_same,
          marks.reserved_same,
        ) in
      rw returns (i, refl, first.2, after_taking-Allocated m c i count inv first.0 first.1 marks)

-- For at least one frame.
pub alloc_contiguous_positive :
    (count : ℕ) (m : Memory) → 0 < count → Inv m → RunReturns count m (alloc_contiguous count m)
unfolding alloc_contiguous
alloc_contiguous_positive count m h inv =
    let (o, ran, first) =
      find_run_lem count (frame_count m) m.bitmap h (omega (arith, inv.fits)) inv.wf in
    go o ran first
  where
    go :
        (o : Option ℕ)
        → find_run count (frame_count m) 0 0 0 m.bitmap ≡ ok o
        → FirstRun (taken m.bitmap) count (frame_count m) o
        → RunReturns count m (alloc_contiguous count m)
    go none found full =
        let some_frame : ltb 0 count ≡ true = ground arith in
        rw (some_frame, found, alloc_contiguous) (refl, full)
    go (some i) found first = run_some count m i inv h found first

-- In a valid state `alloc_contiguous` panics on a count of zero, and returns for every other. It finds
-- nothing exactly when every run of `count` frames of RAM holds a taken one. Otherwise it takes the
-- lowest free run: its frames alone become taken, their bytes read zero, no other byte changes, the
-- free count drops by `count` and the state is valid again.
pub alloc_contiguous-RunReturns :
    (count : ℕ) (m : Memory)
    → Inv m
    → ((count ≡ 0) × (alloc_contiguous count m ≡ panic))
      ⊎ ((0 < count) × RunReturns count m (alloc_contiguous count m))
unfolding alloc_contiguous
alloc_contiguous-RunReturns zero m inv = inl (refl, refl)
alloc_contiguous-RunReturns (suc count) m inv =
    inr (omega arith, alloc_contiguous_positive (suc count) m (omega arith) inv)

-- In a valid state where RAM has a run of `count` free frames, at least one, `alloc_contiguous`
-- returns a frame.
pub alloc_contiguous_succeeds :
    (count s : ℕ) (m : Memory)
    → 0 < count
    → Inv m
    → s + count ≤ frame_count m
    → ((j : ℕ) → s ≤ j → j < s + count → taken m.bitmap j ≡ false)
    → (n : Memory) × (frame : Frame) × (alloc_contiguous count m ≡ ok (n, some frame))
alloc_contiguous_succeeds count s m h inv inside run_free =
    go (alloc_contiguous count m) refl (alloc_contiguous_positive count m h inv)
  where
    go :
        (r : Result (Memory × Option Frame))
        → alloc_contiguous count m ≡ r
        → RunReturns count m r
        → (n : Memory) × (frame : Frame) × (alloc_contiguous count m ≡ ok (n, some frame))
    go panic e never = absurd never
    go (ok (n, none)) e (same, blocked) =
        let (j, p, q, hit) = blocked s inside in ground (arith, run_free j p q)
    go (ok (n, some frame)) e returns = (n, frame, e)
