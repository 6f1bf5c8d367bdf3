-- ===== src/Frames/Allocator/Tests.antt =====
-- The allocator's theorems at a machine with four frames of RAM, one of them the kernel's.
use the_rack.Base.{ℕ, ◌+◌, ◌-◌, ◌*◌, ◌≡◌, ◌<◌, ◌⊎◌, refl, some, ok, panic, arith, u64_mod}
use the_rack.Frames.Bitmap.{frame_size}
use the_rack.Frames.Allocator.RoundTrip.{SameMap, alloc-free, alloc-Inv}
use the_rack.Frames.Allocator.{
  Memory, Frame, init, alloc, alloc_contiguous, free, reserve_range, adopt,
}
use the_rack.Frames.Allocator.Inv.{Inv}
use the_rack.Frames.Allocator.Init.{Booted, init-Booted, whole_frames}
use the_rack.Frames.Allocator.Alloc.{AllocReturns, alloc-AllocReturns, alloc_succeeds}
use the_rack.Frames.Allocator.Release.{FreeReturns, free-FreeReturns}
use the_rack.Frames.Allocator.Contiguous.{
  RunReturns, alloc_contiguous-RunReturns, alloc_contiguous_succeeds,
}
use the_rack.Frames.Allocator.Reserve.{
  ReserveReturns, reserve_range-ReserveReturns, reserve_range_top,
}
use the_rack.Frames.Allocator.Adopt.{AdoptReturns, adopt-AdoptReturns}
use the_rack.Frames.Allocator.Sample.{
  ram_start, unbooted, unbooted-IsWf, unbooted-blank, booted, booted-Inv, booted_at, booted_size,
  booted_counts, booted_free, some_free,
}

init-Booted_example :
    (n : Memory) × (init (ram_start + 100) ram_start (4 * frame_size) unbooted ≡ ok n)
    × Booted (ram_start + 100) ram_start (4 * frame_size) unbooted n
init-Booted_example =
    init-Booted (ram_start + 100) ram_start (4 * frame_size) unbooted unbooted-IsWf unbooted-blank
      refl (omega arith) (omega arith) (omega arith)

alloc-AllocReturns_example : AllocReturns booted (alloc booted)
alloc-AllocReturns_example = alloc-AllocReturns booted booted-Inv

free-FreeReturns_example :
    FreeReturns booted (ram_start + frame_size) (free (ram_start + frame_size) booted)
free-FreeReturns_example = free-FreeReturns booted (ram_start + frame_size) booted-Inv

alloc_contiguous-RunReturns_example :
    ((◌≡◌ {A = ℕ} 2 0) × (alloc_contiguous 2 booted ≡ panic))
    ⊎ ((0 < 2) × RunReturns 2 booted (alloc_contiguous 2 booted))
alloc_contiguous-RunReturns_example = alloc_contiguous-RunReturns 2 booted booted-Inv

adopt-AdoptReturns_example :
    AdoptReturns ram_start
      (whole_frames (8 * frame_size))
      booted
      (adopt ram_start (8 * frame_size) booted)
adopt-AdoptReturns_example =
    adopt-AdoptReturns ram_start (8 * frame_size) booted booted-Inv (omega (arith, booted_at))

reserve_range-ReserveReturns_example :
    ReserveReturns (ram_start + 5000) 10 booted (reserve_range (ram_start + 5000) 10 booted)
reserve_range-ReserveReturns_example =
    reserve_range-ReserveReturns (ram_start + 5000) 10 booted booted-Inv (omega arith) (omega arith)
      (omega (arith, booted_counts))

reserve_range_top_example : reserve_range (u64_mod - 100) 50 booted ≡ panic
reserve_range_top_example =
    reserve_range_top (u64_mod - 100) 50 booted (omega arith) (omega arith) (omega arith)

first_alloc : (n : Memory) × (frame : Frame) × (alloc booted ≡ ok (n, some frame))
first_alloc = alloc_succeeds booted booted-Inv some_free

alloc-free_example : (o : Memory) × (free first_alloc.1 first_alloc.0 ≡ ok o) × SameMap booted o
alloc-free_example = alloc-free booted first_alloc.0 first_alloc.1 booted-Inv first_alloc.2

first_free : (o : Memory) × (free first_alloc.1 first_alloc.0 ≡ ok o) × SameMap booted o
first_free = alloc-free booted first_alloc.0 first_alloc.1 booted-Inv first_alloc.2

run_of_two : (n : Memory) × (frame : Frame) × (alloc_contiguous 2 booted ≡ ok (n, some frame))
run_of_two =
    alloc_contiguous_succeeds 2 1 booted (omega arith) booted-Inv (omega (arith, booted_size))
      (λ j p q. booted_free j p (omega arith))

first_alloc-Inv : Inv first_alloc.0
first_alloc-Inv = alloc-Inv booted first_alloc.0 first_alloc.1 booted-Inv first_alloc.2
