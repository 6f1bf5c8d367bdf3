-- ===== src/Fdt/Tests.antt =====
-- The device tree's theorems at a tree of kernel/src/fdt.rs with a root that is compatible with "a".
use the_rack.Base.{ℕ, ◌-◌, ◌≡◌, refl, Bool, true, List, [], ◌∷◌, arith, get_or, if◌then◌else◌, ltb}
use the_rack.Frames.Bitmap.{new}
use the_rack.Frames.Allocator.{Memory}
use the_rack.Fdt.{Blob, Header, accepted, read_header, check_blocks, probe, init, be32}
use the_rack.Fdt.Probe.{IsSound, ProbeReturns, probe-ProbeReturns, InitReturns, init-InitReturns}
use the_rack.Fdt.Walk.{Node, walk, next}
use the_rack.Fdt.Walk.Steps.{IsOpen}
use the_rack.Fdt.Walk.Next.{NextReturns, next-NextReturns}
use the_rack.Fdt.Lookup.{find_compatible_after}
use the_rack.Fdt.Lookup.Ends.{FindReturns, find_compatible_after-FindReturns}
use the_rack.Fdt.MemoryMap.{memory_map}
use the_rack.Fdt.MemoryMap.Reserving.{MapReturns}
use the_rack.Fdt.MemoryMap.Whole.{memory_map-MapReturns}

-- A big-endian word below 256.
abbrev word : ℕ → List ℕ → List ℕ
word v rest = 0 ∷ 0 ∷ 0 ∷ v ∷ rest

abbrev tree : List ℕ
tree =
    0xd0
    ∷ 0x0d
    ∷ 0xfe
    ∷ 0xed
    ∷ word 88 (
        word 40 (
          word 72 (
            word 40 (
              word 17 (
                word 16 (
                  word 0 (
                    word 11 (
                      word 32 (
                        word 1 (
                          word 0 (
                            word 3 (
                              word 2 (
                                word 0 (
                                  97
                                  ∷ 0
                                  ∷ 0
                                  ∷ 0
                                  ∷ word 2 (
                                      word 9 (
                                        99 ∷ 111 ∷ 109 ∷ 112 ∷ 97 ∷ 116 ∷ 105 ∷ 98 ∷ 108 ∷ 101 ∷ 0
                                        ∷ []))))))))))))))))

abbrev base : ℕ
base = 0x4000_0000

abbrev tree_bytes : ℕ → ℕ
tree_bytes a = if ltb a base then 0 else get_or tree (a - base) 0

abbrev is_text : List ℕ → Bool
is_text text = true

abbrev header : Header
header = record {
  totalsize = 88;
  off_dt_struct = 40;
  off_dt_strings = 72;
  off_mem_rsvmap = 40;
  version = 17;
  last_comp_version = 16;
  boot_cpuid_phys = 0;
  size_dt_strings = 11;
  size_dt_struct = 32;
}

abbrev blob : Blob
blob = record { pa = base; va = base; header = header }

probe_tree : probe tree_bytes base ≡ accepted header
unfolding probe read_header be32 check_blocks
probe_tree = refl

sound : IsSound header
sound = record {
  holds_header = omega arith;
  small = omega arith;
  struct_inside = omega arith;
  strings_inside = omega arith;
  reservations_inside = omega arith;
}

probe-ProbeReturns_example : ProbeReturns tree_bytes base (probe tree_bytes base)
probe-ProbeReturns_example = probe-ProbeReturns tree_bytes base

abbrev machine : Memory
machine = record {
  bitmap = new;
  ram_base = base;
  ram_length = 0x10_0000;
  image_end = 0;
  bytes = tree_bytes;
}

init-InitReturns_example : InitReturns 0 tree_bytes machine base (init 0 tree_bytes machine base)
init-InitReturns_example = init-InitReturns 0 tree_bytes machine base (omega arith) (omega arith)

abbrev root : Node
root = record { offset = 40; depth = 1; address_cells = 2; size_cells = 1 }

top-IsOpen : IsOpen tree_bytes is_text blob sound (walk blob)
unfolding walk
top-IsOpen = record { shallow = omega arith; bounded = omega arith }

next-NextReturns_example :
    NextReturns tree_bytes is_text blob sound (walk blob) (next tree_bytes is_text blob (walk blob))
next-NextReturns_example = next-NextReturns tree_bytes is_text blob sound (walk blob) top-IsOpen

find_compatible_after-FindReturns_example :
    FindReturns tree_bytes is_text blob sound
      (97 ∷ [])
      0
      (walk blob)
      (find_compatible_after tree_bytes is_text blob (97 ∷ []) 0)
find_compatible_after-FindReturns_example =
    find_compatible_after-FindReturns tree_bytes is_text blob sound (97 ∷ []) 0

memory_map-MapReturns_example : MapReturns blob (memory_map tree_bytes is_text blob)
memory_map-MapReturns_example = memory_map-MapReturns tree_bytes is_text blob sound
