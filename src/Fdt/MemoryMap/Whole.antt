-- ===== src/Fdt/MemoryMap/Whole.antt =====
-- `memory_map` of kernel/src/fdt.rs as a whole.
use the_rack.Base.{
  ℕ, ◌+◌, ◌≡◌, refl, Bool, false, Option, none, some, List, arith, ◌==◌, Result, ok, panic, ◌>>=◌,
}
use the_rack.Fdt.{Blob}
use the_rack.Fdt.Probe.{IsSound}
use the_rack.Fdt.Walk.{Node, walk}
use the_rack.Fdt.Lookup.Ends.{walk-IsOpen}
use the_rack.Fdt.MemoryMap.Paths.{NodeReturns, find_node-NodeReturns}
use the_rack.Fdt.MemoryMap.{
  MemoryMap, reserve, empty_map, add_children, add_memory, memory_map, memory_path, reserved_path,
}
use the_rack.Fdt.MemoryMap.Reserving.{IsMapped, MapReturns, header_reservations-MapReturns}
use the_rack.Fdt.MemoryMap.Children.{child_reservations-MapReturns, note_memory-MapReturns}

-- The map with the blob's own memory.
start : Blob → MemoryMap
start b = reserve b.pa b.header.totalsize empty_map

start-IsMapped : (b : Blob) → IsSound b.header → IsMapped b (start b)
unfolding start reserve
start-IsMapped b sound =
    let some_size : (b.header.totalsize == 0) ≡ false = ground (arith, sound.holds_header) in
    rw (some_size, reserve)
      (record { first = refl; some_reserved = omega arith; fits = omega arith })

-- A step that goes on from a map, or from a node that was looked for.
then_map :
    (b : Blob) (r : Result MemoryMap) (f : MemoryMap → Result MemoryMap)
    → MapReturns b r
    → ((m : MemoryMap) → IsMapped b m → MapReturns b (f m))
    → MapReturns b (r >>= f)
then_map b panic f h go_on = h
then_map b (ok m) f h go_on = go_on m h

then_node :
    (b : Blob) (r : Result (Option Node)) (f : Option Node → Result MemoryMap)
    → NodeReturns b r
    → ((o : Option Node) → NodeReturns b (ok o) → MapReturns b (f o))
    → MapReturns b (r >>= f)
then_node b panic f h go_on = absurd h
then_node b (ok o) f h go_on = go_on o h

module _ (bytes : ℕ → ℕ) (is_utf8 : List ℕ → Bool) (b : Blob) (sound : IsSound b.header) where
  add_children-MapReturns :
      (o : Option Node) (m : MemoryMap)
      → IsMapped b m
      → MapReturns b (add_children bytes is_utf8 b o m)
  unfolding add_children walk
  add_children-MapReturns none m k = k
  add_children-MapReturns (some parent) m k =
      child_reservations-MapReturns bytes is_utf8 b sound parent (b.header.totalsize + 1) (walk b) m
        (walk-IsOpen bytes is_utf8 b sound) (omega (arith, sound.struct_inside)) k

  add_memory-MapReturns :
      (o : Option Node) (m : MemoryMap)
      → NodeReturns b (ok o)
      → IsMapped b m
      → MapReturns b (add_memory bytes is_utf8 b o m)
  unfolding add_memory
  add_memory-MapReturns none m h k = k
  add_memory-MapReturns (some n) m h k = note_memory-MapReturns bytes is_utf8 b sound n m h.0 k

  -- On any blob with a sound header, whatever its bytes, reading the memory map does not panic and
  -- ends. Between one and eight regions are reserved, and the first of them is the blob's own memory.
  pub memory_map-MapReturns : MapReturns b (memory_map bytes is_utf8 b)
  unfolding memory_map start
  memory_map-MapReturns =
      then_map b _ _
        (header_reservations-MapReturns bytes is_utf8 b sound (b.header.totalsize + 1)
          b.header.off_mem_rsvmap (start b) (omega (arith, sound.reservations_inside)) (omega arith)
          (start-IsMapped b sound))
        (λ m k.
          then_node b _ _ (find_node-NodeReturns bytes is_utf8 b sound reserved_path) (λ reserved h.
            then_map b _ _ (add_children-MapReturns reserved m k) (λ m' k'.
              then_node b _ _ (find_node-NodeReturns bytes is_utf8 b sound memory_path)
                (λ memory h'. add_memory-MapReturns memory m' h' k'))))
