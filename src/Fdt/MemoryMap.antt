-- ===== src/Fdt/MemoryMap.antt =====
-- Nodes by path, and what the tree of kernel/src/fdt.rs says about memory. A loop that runs out of
-- rounds counts as a panic here.
pub mod Paths
pub mod Reserving
pub mod Children
pub mod Whole
use the_rack.Base.{
  ℕ, zero, suc, ◌+◌, ◌-◌, ◌*◌, ◌/◌, ◌%◌, ◌^◌, Bool, true, false, not, ◌&&◌, ◌||◌, Option, none,
  some, List, [], ◌∷◌, length, get_elem?, Result, ok, panic, assert, ◌>>=◌, ◌>>◌, if◌then◌else◌,
  ◌==◌, ltb, leb, sub_u64,
}
use the_rack.Fdt.{Blob, Slice, add_u32, contents, u64_at}
use the_rack.Fdt.Walk.{Walker, Node, Step, node, property, walk, next, same_bytes, max_depth}
use the_rack.Fdt.Lookup.{property_of, reg, reg_name, reverse_onto}

-- `split(separator)` of a string; `part` is what was read of the current part, backwards.
split_from : List ℕ → ℕ → List ℕ → List (List ℕ)
split_from part separator [] = reverse_onto part [] ∷ []
split_from part separator (x ∷ xs) =
    let rest = split_from [] separator xs in
    let longer = split_from (x ∷ part) separator xs in
    if x == separator then reverse_onto part [] ∷ rest else longer

-- `filter(|part| !part.is_empty())`
nonempty_parts : List (List ℕ) → List (List ℕ)
nonempty_parts [] = []
nonempty_parts ([] ∷ parts) = nonempty_parts parts
nonempty_parts ((x ∷ xs) ∷ parts) = (x ∷ xs) ∷ nonempty_parts parts

-- "/" and "@"
abbrev slash : ℕ
slash = 47

abbrev at_sign : ℕ
at_sign = 64

-- `split_once('@')`, its first half.
before_at : List ℕ → Option (List ℕ)
before_at [] = none
before_at (x ∷ xs) =
    let rest = before_at xs in
    if x == at_sign then some [] else elim rest [ none ↦ none | some base ↦ some (x ∷ base) ]

pub name_matches : List ℕ → List ℕ → Bool
name_matches name component =
    same_bytes name component
    || elim (before_at name) [ none ↦ false | some base ↦ same_bytes base component ]

pub path_parts : List ℕ → List (List ℕ)
path_parts path = nonempty_parts (split_from [] slash path)

abbrev pub max_reservations : ℕ
max_reservations = 8

-- `MemoryMap`; of the array of reservations, the entries below the count matter.
pub record MemoryMap : Type 0 where
  pub base : ℕ
  pub size : ℕ
  pub banks : ℕ
  pub reservations : ℕ → ℕ × ℕ
  pub reservation_count : ℕ
  pub dropped : ℕ

abbrev pub empty_map : MemoryMap
empty_map = record {
  base = 0;
  size = 0;
  banks = 0;
  reservations = λ i. (0, 0);
  reservation_count = 0;
  dropped = 0;
}

pub reserve : ℕ → ℕ → MemoryMap → MemoryMap
reserve base size m =
    if size == 0
    then m
    else if m.reservation_count == max_reservations
    then record m { dropped = m.dropped + 1 }
    else record m {
      reservations = λ i. if i == m.reservation_count then (base, size) else m.reservations i;
      reservation_count = m.reservation_count + 1;
    }

-- "/reserved-memory" and "/memory"
abbrev pub memory_path : List ℕ
memory_path = slash ∷ 109 ∷ 101 ∷ 109 ∷ 111 ∷ 114 ∷ 121 ∷ []

abbrev pub reserved_path : List ℕ
reserved_path =
    slash ∷ 114 ∷ 101 ∷ 115 ∷ 101 ∷ 114 ∷ 118 ∷ 101 ∷ 100 ∷ 45 ∷ 109 ∷ 101 ∷ 109 ∷ 111 ∷ 114 ∷ 121
    ∷ []

module _ (bytes : ℕ → ℕ) (is_utf8 : List ℕ → Bool) (b : Blob) where
  -- Whether a node answers the path, from what its parent at `on_path` does.
  pub on_this_path : List (List ℕ) → (ℕ → Bool) → Node → List ℕ → Result Bool
  on_this_path parts on_path n name = if n.depth == 1 then ok (length name == 0) else do
    part ← sub_u64 n.depth 2
    ok (elim (get_elem? parts part) [
      | none ↦ false
      | some component ↦ on_path (n.depth - 1) && name_matches name component
    ])

  -- The loop of `find_node`.
  pub find_path : ℕ → Walker → List (List ℕ) → (ℕ → Bool) → Result (Option Node)
  find_path zero w parts on_path = panic
  find_path (suc fuel) w parts on_path = do
    (step, w') ← next bytes is_utf8 b w
    let skipped = find_path fuel w' parts on_path
    elim step [
      | none ↦ ok none
      | some (property name value) ↦ skipped
      | some (node n name) ↦ do
        matched ← on_this_path parts on_path n (contents bytes name.start name.size)
        assert (ltb n.depth max_depth)
        let rest = find_path fuel w' parts (λ d. if d == n.depth then matched else on_path d)
        if matched && n.depth == length parts + 1 then ok (some n) else rest
    ]

  pub find_node : List ℕ → Result (Option Node)
  find_node path = find_path (b.header.totalsize + 1) (walk b) (path_parts path) (λ d. d == 0)

  -- The header's own reservations, from `offset` on.
  pub header_reservations : ℕ → ℕ → MemoryMap → Result MemoryMap
  header_reservations zero offset m = panic
  header_reservations (suc fuel) offset m = do
    base ← u64_at bytes b offset
    size_at ← add_u32 offset 8
    size ← u64_at bytes b size_at
    elim base [
      | none ↦ ok m
      | some base ↦ elim size [
        | none ↦ ok m
        | some size ↦
            if base == 0 && size == 0
            then ok m
            else add_u32 offset 16 >>= λ after. header_reservations fuel after (reserve base size m)
      ]
    ]

  -- The children of `/reserved-memory`.
  pub child_reservations : ℕ → Walker → Node → MemoryMap → Result MemoryMap
  child_reservations zero w parent m = panic
  child_reservations (suc fuel) w parent m = do
    (step, w') ← next bytes is_utf8 b w
    let skipped = child_reservations fuel w' parent m
    elim step [
      | none ↦ ok m
      | some (property name value) ↦ skipped
      | some (node n name) ↦
          if leb n.offset parent.offset
          then skipped
          else if leb n.depth parent.depth
          then ok m
          else if not (n.depth == parent.depth + 1)
          then skipped
          else (reg bytes is_utf8 b n 0 >>= λ found. elim found [
            | none ↦ skipped
            | some (base, size) ↦ child_reservations fuel w' parent (reserve base size m)
          ])
    ]

  -- `max(1)` of the size of an entry.
  abbrev entry_size : Node → ℕ
  entry_size n = let entry = (n.address_cells + n.size_cells) * 4 in if entry == 0 then 1 else entry

  pub note_memory : Node → MemoryMap → Result MemoryMap
  note_memory memory m = do
    found ← reg bytes is_utf8 b memory 0
    elim found [
      | none ↦ ok m
      | some (base, size) ↦ if size == 0 then ok m else do
        value ← property_of bytes is_utf8 b memory reg_name
        let banks : ℕ = elim value [ none ↦ 1 | some s ↦ s.size / entry_size memory ]
        ok (record m { base = base; size = size; banks = banks })
    ]

  -- What `memory_map` does with the two nodes that it looks for.
  pub add_children : Option Node → MemoryMap → Result MemoryMap
  add_children none m = ok m
  add_children (some parent) m = child_reservations (b.header.totalsize + 1) (walk b) parent m

  pub add_memory : Option Node → MemoryMap → Result MemoryMap
  add_memory none m = ok m
  add_memory (some memory) m = note_memory memory m

  pub memory_map : Result MemoryMap
  memory_map = do
    let m = reserve b.pa b.header.totalsize empty_map
    m ← header_reservations (b.header.totalsize + 1) b.header.off_mem_rsvmap m
    reserved ← find_node reserved_path
    m ← add_children reserved m
    memory ← find_node memory_path
    add_memory memory m
