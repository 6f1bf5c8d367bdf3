-- ===== src/Fdt/Lookup.antt =====
-- Looking things up in the tree of kernel/src/fdt.rs: properties of a node by name, `reg`, and nodes
-- by what they are compatible with. A loop that runs out of rounds counts as a panic here.
pub mod Entries
pub mod Values
pub mod Ends
use the_rack.Base.{
  ℕ, zero, suc, ◌+◌, ◌-◌, ◌*◌, ◌%◌, ◌^◌, min, Bool, true, false, not, ◌&&◌, ◌||◌, Option, none,
  some, List, [], ◌∷◌, Result, ok, panic, ◌>>=◌, if◌then◌else◌, ◌==◌, ltb, leb, bit_or,
}
use the_rack.Fdt.{Blob, Slice, be32, add_u32, contents, u32_mod, u32_at, str_at, align4}
use the_rack.Fdt.Walk.{
  Walker, Node, Step, node, property, walk, next, next_property, same_bytes, read_cells,
}

-- `value.get(from..from + size)`
abbrev sub_slice : Slice → ℕ → ℕ → Option Slice
sub_slice s from size =
    if leb (from + size) s.size then some (record { start = s.start + from; size = size }) else none

-- `string_list_contains`, over the bytes of the list: `entry` is what was read of the current one,
-- backwards.
pub reverse_onto : List ℕ → List ℕ → List ℕ
reverse_onto [] ys = ys
reverse_onto (x ∷ xs) ys = reverse_onto xs (x ∷ ys)

pub contains_from : List ℕ → List ℕ → List ℕ → Bool
contains_from entry [] wanted = same_bytes (reverse_onto entry []) wanted
contains_from entry (x ∷ xs) wanted =
    let rest = contains_from [] xs wanted in
    let longer = contains_from (x ∷ entry) xs wanted in
    if x == 0 then same_bytes (reverse_onto entry []) wanted || rest else longer

pub string_list_contains : List ℕ → List ℕ → Bool
string_list_contains list wanted = contains_from [] list wanted

-- "reg" and "compatible"
abbrev pub reg_name : List ℕ
reg_name = 114 ∷ 101 ∷ 103 ∷ []

abbrev pub compatible_name : List ℕ
compatible_name = 99 ∷ 111 ∷ 109 ∷ 112 ∷ 97 ∷ 116 ∷ 105 ∷ 98 ∷ 108 ∷ 101 ∷ []

module _ (bytes : ℕ → ℕ) where
  -- `take_cells`: `count` cells are left to read, above `value`.
  pub take_cells_from : ℕ → ℕ → Slice → Option (ℕ × Slice)
  take_cells_from zero value s = some (value, s)
  take_cells_from (suc count) value s =
      let cell = be32 bytes s.start 0 in
      let rest : Slice = record { start = s.start + 4; size = s.size - 4 } in
      let more = take_cells_from count (bit_or (value * 2 ^ 32 % 2 ^ 64) cell) rest in
      if ltb s.size 4 then none else more

  pub take_cells : Slice → ℕ → Option (ℕ × Slice)
  take_cells s count = take_cells_from count 0 s

  module _ (is_utf8 : List ℕ → Bool) (b : Blob) where
    -- The offset at which the properties of a node begin.
    pub properties : Node → Result ℕ
    properties n = do
      start ← add_u32 n.offset 4
      elim (str_at bytes b is_utf8 start b.header.totalsize) [
        | none ↦ ok (u32_mod - 1)
        | some name ↦ do last ← add_u32 start name.size; after ← add_u32 last 1; ok (align4 after)
      ]

    -- The `find` of `property`, from an offset.
    pub find_property : ℕ → ℕ → List ℕ → Result (Option Slice)
    find_property zero offset name = panic
    find_property (suc fuel) offset name = do
      (found, after) ← next_property bytes is_utf8 b (b.header.totalsize + 1) offset
      elim found [
        | none ↦ ok none
        | some (f, value) ↦
            let rest = find_property fuel after name in
            if same_bytes (contents bytes f.start f.size) name then ok (some value) else rest
      ]

    pub property_of : Node → List ℕ → Result (Option Slice)
    property_of n name = do
      offset ← properties n
      find_property (b.header.totalsize + 2) offset name

    pub property_u32 : Node → List ℕ → Result (Option ℕ)
    property_u32 n name = do
      value ← property_of n name
      ok (elim value [ none ↦ none | some s ↦ read_cells bytes s ])

    -- The loop of `position`: where the first zero byte of a value is.
    nul_position : ℕ → ℕ → Option ℕ
    nul_position at zero = none
    nul_position at (suc n) =
        let later = nul_position (at + 1) n in if bytes at == 0 then some at else later

    pub property_str : Node → List ℕ → Result (Option Slice)
    property_str n name = do
      value ← property_of n name
      ok (elim value [
        | none ↦ none
        | some s ↦ elim (nul_position s.start s.size) [
          | none ↦ none
          | some stop ↦
              let text : Slice = record { start = s.start; size = stop - s.start } in
              if is_utf8 (contents bytes text.start text.size) then some text else none
        ]
      ])

    -- `reg` once the property is found.
    reg_entry : Node → ℕ → Slice → Option (ℕ × ℕ)
    reg_entry n index value =
        let entry = (n.address_cells + n.size_cells) * 4 in
        if not (ltb (index * entry + entry) (2 ^ 64))
        then none
        else elim (sub_slice value (index * entry) entry) [
          | none ↦ none
          | some s ↦ elim (take_cells s n.address_cells) [
            | none ↦ none
            | some (address, rest) ↦ elim (take_cells rest n.size_cells) [
              | none ↦ none
              | some (size, after) ↦ some (address, size)
            ]
          ]
        ]

    pub reg : Node → ℕ → Result (Option (ℕ × ℕ))
    reg n index =
        if ltb 2 n.address_cells || ltb 2 n.size_cells || n.address_cells == 0 then ok none else do
          found ← property_of n reg_name
          elim found [ none ↦ ok none | some value ↦ ok (reg_entry n index value) ]

    -- The loop of `regions`, with `room` entries of the output left.
    regions_from : ℕ → ℕ → Node → Result (List (ℕ × ℕ))
    regions_from zero found n = ok []
    regions_from (suc room) found n = do
      region ← reg n found
      let rest = regions_from room (found + 1) n
      elim region [ none ↦ ok [] | some r ↦ do later ← rest; ok (r ∷ later) ]

    pub regions : Node → ℕ → Result (List (ℕ × ℕ))
    regions n room = regions_from room 0 n

    -- Whether a node answers `find_compatible_after`.
    pub is_wanted : Node → List ℕ → ℕ → Result Bool
    is_wanted n wanted after = if leb n.offset after then ok false else do
      list ← property_of n compatible_name
      elim list [
        | none ↦ ok false
        | some s ↦ ok (string_list_contains (contents bytes s.start s.size) wanted)
      ]

    -- The loop of `find_compatible_after`.
    pub find_from : ℕ → Walker → List ℕ → ℕ → Result (Option Node)
    find_from zero w wanted after = panic
    find_from (suc fuel) w wanted after = do
      (step, w') ← next bytes is_utf8 b w
      let rest = find_from fuel w' wanted after
      elim step [
        | none ↦ ok none
        | some (property name value) ↦ rest
        | some (node n name) ↦ do
          found ← is_wanted n wanted after
          if found then ok (some n) else rest
      ]

    pub find_compatible_after : List ℕ → ℕ → Result (Option Node)
    find_compatible_after wanted after = find_from (b.header.totalsize + 1) (walk b) wanted after

    pub find_compatible : List ℕ → Result (Option Node)
    find_compatible wanted = find_compatible_after wanted 0
