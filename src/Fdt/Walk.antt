-- ===== src/Fdt/Walk.antt =====
-- The structure block of kernel/src/fdt.rs: its walker and the properties of a node. A loop that runs
-- out of rounds counts as a panic here.
pub mod Bounds
pub mod Steps
pub mod Next
use the_rack.Base.{
  ℕ, zero, suc, ◌+◌, ◌-◌, ◌*◌, ◌/◌, ◌%◌, ◌^◌, min, Bool, true, false, not, ◌&&◌, ◌||◌, Option, none,
  some, List, [], ◌∷◌, Result, ok, panic, assert, ◌>>=◌, ◌>>◌, if◌then◌else◌, ◌==◌, ltb, leb,
}
use the_rack.Fdt.{
  Blob, Slice, be32, add_u32, contents, saturating_add, u32_mod, u32_at, bytes_at, str_at, string,
  align4,
}

abbrev pub fdt_begin_node : ℕ
fdt_begin_node = 1

abbrev pub fdt_end_node : ℕ
fdt_end_node = 2

abbrev pub fdt_prop : ℕ
fdt_prop = 3

abbrev pub fdt_nop : ℕ
fdt_nop = 4

abbrev pub fdt_end : ℕ
fdt_end = 9

abbrev pub max_depth : ℕ
max_depth = 16

abbrev pub default_address_cells : ℕ
default_address_cells = 2

abbrev pub default_size_cells : ℕ
default_size_cells = 1

pub record Node : Type 0 where
  pub offset : ℕ
  pub depth : ℕ
  pub address_cells : ℕ
  pub size_cells : ℕ

pub data Step : Type 0 where
  node : Node → Slice → Step
  property : Slice → Slice → Step

-- The walker without its blob. `cells` is the array, whose index is checked where it is used.
pub record Walker : Type 0 where
  pub offset : ℕ
  pub stop : ℕ
  pub depth : ℕ
  pub cells : ℕ → ℕ × ℕ

unfoldable pub walk : Blob → Walker
walk b = record {
  offset = b.header.off_dt_struct;
  stop = saturating_add u32_mod b.header.off_dt_struct b.header.size_dt_struct;
  depth = 0;
  cells = λ d. (default_address_cells, default_size_cells);
}

-- What a round of `next` ends in: another round, or an answer.
pub data Turn : Type 0 where
  again : Walker → Turn
  answer : Option Step → Walker → Turn

-- `==` of two strings.
unfoldable pub same_bytes : List ℕ → List ℕ → Bool
same_bytes [] [] = true
same_bytes [] (y ∷ ys) = false
same_bytes (x ∷ xs) [] = false
same_bytes (x ∷ xs) (y ∷ ys) = x == y && same_bytes xs ys

-- "-cells"
abbrev cells_suffix : List ℕ
cells_suffix = 45 ∷ 99 ∷ 101 ∷ 108 ∷ 108 ∷ 115 ∷ []

-- "#address-cells" and "#size-cells"
abbrev pub address_cells_name : List ℕ
address_cells_name = 35 ∷ 97 ∷ 100 ∷ 100 ∷ 114 ∷ 101 ∷ 115 ∷ 115 ∷ cells_suffix

abbrev pub size_cells_name : List ℕ
size_cells_name = 35 ∷ 115 ∷ 105 ∷ 122 ∷ 101 ∷ cells_suffix

-- `cells[d] = pair`
set_cells : ℕ → ℕ × ℕ → (ℕ → ℕ × ℕ) → ℕ → ℕ × ℕ
set_cells d pair cells e = if e == d then pair else cells e

-- A property's name and value, and the offset after it.
pub record Found : Type 0 where
  pub name : Slice
  pub value : Slice
  pub after : ℕ

module _ (bytes : ℕ → ℕ) where
  pub read_cells : Slice → Option ℕ
  read_cells value = if ltb value.size 4 then none else some (be32 bytes value.start 0)

  module _ (is_utf8 : List ℕ → Bool) (b : Blob) where
    -- The property at `offset`, as both `Properties::next` and `Walker::next` read it.
    pub read_property : ℕ → Result (Option Found)
    read_property offset = do
      len_at ← add_u32 offset 4
      elim (u32_at bytes b len_at) [
        | none ↦ ok none
        | some len ↦ do
          name_at ← add_u32 offset 8
          elim (u32_at bytes b name_at) [
            | none ↦ ok none
            | some name_offset ↦ do
              value_at ← add_u32 offset 12
              elim (bytes_at bytes b value_at len) [
                | none ↦ ok none
                | some value ↦ elim (string bytes b is_utf8 name_offset) [
                  | none ↦ ok none
                  | some name ↦ do
                    after ← add_u32 value_at len
                    ok (some (record { name = name; value = value; after = align4 after }))
                ]
              ]
          ]
      ]

    -- The loop of `Properties::next` from `offset`, which it moves.
    pub next_property : ℕ → ℕ → Result (Option (Slice × Slice) × ℕ)
    next_property zero offset = panic
    next_property (suc fuel) offset = elim (u32_at bytes b offset) [
      | none ↦ ok (none, offset)
      | some token ↦
          if token == fdt_nop
          then (add_u32 offset 4 >>= λ next. next_property fuel next)
          else if not (token == fdt_prop)
          then ok (none, offset)
          else do
            found ← read_property offset
            ok (elim found [ none ↦ (none, offset) | some f ↦ (some (f.name, f.value), f.after) ])
    ]

    open_node : Walker → Result Turn
    open_node w = do
      name_at ← add_u32 w.offset 4
      elim (str_at bytes b is_utf8 name_at w.stop) [
        | none ↦ ok (answer none w)
        | some name ↦ if leb max_depth (w.depth + 1) then ok (answer none w) else do
          let depth = w.depth + 1
          let parent = w.cells w.depth
          last ← add_u32 name_at name.size
          after ← add_u32 last 1
          let opened : Node = record {
            offset = w.offset;
            depth = depth;
            address_cells = parent.0;
            size_cells = parent.1;
          }
          ok (
              answer (some (node opened name)) (record w {
                offset = align4 after;
                depth = depth;
                cells = set_cells depth (default_address_cells, default_size_cells) w.cells;
              }))
      ]

    close_node : Walker → Result Turn
    close_node w = if w.depth == 0 then ok (answer none w) else do
      after ← add_u32 w.offset 4
      ok (again (record w { depth = w.depth - 1; offset = after }))

    -- The cells of the open node after a property.
    note_cells : Found → Walker → Result (ℕ → ℕ × ℕ)
    note_cells f w = if w.depth == 0 then ok w.cells else elim (read_cells f.value) [
      | none ↦ ok w.cells
      | some count ↦
          let name = contents bytes f.name.start f.name.size in
          let old = w.cells w.depth in
          if same_bytes name address_cells_name
          then assert (ltb w.depth max_depth) >> ok (set_cells w.depth (count, old.1) w.cells)
          else if same_bytes name size_cells_name
          then assert (ltb w.depth max_depth) >> ok (set_cells w.depth (old.0, count) w.cells)
          else ok w.cells
    ]

    pass_property : Walker → Result Turn
    pass_property w = do
      found ← read_property w.offset
      elim found [
        | none ↦ ok (answer none w)
        | some f ↦ do
          cells ← note_cells f w
          ok (
              answer (some (property f.name f.value))
                (record w { offset = f.after; cells = cells }))
      ]

    -- A round of the loop of `Walker::next`.
    pub turn : Walker → Result Turn
    turn w = if leb w.stop w.offset then ok (answer none w) else elim (u32_at bytes b w.offset) [
      | none ↦ ok (answer none w)
      | some token ↦
          if token == fdt_nop
          then (add_u32 w.offset 4 >>= λ after. ok (again (record w { offset = after })))
          else if token == fdt_end
          then ok (answer none w)
          else if token == fdt_begin_node
          then open_node w
          else if token == fdt_end_node
          then close_node w
          else if token == fdt_prop
          then pass_property w
          else ok (answer none w)
    ]

    pub rounds : ℕ → Walker → Result (Option Step × Walker)
    rounds zero w = panic
    rounds (suc fuel) w = do
      t ← turn w
      elim t [ again w' ↦ rounds fuel w' | answer step w' ↦ ok (step, w') ]

    -- `Walker::next`: a round moves on by four bytes at least.
    pub next : Walker → Result (Option Step × Walker)
    next w = rounds (w.stop - w.offset + 1) w
