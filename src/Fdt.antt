-- ===== src/Fdt.antt =====
-- The device tree's header of kernel/src/fdt.rs, and the bounded reads of the blob. `bytes` is memory
-- by the address that the kernel reads at. A slice is its first address and its length.
pub mod Walk
pub mod Lookup
pub mod MemoryMap
pub mod Probe
mod Tests
use the_rack.Base.{
  ℕ, zero, suc, ◌+◌, ◌-◌, ◌*◌, ◌/◌, ◌%◌, ◌^◌, min, Bool, true, false, not, ◌&&◌, ◌||◌, Option, none,
  some, List, [], ◌∷◌, Result, ok, panic, ◌>>=◌, if◌then◌else◌, ◌==◌, ltb, leb, bit_or, add_u64,
  u64_mod,
}
use the_rack.Frames.Allocator.{Memory}

abbrev pub magic : ℕ
magic = 0xd00d_feed

abbrev pub header_size : ℕ
header_size = 40

abbrev pub supported_version : ℕ
supported_version = 17

abbrev pub max_blob : ℕ
max_blob = 1024 * 1024

pub data Error : Type 0 where
  null : Error
  misaligned : ℕ → Error
  bad_magic : ℕ → Error
  too_small : ℕ → Error
  too_large : ℕ → Error
  version_refused : ℕ → Error
  block_out_of_range : Error
  outside_ram : ℕ → Error

pub record Header : Type 0 where
  pub totalsize : ℕ
  pub off_dt_struct : ℕ
  pub off_dt_strings : ℕ
  pub off_mem_rsvmap : ℕ
  pub version : ℕ
  pub last_comp_version : ℕ
  pub boot_cpuid_phys : ℕ
  pub size_dt_strings : ℕ
  pub size_dt_struct : ℕ

pub record Blob : Type 0 where
  pub pa : ℕ
  pub va : ℕ
  pub header : Header

-- `Result<A, Error>` of the source; `Result` here is for panics.
pub data Outcome (A : Type 0) : Type 0 where
  accepted : A → Outcome A
  refused : Error → Outcome A

abbrev pub u32_mod : ℕ
u32_mod = 2 ^ 32

unfoldable pub add_u32 : ℕ → ℕ → Result ℕ
add_u32 a b = if ltb (a + b) u32_mod then ok (a + b) else panic

abbrev pub checked_add : ℕ → ℕ → Option ℕ
checked_add a b = if ltb (a + b) u32_mod then some (a + b) else none

abbrev pub saturating_add : ℕ → ℕ → ℕ → ℕ
saturating_add modulus a b = min (a + b) (modulus - 1)

-- `u32::from_be` of the four bytes at `va + offset`.
unfoldable pub be32 : (ℕ → ℕ) → ℕ → ℕ → ℕ
be32 bytes va offset =
    let a = va + offset in
    ((bytes a * 256 + bytes (a + 1)) * 256 + bytes (a + 2)) * 256 + bytes (a + 3)

-- The closure `ends_inside` of `probe`.
abbrev pub ends_inside : ℕ → ℕ → ℕ → Bool
ends_inside totalsize offset size = elim (checked_add offset size) [
  | none ↦ false
  | some stop ↦ leb stop totalsize
]

unfoldable pub read_header : (ℕ → ℕ) → ℕ → Header
read_header bytes va = record {
  totalsize = be32 bytes va 4;
  off_dt_struct = be32 bytes va 8;
  off_dt_strings = be32 bytes va 12;
  off_mem_rsvmap = be32 bytes va 16;
  version = be32 bytes va 20;
  last_comp_version = be32 bytes va 24;
  boot_cpuid_phys = be32 bytes va 28;
  size_dt_strings = be32 bytes va 32;
  size_dt_struct = be32 bytes va 36;
}

pub check_blocks : Header → Outcome Header
check_blocks h =
    if not (ends_inside h.totalsize h.off_dt_struct h.size_dt_struct)
      || not (ends_inside h.totalsize h.off_dt_strings h.size_dt_strings)
      || leb h.totalsize h.off_mem_rsvmap
    then refused block_out_of_range
    else accepted h

pub probe : (ℕ → ℕ) → ℕ → Outcome Header
unfolding check_blocks
probe bytes va =
    let h = read_header bytes va in
    if va == 0
    then refused null
    else if not (va % 8 == 0)
    then refused (misaligned va)
    else if not (be32 bytes va 0 == magic)
    then refused (bad_magic (be32 bytes va 0))
    else if ltb h.totalsize header_size
    then refused (too_small h.totalsize)
    else if ltb max_blob h.totalsize
    then refused (too_large h.totalsize)
    else if ltb supported_version h.last_comp_version || ltb h.version h.last_comp_version
    then refused (version_refused h.version)
    else check_blocks h

-- The end of `init`, with the top of RAM and what `probe` answered.
pub admit : ℕ → ℕ → ℕ → Outcome Header → Result (Outcome Blob)
admit pa va top (refused e) = ok (refused e)
admit pa va top (accepted h) = do
  stop ← add_u64 pa h.totalsize
  ok (
      if ltb top stop
      then refused (outside_ram pa)
      else accepted (record { pa = pa; va = va; header = h }))

-- `init`, which answers the blob that it records; `phys_offset` is where physical memory begins in
-- the kernel's half.
pub init : ℕ → (ℕ → ℕ) → Memory → ℕ → Result (Outcome Blob)
init phys_offset bytes m pa = if pa == 0 then ok (refused null) else do
  top ← add_u64 m.ram_base m.ram_length
  let outside = ltb pa m.ram_base || ltb top (saturating_add u64_mod pa header_size)
  if outside
      then ok (refused (outside_ram pa))
      else do va ← add_u64 pa phys_offset; admit pa va top (probe bytes va)

pub early_probe : (ℕ → ℕ) → ℕ → Option (ℕ × ℕ)
early_probe bytes pa =
    if pa == 0
    then none
    else elim (probe bytes pa) [ refused e ↦ none | accepted h ↦ some (pa, h.totalsize) ]

pub record Slice : Type 0 where
  pub start : ℕ
  pub size : ℕ

-- The bytes of a slice.
unfoldable pub contents : (ℕ → ℕ) → ℕ → ℕ → List ℕ
contents bytes start zero = []
contents bytes start (suc n) = bytes start ∷ contents bytes (start + 1) n

module _ (bytes : ℕ → ℕ) (b : Blob) where
  unfoldable pub u32_at : ℕ → Option ℕ
  u32_at offset = elim (checked_add offset 4) [
    | none ↦ none
    | some stop ↦ if ltb b.header.totalsize stop then none else some (be32 bytes b.va offset)
  ]

  unfoldable pub u64_at : ℕ → Result (Option ℕ)
  unfolding u32_at
  u64_at offset = elim (u32_at offset) [
    | none ↦ ok none
    | some high ↦ do
      next ← add_u32 offset 4
      ok (elim (u32_at next) [ none ↦ none | some low ↦ some (bit_or (high * 2 ^ 32) low) ])
  ]

  unfoldable pub bytes_at : ℕ → ℕ → Option Slice
  bytes_at offset len = elim (checked_add offset len) [
    | none ↦ none
    | some stop ↦
        if ltb b.header.totalsize stop
        then none
        else some (record { start = b.va + offset; size = len })
  ]

  -- The loop of `str_at`: the offset of the first zero byte from `stop` on, below `limit`.
  unfoldable pub find_nul : ℕ → ℕ → ℕ → Option ℕ
  find_nul zero stop limit = none
  find_nul (suc fuel) stop limit =
      let later = find_nul fuel (stop + 1) limit in
      if not (ltb stop limit) then none else if bytes (b.va + stop) == 0 then some stop else later

  -- `is_utf8` is `core::str::from_utf8` succeeding.
  module _ (is_utf8 : List ℕ → Bool) where
    unfoldable pub str_at : ℕ → ℕ → Option Slice
    unfolding find_nul bytes_at
    str_at offset limit =
        let limit = min limit b.header.totalsize in
        if leb limit offset then none else elim (find_nul (limit - offset) offset limit) [
          | none ↦ none
          | some stop ↦ elim (bytes_at offset (stop - offset)) [
            | none ↦ none
            | some s ↦ if is_utf8 (contents bytes s.start s.size) then some s else none
          ]
        ]

    unfoldable pub string : ℕ → Option Slice
    unfolding str_at
    string name_offset = elim (checked_add b.header.off_dt_strings name_offset) [
      | none ↦ none
      | some start ↦ elim (checked_add b.header.off_dt_strings b.header.size_dt_strings) [
        | none ↦ none
        | some stop ↦ if leb stop start then none else str_at start stop
      ]
    ]

abbrev pub align4 : ℕ → ℕ
align4 offset = saturating_add u32_mod offset 3 / 4 * 4
