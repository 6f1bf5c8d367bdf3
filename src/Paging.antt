-- ===== src/Paging.antt =====
-- The page-table walks of kernel/src/paging.rs: what a task's tables map and permit, and the copy
-- between two address spaces. `entry & (1 << k) != 0` is `bit entry k` (Base.Bits.test_bit), and
-- `x & (2^k - 1)` is `x % 2 ^ k`. Tables are read from the bytes of physical memory.
pub mod Words
pub mod Range
pub mod Copy
pub mod Device
mod Tests
use the_rack.Base.{
  ℕ, zero, suc, ◌+◌, ◌-◌, ◌*◌, ◌/◌, ◌%◌, ◌^◌, min, Bool, true, false, not, ◌&&◌, ◌||◌, Option, none,
  some, if◌then◌else◌, ◌==◌, ltb, leb, u64_mod,
}
use the_rack.Base.Bits.{bit}
use the_rack.Frames.Bitmap.{frame_size}
use the_rack.Frames.Allocator.{Memory, Frame}
use Words.{read_u64}

abbrev pub kernel_base : ℕ
kernel_base = 0xffff_0000_0000_0000

abbrev pub page_size : ℕ
page_size = frame_size

abbrev pub block_2mib : ℕ
block_2mib = 2 * 1024 * 1024

-- Bits of a descriptor.
abbrev pub valid : ℕ
valid = 0

abbrev pub table_or_page : ℕ
table_or_page = 1

abbrev pub ap_shift : ℕ
ap_shift = 6

abbrev pub ap_rw_all : ℕ
ap_rw_all = 0b01

abbrev pub ap_ro_all : ℕ
ap_ro_all = 0b11

-- `entry & ADDR_MASK`, bits 47 to 12.
abbrev pub output_address : ℕ → ℕ
output_address entry = entry / 2 ^ 12 % 2 ^ 36 * 2 ^ 12

-- `va & !(PAGE_SIZE - 1)`
abbrev pub page_of : ℕ → ℕ
page_of va = va / page_size * page_size

unfoldable pub table_index : ℕ → ℕ → ℕ
table_index va level = va / 2 ^ (39 - 9 * level) % 2 ^ 9

unfoldable pub read_entry : Memory → Frame → ℕ → ℕ
read_entry m table index = read_u64 m.bytes (table + index * 8)

-- `n` levels above level 3 are left.
unfoldable pub lookup_from : ℕ → ℕ → Frame → ℕ → Memory → Option ℕ
lookup_from zero level table va m =
    let entry = read_entry m table (table_index va 3) in
    if bit entry valid then some entry else none
lookup_from (suc n) level table va m =
    let entry = read_entry m table (table_index va level) in
    let next = lookup_from n (level + 1) (output_address entry) va m in
    if not (bit entry valid)
    then none
    else if not (bit entry table_or_page)
    then some entry
    else next

unfoldable pub lookup : Frame → ℕ → Memory → Option ℕ
unfolding lookup_from
lookup root va m = lookup_from 3 0 root va m

-- The pages from `page` up to `stop`; the fuel is the number of rounds.
unfoldable pub allowed_pages : ℕ → Frame → ℕ → ℕ → (ℕ → Bool) → Memory → Bool
allowed_pages zero root page stop allowed m = false
allowed_pages (suc fuel) root page stop allowed m =
    let rest = allowed_pages fuel root (page + page_size) stop allowed m in
    if not (ltb page stop) then true else elim (lookup root page m) [
      | none ↦ false
      | some entry ↦ if not (allowed (entry / 2 ^ ap_shift % 2 ^ 2)) then false else rest
    ]

unfoldable pub user_range : Frame → ℕ → ℕ → (ℕ → Bool) → Memory → Bool
unfolding allowed_pages
user_range root va len allowed m =
    if len == 0
    then true
    else if not (ltb (va + len) u64_mod)
    then false
    else if ltb kernel_base (va + len)
    then false
    else allowed_pages (len / page_size + 3) root (page_of va) (va + len) allowed m

unfoldable pub user_readable : Frame → ℕ → ℕ → Memory → Bool
unfolding user_range
user_readable root va len m = user_range root va len (λ ap. ap == ap_rw_all || ap == ap_ro_all) m

unfoldable pub user_writable : Frame → ℕ → ℕ → Memory → Bool
unfolding user_range
user_writable root va len m = user_range root va len (λ ap. ap == ap_rw_all) m

-- The address that a block descriptor at `level` gives `va`.
block_address : ℕ → ℕ → ℕ → Option ℕ
block_address level entry va =
    let at = λ (size : ℕ). some (output_address entry / size * size + va % size) in
    if level == 1 then at (512 * block_2mib) else if level == 2 then at block_2mib else none

unfoldable pub translate_from : ℕ → ℕ → Frame → ℕ → Memory → Option ℕ
unfolding block_address
translate_from zero level table va m =
    let entry = read_entry m table (table_index va 3) in
    if bit entry valid then some (output_address entry + va % page_size) else none
translate_from (suc n) level table va m =
    let entry = read_entry m table (table_index va level) in
    let next = translate_from n (level + 1) (output_address entry) va m in
    if not (bit entry valid)
    then none
    else if not (bit entry table_or_page)
    then block_address level entry va
    else next

unfoldable pub translate : Frame → ℕ → Memory → Option ℕ
unfolding translate_from
translate root va m = translate_from 3 0 root va m

-- `ptr::copy_nonoverlapping`
unfoldable pub copy_bytes : (ℕ → ℕ) → ℕ → ℕ → ℕ → ℕ → ℕ
copy_bytes bytes src dst len a =
    if leb dst a && ltb a (dst + len) then bytes (src + (a - dst)) else bytes a

-- How much of a copy fits both pages.
abbrev pub chunk_of : ℕ → ℕ → ℕ → ℕ
chunk_of left src dst = min (min left (page_size - src % page_size)) (page_size - dst % page_size)

-- The rounds of `copy_across`; a round copies at least a byte, so `len` of them are enough.
unfoldable pub copy_from : ℕ → Frame → ℕ → Frame → ℕ → ℕ → ℕ → Memory → Memory × Bool
unfolding copy_bytes
copy_from zero src_root src_va dst_root dst_va len done m = (m, not (ltb done len))
copy_from (suc fuel) src_root src_va dst_root dst_va len done m =
    let src = src_va + done in
    let dst = dst_va + done in
    let chunk = chunk_of (len - done) src dst in
    if not (ltb done len) then (m, true) else elim (translate src_root src m) [
      | none ↦ (m, false)
      | some src_pa ↦ elim (translate dst_root dst m) [
        | none ↦ (m, false)
        | some dst_pa ↦
            copy_from fuel src_root src_va dst_root dst_va len (done + chunk)
              (record m { bytes = copy_bytes m.bytes src_pa dst_pa chunk })
      ]
    ]

unfoldable pub copy_across : Frame → ℕ → Frame → ℕ → ℕ → Memory → Memory × Bool
unfolding copy_from
copy_across src_root src_va dst_root dst_va len m =
    copy_from len src_root src_va dst_root dst_va len 0 m
