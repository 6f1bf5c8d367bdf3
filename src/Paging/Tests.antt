-- ===== src/Paging/Tests.antt =====
-- The walks at tables that map one page.
use the_rack.Base.{◌≡◌, ◌↔◌, refl, true, false, some, ◌||◌, ◌==◌}
use the_rack.Base.Bits.{bit}
use the_rack.Kernel.Sample.{sample_root, sample_memory}
use the_rack.Paging.{
  ap_rw_all, ap_ro_all, user_readable, user_writable, user_range, allowed_pages, lookup,
  lookup_from, translate, translate_from, table_index, read_entry,
}
use the_rack.Paging.Words.{read_u64}
use the_rack.Paging.Range.{RangePermits, user_readable_iff}

user_readable_iff_example :
    (user_readable sample_root 8 16 sample_memory ≡ true)
    ↔ RangePermits sample_root 8 16 (λ ap. ap == ap_rw_all || ap == ap_ro_all) sample_memory
user_readable_iff_example = user_readable_iff sample_root 8 16 sample_memory

maps_page : translate sample_root 24 sample_memory ≡ some 0x5018
unfolding translate translate_from table_index read_entry read_u64 bit
maps_page = refl

page_writable : user_writable sample_root 8 16 sample_memory ≡ true
unfolding user_writable user_range allowed_pages lookup lookup_from table_index read_entry read_u64
    bit
page_writable = refl

next_page_unmapped : user_writable sample_root 4090 16 sample_memory ≡ false
unfolding user_writable user_range allowed_pages lookup lookup_from table_index read_entry read_u64
    bit
next_page_unmapped = refl
