-- ===== src/Ipc/Delivery.antt =====
-- `deliver` of kernel/src/ipc.rs: what crosses between two address spaces, and when.
use the_rack.Base.{
  ℕ, ◌≡◌, refl, ◌⊎◌, inl, inr, ◌||◌, Option, none, some, arith, ◌==◌, min, Bool-cases, Option-cases,
}
use the_rack.Frames.Allocator.{Frame}
use the_rack.Paging.{ap_rw_all, ap_ro_all, user_readable, user_writable, copy_across}
use the_rack.Paging.Range.{RangePermits, user_readable_iff, user_writable_iff}
use the_rack.Kernel.{Kernel}
use the_rack.Ipc.{deliver, root_of, set_memory}

-- A delivery that copied: both tasks have a space, the source may read what was copied and the
-- destination may write where it went, and memory is what the copy made of it.
pub record Copied (src src_buf dst dst_buf len : ℕ) (k n : Kernel) : Type 0 where
  pub src_root : Frame
  pub dst_root : Frame
  pub src_space : root_of src k ≡ some src_root
  pub dst_space : root_of dst k ≡ some dst_root
  pub readable :
      RangePermits src_root src_buf len (λ ap. ap == ap_rw_all || ap == ap_ro_all) k.memory
  pub writable : RangePermits dst_root dst_buf len (λ ap. ap == ap_rw_all) k.memory
  pub copied : n ≡ set_memory (copy_across src_root src_buf dst_root dst_buf len k.memory).0 k

-- What a delivery may answer, with the state after it.
abbrev pub Delivered : ℕ → ℕ → ℕ → ℕ → ℕ → ℕ → Kernel → Option ℕ × Kernel → Type 0
Delivered src src_buf src_len dst dst_buf dst_cap k (none, n) = n ≡ record k { memory = n.memory }
Delivered src src_buf src_len dst dst_buf dst_cap k (some arrived, n) =
    (arrived ≡ min src_len dst_cap)
    × (((arrived ≡ 0) × (n ≡ k)) ⊎ Copied src src_buf dst dst_buf arrived k n)

-- A delivery that reports a length moved the shorter of what was sent and what there is room for.
-- Either that is nothing, and nothing changed, or both tasks have a space, the source may read every
-- byte of it, the destination may write every byte of it, and memory is what the copy made of it.
-- A delivery that reports nothing changed at most memory.
pub deliver-Delivered :
    (src src_buf src_len dst dst_buf dst_cap : ℕ) (k : Kernel)
    → Delivered src src_buf src_len dst dst_buf dst_cap k
        (deliver src src_buf src_len dst dst_buf dst_cap k)
unfolding deliver
deliver-Delivered src src_buf src_len dst dst_buf dst_cap k =
    let len = min src_len dst_cap in
    elim (Bool-cases (len == 0)) [
      | inl empty ↦ rw empty (ground arith, inl (refl, refl))
      | inr bytes ↦ rw bytes (elim (Option-cases (root_of src k)) [
        | inl no_space ↦ rw no_space refl
        | inr (src_root, src_space) ↦ rw src_space (elim (Option-cases (root_of dst k)) [
          | inl no_space ↦ rw no_space refl
          | inr (dst_root, dst_space) ↦
              rw dst_space (elim (Bool-cases (user_readable src_root src_buf len k.memory)) [
                | inr unreadable ↦ rw unreadable refl
                | inl readable ↦
                    rw readable (elim (Bool-cases (user_writable dst_root dst_buf len k.memory)) [
                      | inr unwritable ↦ rw unwritable refl
                      | inl writable ↦
                          rw writable
                            (elim (Bool-cases
                              (copy_across src_root src_buf dst_root dst_buf len k.memory).1) [
                                | inr broken ↦ rw broken refl
                                | inl whole ↦ rw whole (
                                  refl,
                                  inr (record {
                                    src_root = src_root;
                                    dst_root = dst_root;
                                    src_space = src_space;
                                    dst_space = dst_space;
                                    readable =
                                        (user_readable_iff src_root src_buf len k.memory).0
                                          readable;
                                    writable =
                                        (user_writable_iff dst_root dst_buf len k.memory).0
                                          writable;
                                    copied = refl;
                                  }),
                                )
                              ])
                    ])
              ])
        ])
      ])
    ]
