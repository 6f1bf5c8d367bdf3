-- ===== src/Paging/Copy.antt =====
-- The rounds of `copy_across` in kernel/src/paging.rs.
use the_rack.Base.{
  ℕ, zero, suc, ◌+◌, ◌-◌, ◌≤◌, ◌<◌, ◌≡◌, refl, inl, inr, false, ltb, arith, Bool-cases,
  Option-cases,
}
use the_rack.Frames.Allocator.{Memory, Frame}
use the_rack.Paging.{chunk_of, copy_bytes, copy_from, copy_across, translate}

chunk_pos : (left src dst : ℕ) → 0 < left → 1 ≤ chunk_of left src dst
chunk_pos left src dst h = omega arith

module _ (src_root : Frame) (src_va : ℕ) (dst_root : Frame) (dst_va len : ℕ) where
  copy_from-fuel :
      (f g done : ℕ) (m : Memory)
      → len ≤ f + done
      → len ≤ g + done
      → copy_from f src_root src_va dst_root dst_va len done m
        ≡ copy_from g src_root src_va dst_root dst_va len done m
  unfolding copy_from
  copy_from-fuel zero zero done m p q = refl
  copy_from-fuel zero (suc g) done m p q =
      let over : ltb done len ≡ false = ground arith in rw over refl
  copy_from-fuel (suc f) zero done m p q =
      let over : ltb done len ≡ false = ground arith in rw over refl
  copy_from-fuel (suc f) (suc g) done m p q =
      let src = src_va + done in
      let dst = dst_va + done in
      let chunk = chunk_of (len - done) src dst in
      elim (Bool-cases (ltb done len)) [
        | inr over ↦ rw over refl
        | inl left ↦ rw left (elim (Option-cases (translate src_root src m)) [
          | inl gone ↦ rw gone refl
          | inr (src_pa, found) ↦ rw found (elim (Option-cases (translate dst_root dst m)) [
            | inl gone ↦ rw gone refl
            | inr (dst_pa, found') ↦
                let forward : 1 ≤ chunk = chunk_pos (len - done) src dst (ground arith) in
                rw found' (
                  copy_from-fuel f g (done + chunk)
                    (record m { bytes = copy_bytes m.bytes src_pa dst_pa chunk }) (omega arith)
                    (omega arith))
          ])
        ])
      ]

-- The copy is done within `len` rounds: any bound on the rounds that is no smaller gives the same memory
-- and the same answer.
pub copy_across_ends :
    (src_root : Frame) (src_va : ℕ) (dst_root : Frame) (dst_va len rounds : ℕ) (m : Memory)
    → len ≤ rounds
    → copy_from rounds src_root src_va dst_root dst_va len 0 m
      ≡ copy_across src_root src_va dst_root dst_va len m
unfolding copy_across
copy_across_ends src_root src_va dst_root dst_va len rounds m h =
    copy_from-fuel src_root src_va dst_root dst_va len rounds len 0 m (omega arith) (omega arith)
