-- ===== src/Fdt/MemoryMap/Reserving.antt =====
-- The reservations of `memory_map` of kernel/src/fdt.rs, and those in the header.
use the_rack.Base.{
  ℕ, zero, suc, ◌+◌, ◌-◌, ◌≤◌, ◌<◌, ◌≡◌, refl, subst, inl, inr, Bool, false, Option, none, some,
  List, arith, Bool-cases, Option-cases, ◌==◌, ◌&&◌, Result, ok, panic, ◌>>=◌,
}
use the_rack.Fdt.{Blob, u32_at, u64_at}
use the_rack.Fdt.Probe.{IsSound}
use the_rack.Fdt.Walk.Bounds.{Gives, add_u32-ok, u32_at-Gives}
use the_rack.Fdt.MemoryMap.{MemoryMap, max_reservations, reserve, header_reservations}

-- Between one and eight regions are reserved, and the first is the blob's.
pub record IsMapped (b : Blob) (m : MemoryMap) : Type 0 where
  pub first : m.reservations 0 ≡ (b.pa, b.header.totalsize)
  pub some_reserved : 0 < m.reservation_count
  pub fits : m.reservation_count ≤ max_reservations

abbrev pub MapReturns : Blob → Result MemoryMap → Type 0
MapReturns b panic = ⊥
MapReturns b (ok m) = IsMapped b m

pub reserve-IsMapped :
    (b : Blob) (base size : ℕ) (m : MemoryMap) → IsMapped b m → IsMapped b (reserve base size m)
unfolding reserve
reserve-IsMapped b base size m h = elim (Bool-cases (size == 0)) [
  | inl e ↦ rw (e, reserve) h
  | inr some_size ↦ elim (Bool-cases (m.reservation_count == max_reservations)) [
    | inl full ↦
        rw (some_size, full, reserve)
          (record { first = h.first; some_reserved = h.some_reserved; fits = h.fits })
    | inr room ↦
        let later : (0 == m.reservation_count) ≡ false = ground (arith, h.some_reserved) in
        rw (some_size, room, reserve)
          (record {
            first = rw later h.first;
            some_reserved = omega arith;
            fits = ground (arith, h.fits);
          })
  ]
]

module _ (bytes : ℕ → ℕ) (is_utf8 : List ℕ → Bool) (b : Blob) (sound : IsSound b.header) where
  WordReturns : ℕ → Result (Option ℕ) → Type 0
  WordReturns offset panic = ⊥
  WordReturns offset (ok o) = Gives (λ v. offset + 8 ≤ b.header.totalsize) o

  u64_at-WordReturns : (offset : ℕ) → WordReturns offset (u64_at bytes b offset)
  unfolding u64_at WordReturns
  u64_at-WordReturns offset = elim (Option-cases (u32_at bytes b offset)) [
    | inl e ↦ rw (e, u64_at) tt
    | inr (high, e) ↦
        let inside =
          subst (Gives (λ v. offset + 4 ≤ b.header.totalsize)) e (u32_at-Gives bytes b offset) in
        let next_at = add_u32-ok offset 4 (omega (arith, sound.small)) in
        elim (Option-cases (u32_at bytes b (offset + 4))) [
          | inl e' ↦ rw (e, next_at, e', u64_at, WordReturns, ◌>>=◌) tt
          | inr (low, e') ↦
              let inside' =
                subst (Gives (λ v. offset + 4 + 4 ≤ b.header.totalsize)) e'
                  (u32_at-Gives bytes b (offset + 4)) in
              rw (e, next_at, e', u64_at, WordReturns, ◌>>=◌) (omega (arith, inside'))
        ]
  ]

  pub header_reservations-MapReturns :
      (fuel offset : ℕ) (m : MemoryMap)
      → offset ≤ b.header.totalsize
      → b.header.totalsize - offset < fuel
      → IsMapped b m
      → MapReturns b (header_reservations bytes is_utf8 b fuel offset m)
  unfolding header_reservations WordReturns
  header_reservations-MapReturns zero offset m h l k = absurd (omega arith)
  header_reservations-MapReturns (suc fuel) offset m h l k =
      go (λ after m' h' l' k'. header_reservations-MapReturns fuel after m' h' l' k')
        (u64_at bytes b offset) refl (u64_at-WordReturns offset) (u64_at bytes b (offset + 8)) refl
        (u64_at-WordReturns (offset + 8))
    where
      go :
          ((after : ℕ) (m' : MemoryMap)
            → after ≤ b.header.totalsize
            → b.header.totalsize - after < fuel
            → IsMapped b m'
            → MapReturns b (header_reservations bytes is_utf8 b fuel after m'))
          → (r : Result (Option ℕ)) → u64_at bytes b offset ≡ r
          → WordReturns offset r
          → (s : Result (Option ℕ)) → u64_at bytes b (offset + 8) ≡ s
          → WordReturns (offset + 8) s
          → MapReturns b (header_reservations bytes is_utf8 b (suc fuel) offset m)
      go ih panic e never s e' v = absurd never
      go ih (ok o) e u panic e' never = absurd never
      go ih (ok none) e u (ok o) e' v =
          rw (e, add_u32-ok offset 8 (omega (arith, sound.small)), e', header_reservations) k
      go ih (ok (some base)) e u (ok none) e' v =
          rw (e, add_u32-ok offset 8 (omega (arith, sound.small)), e', header_reservations) k
      go ih (ok (some base)) e u (ok (some size)) e' v =
          let size_at = add_u32-ok offset 8 (omega (arith, sound.small)) in
          elim (Bool-cases (base == 0 && size == 0)) [
            | inl last ↦ rw (e, size_at, e', last, header_reservations) k
            | inr more ↦
                rw
                  (
                    e,
                    size_at,
                    e',
                    more,
                    add_u32-ok offset 16 (omega (arith, sound.small)),
                    header_reservations,
                  )
                  (ih (offset + 16) _ (omega (arith, v)) (omega (arith, v))
                    (reserve-IsMapped b base size m k))
          ]
