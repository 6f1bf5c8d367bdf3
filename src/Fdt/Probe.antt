-- ===== src/Fdt/Probe.antt =====
-- `probe` and `init` of kernel/src/fdt.rs: which blobs are believed.
use the_rack.Base.{
  ℕ, ◌+◌, ◌%◌, ◌≤◌, ◌<◌, ◌≡◌, ◌≢◌, refl, ◌⊎◌, inl, inr, true, false, ◌||◌, Result, ok, panic, arith,
  Bool-cases, ◌==◌, ltb, leb, add_u64, u64_mod,
}
use the_rack.Frames.Allocator.{Memory}
use the_rack.Fdt.{
  null, misaligned, bad_magic, too_small, too_large, version_refused, block_out_of_range,
  outside_ram, Header, Blob, Outcome, accepted, refused, magic, header_size, supported_version,
  max_blob, be32, ends_inside, read_header, check_blocks, probe, admit, init, saturating_add,
}

-- A header whose blocks lie inside a blob of a believable size.
pub record IsSound (h : Header) : Type 0 where
  pub holds_header : header_size ≤ h.totalsize
  pub small : h.totalsize ≤ max_blob
  pub struct_inside : h.off_dt_struct + h.size_dt_struct ≤ h.totalsize
  pub strings_inside : h.off_dt_strings + h.size_dt_strings ≤ h.totalsize
  pub reservations_inside : h.off_mem_rsvmap < h.totalsize

-- What `probe` may answer.
abbrev pub ProbeReturns : (ℕ → ℕ) → ℕ → Outcome Header → Type 0
ProbeReturns bytes va (accepted h) =
    (h ≡ read_header bytes va)
    × IsSound h
    × (0 < va)
    × (va % 8 ≡ 0)
    × (be32 bytes va 0 ≡ magic)
    × (h.last_comp_version ≤ supported_version)
    × (h.last_comp_version ≤ h.version)
ProbeReturns bytes va (refused null) = va ≡ 0
ProbeReturns bytes va (refused (misaligned a)) = (a ≡ va) × (0 < va % 8)
ProbeReturns bytes va (refused (bad_magic v)) = (v ≡ be32 bytes va 0) × (v ≢ magic)
ProbeReturns bytes va (refused (too_small n)) =
    (n ≡ (read_header bytes va).totalsize) × (n < header_size)
ProbeReturns bytes va (refused (too_large n)) =
    (n ≡ (read_header bytes va).totalsize) × (max_blob < n)
ProbeReturns bytes va (refused (version_refused v)) =
    let h = read_header bytes va in
    (v ≡ h.version) × ((supported_version < h.last_comp_version) ⊎ (v < h.last_comp_version))
ProbeReturns bytes va (refused block_out_of_range) =
    let h = read_header bytes va in
    (h.totalsize < h.off_dt_struct + h.size_dt_struct)
    ⊎ ((h.totalsize < h.off_dt_strings + h.size_dt_strings) ⊎ (h.totalsize ≤ h.off_mem_rsvmap))
ProbeReturns bytes va (refused (outside_ram a)) = ⊥

-- The last check, on a header that passed the others.
record IsFramed (bytes : ℕ → ℕ) (va : ℕ) (h : Header) : Type 0 where
  same : h ≡ read_header bytes va
  some_address : 0 < va
  aligned : va % 8 ≡ 0
  marked : be32 bytes va 0 ≡ magic
  not_small : header_size ≤ h.totalsize
  not_large : h.totalsize ≤ max_blob
  readable : h.last_comp_version ≤ supported_version
  consistent : h.last_comp_version ≤ h.version

check_blocks-ProbeReturns :
    (bytes : ℕ → ℕ) (va : ℕ)
    → (let h = read_header bytes va in IsFramed bytes va h → ProbeReturns bytes va (check_blocks h))
unfolding check_blocks
check_blocks-ProbeReturns bytes va f =
    let h = read_header bytes va in
    elim (Bool-cases (ends_inside h.totalsize h.off_dt_struct h.size_dt_struct)) [
      | inr out ↦ rw out (inl (ground (arith, f.not_large)))
      | inl inside ↦
          elim (Bool-cases (ends_inside h.totalsize h.off_dt_strings h.size_dt_strings)) [
            | inr out ↦ rw (inside, out) (inr (inl (ground (arith, f.not_large))))
            | inl inside' ↦ elim (Bool-cases (leb h.totalsize h.off_mem_rsvmap)) [
              | inl out ↦ rw (inside, inside', out) (inr (inr (ground arith)))
              | inr within ↦
                  rw (inside, inside', within)
                    (
                      f.same,
                      record {
                        holds_header = f.not_small;
                        small = f.not_large;
                        struct_inside = ground arith;
                        strings_inside = ground arith;
                        reservations_inside = ground arith;
                      },
                      f.some_address,
                      f.aligned,
                      f.marked,
                      f.readable,
                      f.consistent,
                    )
            ]
          ]
    ]

-- `probe` accepts a blob only if it stands at an aligned address, is marked, has a size between its
-- header's and one megabyte, can be read by this version, and has its structure block, its strings
-- block and the start of its reservations inside that size; the header is then the one that stands
-- there. Each refusal names a check that fails, with the value that fails it.
pub probe-ProbeReturns : (bytes : ℕ → ℕ) (va : ℕ) → ProbeReturns bytes va (probe bytes va)
unfolding probe
probe-ProbeReturns bytes va =
    let h = read_header bytes va in
    elim (Bool-cases (va == 0)) [
      | inl e ↦ rw (probe, e) (ground arith)
      | inr e0 ↦ elim (Bool-cases (va % 8 == 0)) [
        | inr e ↦ rw (probe, e0, e) (refl, ground arith)
        | inl e1 ↦ elim (Bool-cases (be32 bytes va 0 == magic)) [
          | inr e ↦ rw (probe, e0, e1, e) (refl, λ same. ground (arith, same))
          | inl e2 ↦ elim (Bool-cases (ltb h.totalsize header_size)) [
            | inl e ↦ rw (probe, e0, e1, e2, e) (refl, ground arith)
            | inr e3 ↦ elim (Bool-cases (ltb max_blob h.totalsize)) [
              | inl e ↦ rw (probe, e0, e1, e2, e3, e) (refl, ground arith)
              | inr e4 ↦
                  elim (Bool-cases (
                    ltb supported_version h.last_comp_version
                    || ltb h.version h.last_comp_version)) [
                      | inl e ↦ rw (probe, e0, e1, e2, e3, e4, e) (refl, newer e)
                      | inr e5 ↦
                          rw (probe, e0, e1, e2, e3, e4, e5)
                            (check_blocks-ProbeReturns bytes va (record {
                              same = refl;
                              some_address = ground arith;
                              aligned = ground arith;
                              marked = ground arith;
                              not_small = ground arith;
                              not_large = ground arith;
                              readable = (older e5).0;
                              consistent = (older e5).1;
                            }))
                    ]
            ]
          ]
        ]
      ]
    ]
  where
    newer :
        (let h = read_header bytes va in
          (ltb supported_version h.last_comp_version || ltb h.version h.last_comp_version) ≡ true
          → (supported_version < h.last_comp_version) ⊎ (h.version < h.last_comp_version))
    newer e =
        let h = read_header bytes va in
        elim (Bool-cases (ltb supported_version h.last_comp_version)) [
          | inl l ↦ inl (ground arith)
          | inr l ↦ inr (ground arith)
        ]

    older :
        (let h = read_header bytes va in
          (ltb supported_version h.last_comp_version || ltb h.version h.last_comp_version) ≡ false
          → (h.last_comp_version ≤ supported_version) × (h.last_comp_version ≤ h.version))
    older e = (ground arith, ground arith)

-- A blob that does not lie in RAM: its header does not, or the size that an accepted header gives.
abbrev pub NotInRam : ℕ → (ℕ → ℕ) → Memory → ℕ → Type 0
NotInRam phys_offset bytes m pa =
    (pa < m.ram_base)
    ⊎ ((m.ram_base + m.ram_length < pa + header_size)
        ⊎ ((h : Header) × (probe bytes (pa + phys_offset) ≡ accepted h)
            × (m.ram_base + m.ram_length < pa + h.totalsize)))

-- What `init` may answer.
abbrev pub InitReturns : ℕ → (ℕ → ℕ) → Memory → ℕ → Result (Outcome Blob) → Type 0
InitReturns phys_offset bytes m pa panic = ⊥
InitReturns phys_offset bytes m pa (ok (accepted b)) =
    (b.pa ≡ pa)
    × (b.va ≡ pa + phys_offset)
    × ProbeReturns bytes b.va (accepted b.header)
    × (m.ram_base ≤ pa)
    × (pa + b.header.totalsize ≤ m.ram_base + m.ram_length)
InitReturns phys_offset bytes m pa (ok (refused e)) =
    ((pa ≡ 0) × (e ≡ null))
    ⊎ (((e ≡ outside_ram pa) × NotInRam phys_offset bytes m pa)
        ⊎ (probe bytes (pa + phys_offset) ≡ refused e))

module _ (phys_offset : ℕ) (bytes : ℕ → ℕ) (m : Memory) (pa : ℕ)
    (low : m.ram_base + m.ram_length + max_blob < u64_mod)
    (mapped : m.ram_base + m.ram_length + phys_offset < u64_mod) where
  init_inside :
      0 < pa
      → m.ram_base ≤ pa
      → pa + header_size ≤ m.ram_base + m.ram_length
      → InitReturns phys_offset bytes m pa (init phys_offset bytes m pa)
  unfolding init admit
  init_inside nonzero above below =
      let top : add_u64 m.ram_base m.ram_length ≡ ok (m.ram_base + m.ram_length) = ground arith in
      let va : add_u64 pa phys_offset ≡ ok (pa + phys_offset) = ground arith in
      let first : (pa == 0) ≡ false = ground arith in
      let room : (ltb pa m.ram_base
            || ltb (m.ram_base + m.ram_length) (saturating_add u64_mod pa header_size))
          ≡ false =
        ground arith in
      go top va first room (probe bytes (pa + phys_offset)) refl
        (probe-ProbeReturns bytes (pa + phys_offset))
    where
      go :
          add_u64 m.ram_base m.ram_length ≡ ok (m.ram_base + m.ram_length)
          → add_u64 pa phys_offset ≡ ok (pa + phys_offset)
          → (pa == 0) ≡ false
          → (ltb pa m.ram_base
              || ltb (m.ram_base + m.ram_length) (saturating_add u64_mod pa header_size))
            ≡ false
          → (o : Outcome Header) → probe bytes (pa + phys_offset) ≡ o
          → ProbeReturns bytes (pa + phys_offset) o
          → InitReturns phys_offset bytes m pa (init phys_offset bytes m pa)
      go top va first room (refused e) ran p = rw (top, va, first, room, ran) (inr (inr ran))
      go top va first room (accepted h) ran p =
          let stop : add_u64 pa h.totalsize ≡ ok (pa + h.totalsize) = ground (arith, p.1.small) in
          elim (Bool-cases (ltb (m.ram_base + m.ram_length) (pa + h.totalsize))) [
            | inl out ↦
                rw (top, va, first, room, ran, stop, out)
                  (inr (inl (refl, inr (inr (h, ran, ground arith)))))
            | inr within ↦
                rw (top, va, first, room, ran, stop, within) (refl, refl, p, above, ground arith)
          ]

-- `init` does not panic where RAM ends a megabyte and more below 2^64 and the kernel's view of it
-- fits 64 bits. A blob that it accepts passed `probe` at the kernel's view of the address that it was
-- given, and lies entirely in RAM. It refuses only the null address, as null; a blob whose header,
-- or whose size once `probe` accepted it, is not in RAM, as outside RAM; or what `probe` refuses.
pub init-InitReturns :
    (phys_offset : ℕ) (bytes : ℕ → ℕ) (m : Memory) (pa : ℕ)
    → m.ram_base + m.ram_length + max_blob < u64_mod
    → m.ram_base + m.ram_length + phys_offset < u64_mod
    → InitReturns phys_offset bytes m pa (init phys_offset bytes m pa)
unfolding init
init-InitReturns phys_offset bytes m pa low mapped =
    let top : add_u64 m.ram_base m.ram_length ≡ ok (m.ram_base + m.ram_length) = ground arith in
    elim (Bool-cases (pa == 0)) [
      | inl null_pa ↦ rw null_pa (inl (ground arith, refl))
      | inr some_pa ↦
          elim (Bool-cases (
            ltb pa m.ram_base
            || ltb (m.ram_base + m.ram_length) (saturating_add u64_mod pa header_size))) [
              | inl out ↦ rw (some_pa, top, out) (inr (inl (refl, outside out)))
              | inr within ↦
                  init_inside phys_offset bytes m pa low mapped (ground arith) (ground arith)
                    (ground arith)
            ]
    ]
  where
    outside :
        (ltb pa m.ram_base
            || ltb (m.ram_base + m.ram_length) (saturating_add u64_mod pa header_size))
          ≡ true
        → NotInRam phys_offset bytes m pa
    outside out = elim (Bool-cases (ltb pa m.ram_base)) [
      | inl below ↦ inl (ground arith)
      | inr above ↦ inr (inl (ground arith))
    ]
