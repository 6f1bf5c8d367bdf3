-- ===== src/Virtio/Discovery/Table.antt =====
-- The table of transports that `discover` of kernel/src/virtio.rs fills, and `find` in it.
use the_rack.Base.{
  ℕ, ◌+◌, ◌%◌, ◌^◌, ◌≤◌, ◌<◌, ◌≡◌, refl, inl, inr, List, [], ◌∷◌, ◌++◌, length, arith, Bool-cases,
  ◌==◌, ltb,
}
use the_rack.Virtio.{Trace, Device, read_from}
use the_rack.Virtio.Discovery.{
  Transport, Probed, missing, refused, found, note_transport, identify, max_transports, magic_value,
  version_reg, virtio_magic, virtio_version,
}

-- A transport with a device in it, whose interrupt is none that software raises.
pub record IsOccupied (t : Transport) : Type 0 where
  pub has_device : 0 < t.device_id
  pub hardware : 16 ≤ t.intid

unfoldable pub AllOccupied : List Transport → Type 0
AllOccupied [] = Unit
AllOccupied (t ∷ table) = IsOccupied t × AllOccupied table

-- The interrupt of what `probe` found.
abbrev pub IsHardware : Probed → Type 0
IsHardware missing = Unit
IsHardware (refused e) = Unit
IsHardware (found t) = 16 ≤ t.intid

pub identify-IsHardware :
    (device : Device) (base intid : ℕ) (t : Trace)
    → 16 ≤ intid
    → IsHardware (identify device base intid t).0
unfolding identify
identify-IsHardware device base intid t h =
    elim (Bool-cases (device t magic_value % 2 ^ 32 == virtio_magic)) [
      | inr other ↦ rw (other, identify) tt
      | inl same ↦
          elim (Bool-cases
            (device (read_from magic_value ∷ t) version_reg % 2 ^ 32 == virtio_version)) [
              | inr other ↦ rw (same, other, identify) tt
              | inl same' ↦ rw (same, same', identify) h
            ]
    ]

append-AllOccupied :
    (table : List Transport) (t : Transport)
    → AllOccupied table
    → IsOccupied t
    → AllOccupied (table ++ (t ∷ []))
unfolding AllOccupied
append-AllOccupied [] t all one = (one, tt)
append-AllOccupied (x ∷ table) t (first, all) one = (first, append-AllOccupied table t all one)

length-append :
    (table : List Transport) (t : Transport) → length (table ++ (t ∷ [])) ≡ length table + 1
length-append [] t = refl
length-append (x ∷ table) t = omega (arith, length-append table t)

-- The table takes one more entry at most, and only one with a device.
pub note_transport-AllOccupied :
    (p : Probed) (table : List Transport)
    → IsHardware p
    → AllOccupied table
    → AllOccupied (note_transport p table) × (length (note_transport p table) ≤ length table + 1)
unfolding note_transport
note_transport-AllOccupied missing table h all = (all, omega arith)
note_transport-AllOccupied (refused e) table h all = (all, omega arith)
note_transport-AllOccupied (found t) table h all = elim (Bool-cases (t.device_id == 0)) [
  | inl empty ↦ rw (empty, note_transport) (all, omega arith)
  | inr there ↦ elim (Bool-cases (ltb (length table) max_transports)) [
    | inl room ↦
        rw (there, room, note_transport)
          (
            append-AllOccupied table t all (record { has_device = ground arith; hardware = h }),
            omega (arith, length-append table t),
          )
    | inr full ↦ rw (there, full, note_transport) (all, omega arith)
  ]
]
