-- ===== src/Virtio/Discovery.antt =====
-- The discovery of transports in kernel/src/virtio.rs: `probe`, `discover` and `find`. Each window has
-- a device and a trace of its own. The tree is read from bytes that mapping a window leaves alone.
pub mod Slots
pub mod Table
mod Tests
use the_rack.Base.{
  ℕ, zero, suc, ◌+◌, Bool, true, false, not, Option, none, some, List, [], ◌∷◌, ◌++◌, length,
  Result, ok, panic, ◌>>=◌, if◌then◌else◌, ◌==◌, ltb, leb,
}
use the_rack.Frames.Allocator.{Memory}
use the_rack.Paging.Device.{MapRange, map_device}
use the_rack.Kernel.{update}
use the_rack.Fdt.{Blob, Slice, be32, add_u32}
use the_rack.Fdt.Walk.{Node}
use the_rack.Fdt.Lookup.{property_of, regions, find_compatible_after}
use the_rack.Virtio.{Trace, Device, Error, not_virtio, wrong_version, read, device_features}

abbrev pub virtio_magic : ℕ
virtio_magic = 0x7472_6976

abbrev pub virtio_version : ℕ
virtio_version = 2

abbrev pub max_transports : ℕ
max_transports = 32

abbrev pub magic_value : ℕ
magic_value = 0x000

abbrev pub version_reg : ℕ
version_reg = 0x004

abbrev pub device_id_reg : ℕ
device_id_reg = 0x008

-- "interrupts" and "virtio,mmio"
abbrev pub interrupts_name : List ℕ
interrupts_name = 105 ∷ 110 ∷ 116 ∷ 101 ∷ 114 ∷ 114 ∷ 117 ∷ 112 ∷ 116 ∷ 115 ∷ []

abbrev pub mmio_name : List ℕ
mmio_name = 118 ∷ 105 ∷ 114 ∷ 116 ∷ 105 ∷ 111 ∷ 44 ∷ 109 ∷ 109 ∷ 105 ∷ 111 ∷ []

pub record Transport : Type 0 where
  pub base : ℕ
  pub intid : ℕ
  pub device_id : ℕ
  pub features : ℕ

-- `Option<Result<Transport, Error>>` of the source.
pub data Probed : Type 0 where
  missing : Probed
  refused : Error → Probed
  found : Transport → Probed

-- Memory, with the tables that map the windows, and what was done at each window, the last first.
pub record Windows : Type 0 where
  pub memory : Memory
  pub traces : ℕ → Trace

-- The first two cells of `interrupts`, and the interrupt that they name.
pub intid_of : (ℕ → ℕ) → Slice → Result (Option ℕ)
intid_of bytes s =
    let kind = be32 bytes s.start 0 in
    let number = be32 bytes s.start 4 in
    if ltb s.size 8
    then ok none
    else if kind == 0
    then add_u32 number 32 >>= (λ intid. ok (some intid))
    else if kind == 1
    then add_u32 number 16 >>= (λ intid. ok (some intid))
    else ok none

-- The end of `probe`: what the registers of a window say.
pub identify : Device → ℕ → ℕ → Trace → Probed × Trace
identify device base intid t =
    let (magic, t) = read device magic_value t in
    if not (magic == virtio_magic)
    then (refused (not_virtio magic), t)
    else let (version, t) = read device version_reg t in
      if not (version == virtio_version)
      then (refused (wrong_version version), t)
      else let (id, t) = read device device_id_reg t in
        let (features, t) = device_features device t in
        (found (record { base = base; intid = intid; device_id = id; features = features }), t)

-- What the loop of `discover` does with the answer of `probe`.
pub note_transport : Probed → List Transport → List Transport
note_transport (found t) table =
    if t.device_id == 0
    then table
    else if ltb (length table) max_transports
    then table ++ (t ∷ [])
    else table
note_transport missing table = table
note_transport (refused e) table = table

pub find : List Transport → ℕ → Option Transport
find [] id = none
find (t ∷ table) id = let rest = find table id in if t.device_id == id then some t else rest

module _ (bytes : ℕ → ℕ) (is_utf8 : List ℕ → Bool) (devices : ℕ → Device) (map_range : MapRange)
    (b : Blob) where
  -- `probe` once the window is mapped and the interrupt known.
  pub identify_at : ℕ → Option ℕ → Windows → Probed × Windows
  unfolding identify
  identify_at base none w = (missing, w)
  identify_at base (some intid) w =
      let (probed, t) = identify (devices base) base intid (w.traces base) in
      (probed, record w { traces = update w.traces base t })

  pub probe_window : Node → List (ℕ × ℕ) → Windows → Result (Probed × Windows)
  unfolding intid_of
  probe_window n [] w = ok (missing, w)
  probe_window n ((base, size) ∷ more) w = do
    mapped ← map_device map_range base size w.memory
    interrupts ← property_of bytes is_utf8 b n interrupts_name
    intid ← elim interrupts [ none ↦ ok none | some s ↦ intid_of bytes s ]
    ok (identify_at base intid (record w { memory = mapped.1 }))

  pub probe : Node → Windows → Result (Probed × Windows)
  unfolding probe_window
  probe n w = do windows ← regions bytes is_utf8 b n 1; probe_window n windows w

  -- The loop of `discover`: it may look at `room` more slots. Its answer is the slots looked at, the
  -- table and the windows.
  pub discover_from : ℕ → ℕ → ℕ → List Transport → Windows → Result (ℕ × List Transport × Windows)
  unfolding probe note_transport
  discover_from zero slots offset table w = ok (slots, table, w)
  discover_from (suc room) slots offset table w = do
    next ← find_compatible_after bytes is_utf8 b mmio_name offset
    elim next [
      | none ↦ ok (slots, table, w)
      | some n ↦ do
        (probed, w) ← probe n w
        discover_from room (slots + 1) n.offset (note_transport probed table) w
    ]

  pub discover : Windows → Result (ℕ × List Transport × Windows)
  unfolding discover_from
  discover w = discover_from max_transports 0 0 [] w
