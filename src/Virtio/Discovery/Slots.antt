-- ===== src/Virtio/Discovery/Slots.antt =====
-- The walk of `discover` in kernel/src/virtio.rs over the slots of a device tree.
use the_rack.Base.{ℕ, ◌+◌, ◌≤◌, ◌≡◌, Bool, Option, none, some, List, ◌∷◌, length, Result, ok, panic}
use the_rack.Fdt.{Blob}
use the_rack.Fdt.Walk.{Node}
use the_rack.Fdt.Lookup.{regions, find_compatible_after}
use the_rack.Frames.Allocator.{Memory}
use the_rack.Paging.Device.{MapRange, map_device}
use the_rack.Virtio.{Device}
use the_rack.Virtio.Discovery.{Transport, Probed, Windows, mmio_name}
use the_rack.Virtio.Discovery.Table.{IsHardware, AllOccupied}

-- An interrupt read from a tree: none, or one that no software raises.
abbrev pub IntidReturns : Result (Option ℕ) → Type 0
IntidReturns panic = ⊥
IntidReturns (ok none) = Unit
IntidReturns (ok (some intid)) = 16 ≤ intid

module _ (bytes : ℕ → ℕ) (is_utf8 : List ℕ → Bool) (map_range : MapRange) (b : Blob) where
  -- The window of a node is one that `map_device` panics on.
  abbrev pub IsStuck : Node → Type 0
  IsStuck n =
      (base size : ℕ) × (more : List (ℕ × ℕ)) × (m : Memory) × (regions bytes is_utf8 b n 1
        ≡ ok ((base, size) ∷ more))
      × (map_device map_range base size m ≡ panic)

  -- So it is for a transport that the search finds.
  abbrev pub CannotMap : Type 0
  CannotMap =
      (offset : ℕ) × (n : Node) × (find_compatible_after bytes is_utf8 b mmio_name offset
        ≡ ok (some n))
      × IsStuck n

-- What `probe` may answer, if it may panic only for `S`.
abbrev pub ProbedReturns : Type 0 → Result (Probed × Windows) → Type 0
ProbedReturns S panic = S
ProbedReturns S (ok (p, w)) = IsHardware p

-- What the loop may answer when it started with `slots` slots and `known` entries.
abbrev pub DiscoverReturns : Type 0 → ℕ → ℕ → ℕ → Result (ℕ × List Transport × Windows) → Type 0
DiscoverReturns S room slots known panic = S
DiscoverReturns S room slots known (ok (slots', table, w)) =
    (slots' ≤ slots + room) × (length table + slots ≤ known + slots') × AllOccupied table
