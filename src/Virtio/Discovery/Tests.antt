-- ===== src/Virtio/Discovery/Tests.antt =====
-- The discovery in a device tree whose root is a transport.
use the_rack.Base.{
  ok, ℕ, ◌+◌, ◌-◌, Bool, true, ◌&&◌, List, [], ◌∷◌, get_or, if◌then◌else◌, ltb, leb,
}
use the_rack.Fdt.{Blob, Header}
use the_rack.Kernel.Sample.{sample_memory}
use the_rack.Paging.Device.{MapRange}
use the_rack.Virtio.{Device}
use the_rack.Virtio.Discovery.{Windows, virtio_magic, virtio_version}

-- A big-endian word below 256.
abbrev word : ℕ → List ℕ → List ℕ
word v rest = 0 ∷ 0 ∷ 0 ∷ v ∷ rest

-- The root: "virtio,mmio", a window of 0x200 bytes at 0xa000000, and shared interrupt 16.
abbrev structure : List ℕ
structure = word 1 (
    word 0 (
      word 3 (
        word 12 (
          word 0 (
            118
            ∷ 105
            ∷ 114
            ∷ 116
            ∷ 105
            ∷ 111
            ∷ 44
            ∷ 109
            ∷ 109
            ∷ 105
            ∷ 111
            ∷ 0
            ∷ word 3 (
                word 12 (
                  word 11 (
                    word 0 (
                      10
                      ∷ 0
                      ∷ 0
                      ∷ 0
                      ∷ 0
                      ∷ 0
                      ∷ 2
                      ∷ 0
                      ∷ word 3 (
                          word 12 (
                            word 15 (
                              word 0 (
                                word 16 (
                                  word 1 (
                                    word 2 (
                                      word 9 (
                                        99 ∷ 111 ∷ 109 ∷ 112 ∷ 97 ∷ 116 ∷ 105 ∷ 98 ∷ 108 ∷ 101 ∷ 0
                                        ∷ 114 ∷ 101 ∷ 103 ∷ 0 ∷ 105 ∷ 110 ∷ 116 ∷ 101 ∷ 114 ∷ 114
                                        ∷ 117 ∷ 112 ∷ 116 ∷ 115 ∷ 0 ∷ [])))))))))))))))))

abbrev base : ℕ
base = 0x4000_0000

abbrev tree_bytes : ℕ → ℕ
tree_bytes a = if ltb a (base + 40) then 0 else get_or structure (a - (base + 40)) 0

abbrev is_text : List ℕ → Bool
is_text text = true

abbrev header : Header
header = record {
  totalsize = 154;
  off_dt_struct = 40;
  off_dt_strings = 128;
  off_mem_rsvmap = 40;
  version = 17;
  last_comp_version = 16;
  boot_cpuid_phys = 0;
  size_dt_strings = 26;
  size_dt_struct = 88;
}

abbrev blob : Blob
blob = record { pa = base; va = base; header = header }

-- Every byte of the tree is below 128.
abbrev is_ascii : List ℕ → Bool
is_ascii [] = true
is_ascii (x ∷ xs) = ltb x 128 && is_ascii xs

-- An entropy source behind every window.
abbrev device : Device
device t register =
    if leb register 0 then virtio_magic else if leb register 4 then virtio_version else 4

-- Tables that cost nothing.
abbrev nothing_maps : MapRange
nothing_maps va pa len m = ok m

abbrev untouched : Windows
untouched = record { memory = sample_memory; traces = λ base. [] }
