-- ===== src/Virtio.antt =====
-- The registers of a virtio transport, of kernel/src/virtio.rs. What the device answers is not the
-- kernel's: a `Device` gives the value of a register after the accesses so far, the last one first.
pub mod Handshake
pub mod Discovery
use the_rack.Base.{
  ℕ, zero, suc, ◌+◌, ◌*◌, ◌/◌, ◌%◌, ◌^◌, Bool, true, false, not, Option, none, some, List, [], ◌∷◌,
  if◌then◌else◌, ◌==◌, bit_and, bit_or,
}
use the_rack.Base.Bits.{bit}

pub data Access : Type 0 where
  wrote : ℕ → ℕ → Access
  read_from : ℕ → Access

abbrev pub Trace : Type 0
Trace = List Access

abbrev pub Device : Type 0
Device = Trace → ℕ → ℕ

abbrev pub device_features_reg : ℕ
device_features_reg = 0x010

abbrev pub device_features_sel : ℕ
device_features_sel = 0x014

abbrev pub driver_features_reg : ℕ
driver_features_reg = 0x020

abbrev pub driver_features_sel : ℕ
driver_features_sel = 0x024

abbrev pub interrupt_status : ℕ
interrupt_status = 0x060

abbrev pub interrupt_ack : ℕ
interrupt_ack = 0x064

abbrev pub status_reg : ℕ
status_reg = 0x070

-- Bits of the status register.
abbrev pub status_acknowledge : ℕ
status_acknowledge = 1

abbrev pub status_driver : ℕ
status_driver = 2

abbrev pub status_features_ok : ℕ
status_features_ok = 8

abbrev pub status_driver_ok : ℕ
status_driver_ok = 4

abbrev pub status_failed : ℕ
status_failed = 128

abbrev pub virtio_f_version_1 : ℕ
virtio_f_version_1 = 2 ^ 32

pub data Error : Type 0 where
  not_virtio : ℕ → Error
  wrong_version : ℕ → Error
  legacy : Error
  features_refused : Error

-- `Result<u64, Error>` of the source.
pub data Answer : Type 0 where
  agreed : ℕ → Answer
  failed : Error → Answer

-- A register holds 32 bits.
abbrev pub read : Device → ℕ → Trace → ℕ × Trace
read device register t = (device t register % 2 ^ 32, read_from register ∷ t)

abbrev pub write : ℕ → ℕ → Trace → Trace
write register value t = wrote register value ∷ t

unfoldable pub device_features : Device → Trace → ℕ × Trace
device_features device t =
    let (high, t) = read device device_features_reg (write device_features_sel 1 t) in
    let (low, t) = read device device_features_reg (write device_features_sel 0 t) in
    (bit_or (high * 2 ^ 32) low, t)

unfoldable pub set_driver_features : ℕ → Trace → Trace
set_driver_features features t =
    let t = write driver_features_sel 1 t in
    let t = write driver_features_reg (features / 2 ^ 32 % 2 ^ 32) t in
    let t = write driver_features_sel 0 t in write driver_features_reg (features % 2 ^ 32) t

-- `while self.read(STATUS) != 0`; nothing when the device takes longer than the fuel.
unfoldable pub await_reset : ℕ → Device → Trace → Option Trace
await_reset zero device t = none
await_reset (suc fuel) device t =
    let (status, t) = read device status_reg t in
    let later = await_reset fuel device t in if status == 0 then some t else later

unfoldable pub reset : ℕ → Device → Trace → Option Trace
unfolding await_reset
reset fuel device t = await_reset fuel device (write status_reg 0 t)

-- `negotiate` after the reset.
unfoldable pub agree : Device → ℕ → Trace → Answer × Trace
agree device wanted t =
    let t = write status_reg status_acknowledge t in
    let t = write status_reg (bit_or status_acknowledge status_driver) t in
    let (offered, t) = device_features device t in
    if bit_and offered virtio_f_version_1 == 0
    then (failed legacy, write status_reg status_failed t)
    else let features = bit_and offered (bit_or wanted virtio_f_version_1) in
      let t = set_driver_features features t in
      let ready = bit_or (bit_or status_acknowledge status_driver) status_features_ok in
      let (status, t) = read device status_reg (write status_reg ready t) in
      if bit_and status status_features_ok == 0
      then (failed features_refused, write status_reg status_failed t)
      else (agreed features, t)

unfoldable pub negotiate : ℕ → Device → ℕ → Trace → Option (Answer × Trace)
unfolding reset agree
negotiate fuel device wanted t = elim (reset fuel device t) [
  | none ↦ none
  | some t ↦ some (agree device wanted t)
]

unfoldable pub set_driver_ok : Device → Trace → Trace
set_driver_ok device t =
    let (status, t) = read device status_reg t in
    write status_reg (bit_or status status_driver_ok) t

unfoldable pub ack_interrupt : Device → Trace → ℕ × Trace
ack_interrupt device t =
    let (status, t) = read device interrupt_status t in
    if status == 0 then (status, t) else (status, write interrupt_ack status t)

-- The last value written to a register.
unfoldable pub last_written : ℕ → Trace → Option ℕ
last_written register [] = none
last_written register (wrote r v ∷ t) = if r == register then some v else last_written register t
last_written register (read_from r ∷ t) = last_written register t
