-- ===== src/Kernel.antt =====
-- The kernel's mutable state, all of it: what kernel/src/tasks.rs, ipc.rs, notify.rs and frames.rs
-- keep behind their locks. Interrupts are masked while a handler runs, so between two points where
-- it gives up the CPU a handler is one step on this state. An array with an entry for each task is
-- a function of the slot: the code indexes it by `current` or by a slot that it has checked.
pub mod Prog
pub mod Sample
use Prim.Native.String.{String}
use the_rack.Base.{ℕ, Bool, Option, none, some, if◌then◌else◌, ◌==◌, ltb}
use the_rack.Frames.Allocator.{Memory, Frame}

abbrev pub max_tasks : ℕ
max_tasks = 8

abbrev pub max_leases : ℕ
max_leases = 4

-- The entry of one slot replaced.
abbrev pub update {ℓ} : {A : Type ℓ} → (ℕ → A) → ℕ → A → ℕ → A
update f slot value i = if slot == i then value else f i

pub data State : Type 0 where
  runnable blocked zombie dead faulted : State

pub record Fault : Type 0 where
  pub esr : ℕ
  pub far : ℕ
  pub elr : ℕ

pub record Image : Type 0 where
  pub start : ℕ
  pub stop : ℕ
  pub arg : ℕ

-- `space` is the root of the task's address space.
pub record Task : Type 0 where
  pub name : String
  pub space : Option Frame
  pub sp : ℕ
  pub stack : Frame
  pub owns_stack : Bool
  pub priority : ℕ
  pub state : State
  pub exit_code : Option ℕ
  pub fault : Option Fault
  pub image : Option Image

pub data Reason : Type 0 where
  voluntary preemptive : Reason

pub record SwitchLog : Type 0 where
  pub origin : ℕ → ℕ
  pub target : ℕ → ℕ
  pub was_preemptive : ℕ → Bool
  pub len : ℕ
  pub overflow : ℕ
  pub preemptions : ℕ

pub record Lease : Type 0 where
  pub base : ℕ
  pub len : ℕ
  pub attrs : ℕ

abbrev pub no_lease : Lease
no_lease = record { base = 0; len = 0; attrs = 0 }

pub record Message : Type 0 where
  pub target : ℕ
  pub operation : ℕ
  pub out : ℕ
  pub out_len : ℕ
  pub reply_buf : ℕ
  pub reply_cap : ℕ

pub data Pending : Type 0 where
  send_wait : Message → Pending
  reply_wait : Message → Pending
  recv_wait : ℕ → ℕ → Pending

pub record Outcome : Type 0 where
  pub a : ℕ
  pub b : ℕ
  pub c : ℕ

abbrev pub no_outcome : Outcome
no_outcome = record { a = 0; b = 0; c = 0 }

-- The leases of a slot are an array of `max_leases`, a function of the index.
pub record Table : Type 0 where
  pub pending : ℕ → Option Pending
  pub outcome : ℕ → Outcome
  pub leases : ℕ → ℕ → Lease
  pub lease_count : ℕ → ℕ

pub record Route : Type 0 where
  pub intid : ℕ
  pub task : ℕ
  pub bits : ℕ

pub record Notifications : Type 0 where
  pub routes : ℕ → Option Route
  pub posted : ℕ → ℕ
  pub wanted : ℕ → ℕ

pub record Kernel : Type 0 where
  pub memory : Memory
  pub tasks : ℕ → Option Task
  pub current : ℕ
  pub log : SwitchLog
  pub need_resched : Bool
  pub empty_space : Option Frame
  pub active_root : Frame
  pub supervisor : Option ℕ
  pub fault_waiters : ℕ → Bool
  pub table : Table
  pub notify : Notifications
