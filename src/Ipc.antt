-- ===== src/Ipc.antt =====
-- kernel/src/ipc.rs: the tables, and `deliver`. A handler that parks is a program of
-- Kernel.Prog; addresses are those of the tables that the caller's or the peer's space names.
pub mod Lending
pub mod Waiting
pub mod Answering
pub mod Sending
pub mod Receiving
pub mod Reply
pub mod Collect
pub mod Borrow
pub mod Abandon
pub mod Queue
pub mod Inv
pub mod Delivery
mod Tests
use the_rack.Base.{
  ℕ, zero, suc, ◌+◌, ◌-◌, ◌*◌, ◌%◌, ◌^◌, min, Bool, true, false, not, ◌&&◌, ◌||◌, Option, none,
  some, if◌then◌else◌, ◌==◌, ltb, u64_mod, bit_and, bit_or,
}
use the_rack.Base.Bits.{not_bits}
use the_rack.Frames.Allocator.{Memory, Frame}
use the_rack.Paging.{user_readable, user_writable, translate, copy_across}
use the_rack.Paging.Words.{read_u64}
use the_rack.Kernel.{
  Kernel, Lease, no_lease, Message, Pending, send_wait, reply_wait, recv_wait, Outcome, no_outcome,
  Table, max_tasks, max_leases, update,
}
use the_rack.Kernel.Prog.{
  Prog, M, ret, yield, halt, and_then, ◌>>=◌, ◌>>◌, return, get, modify, run,
}
use the_rack.Tasks.{
  Spaces, space_root_of, priority_of, is_alive, outranks, mark_current_blocked, unblock_deferred,
  park, unblock,
}
use the_rack.Notify
use the_rack.Notify.{arm, disarm}

abbrev pub max_message : ℕ
max_message = 256

abbrev pub max_borrow : ℕ
max_borrow = 4096

abbrev pub lease_read : ℕ
lease_read = 1

abbrev pub lease_write : ℕ
lease_write = 2

abbrev pub lease_stride : ℕ
lease_stride = 24

abbrev pub einval : ℕ
einval = u64_mod - 1

abbrev pub efault : ℕ
efault = u64_mod - 2

abbrev pub edead : ℕ
edead = u64_mod - 3

abbrev pub eperm : ℕ
eperm = u64_mod - 4

abbrev pub notification : ℕ
notification = u64_mod - 1

-- Writes to one entry of the tables.
abbrev pub set_pending : ℕ → Option Pending → Kernel → Kernel
set_pending slot p k = record k {
  table = record (k.table) { pending = update k.table.pending slot p };
}

abbrev pub set_outcome : ℕ → Outcome → Kernel → Kernel
set_outcome slot o k = record k {
  table = record (k.table) { outcome = update k.table.outcome slot o };
}

abbrev pub set_leases : ℕ → (ℕ → Lease) → ℕ → Kernel → Kernel
set_leases slot leases count k = record k {
  table = record (k.table) {
    leases = update k.table.leases slot leases;
    lease_count = update k.table.lease_count slot count;
  };
}

abbrev pub set_memory : Memory → Kernel → Kernel
set_memory m k = record k { memory = m }

unfoldable pub root_of : ℕ → Kernel → Option Frame
root_of id k = space_root_of id k

-- What arrived, if anything could be delivered.
unfoldable pub deliver : ℕ → ℕ → ℕ → ℕ → ℕ → ℕ → Kernel → Option ℕ × Kernel
deliver src src_buf src_len dst dst_buf dst_cap k =
    let len = min src_len dst_cap in
    if len == 0 then (some 0, k) else elim (root_of src k) [
      | none ↦ (none, k)
      | some src_root ↦ elim (root_of dst k) [
        | none ↦ (none, k)
        | some dst_root ↦
            if not (user_readable src_root src_buf len k.memory)
            then (none, k)
            else if not (user_writable dst_root dst_buf len k.memory)
            then (none, k)
            else let copied = copy_across src_root src_buf dst_root dst_buf len k.memory in
              (if copied.1 then some len else none, set_memory copied.0 k)
      ]
    ]
