-- ===== src/Ipc/Inv.antt =====
-- The invariant of the tables of kernel/src/ipc.rs, and the writes to them.
pub mod Sending
pub mod Receiving
use the_rack.Base.{
  ℕ, zero, suc, ◌+◌, ◌≤◌, ◌<◌, ◌≡◌, ◌≢◌, refl, sym, subst, inl, inr, Bool, true, false, not, ◌&&◌,
  ◌||◌, Option, none, some, arith, if◌then◌else◌, ◌==◌, ltb, leb, Option-cases, Bool-cases, bit_and,
  bit_or, ap,
}
use the_rack.Base.Bits.{not_bits}
use the_rack.Frames.Allocator.{Memory, Frame}
use the_rack.Kernel.{
  Kernel, Message, Pending, send_wait, reply_wait, recv_wait, Lease, no_lease, Outcome, no_outcome,
  Table, max_tasks, max_leases, Task, update,
}
use the_rack.Tasks.{unblock_deferred, mark_current_blocked}
use the_rack.Tasks.Wake.{unblock_deferred-rest}
use the_rack.Tasks.Switch.{Switched}
use the_rack.Ipc.{
  max_message, lease_read, lease_write, set_pending, set_outcome, set_leases, set_memory, deliver,
}
use the_rack.Ipc.Waiting.{deliver_outcome}

-- A message names another task of the table, and its buffers are no longer than a message may be.
pub record MessageOk (slot : ℕ) (m : Message) : Type 0 where
  pub target_in_table : m.target < max_tasks
  pub not_itself : m.target ≢ slot
  pub short : m.out_len ≤ max_message
  pub short_reply : m.reply_cap ≤ max_message

abbrev pub PendingOk : ℕ → Option Pending → Type 0
PendingOk slot none = Unit {0}
PendingOk slot (some (send_wait m)) = MessageOk slot m
PendingOk slot (some (reply_wait m)) = MessageOk slot m
PendingOk slot (some (recv_wait buf cap)) = cap ≤ max_message

-- A lease permits something, and nothing unknown.
pub record LeaseShape (lease : Lease) : Type 0 where
  pub permits_something : lease.attrs ≢ 0
  pub known : bit_and lease.attrs (not_bits 64 (bit_or lease_read lease_write)) ≡ 0

pub record TableInv (k : Kernel) : Type 0 where
  pub current_in_table : k.current < max_tasks
  pub entries : (j : ℕ) → PendingOk j (k.table.pending j)
  pub counts : (j : ℕ) → k.table.lease_count j ≤ max_leases
  pub shapes : (j i : ℕ) → i < k.table.lease_count j → LeaseShape (k.table.leases j i)

-- The invariant speaks of the tables and the current task only.
pub keep-TableInv :
    (k n : Kernel) → n.table ≡ k.table → n.current < max_tasks → TableInv k → TableInv n
keep-TableInv k n same h inv = record {
  current_in_table = h;
  entries = λ j. subst (λ (t : Table). PendingOk j (t.pending j)) (sym same) (inv.entries j);
  counts = λ j. subst (λ (t : Table). t.lease_count j ≤ max_leases) (sym same) (inv.counts j);
  shapes =
      subst (λ (t : Table). (j i : ℕ) → i < t.lease_count j → LeaseShape (t.leases j i)) (sym same)
        inv.shapes;
}

pub Switched-TableInv : (k n : Kernel) → Switched k n → TableInv k → TableInv n
Switched-TableInv k n (rest, h) inv = keep-TableInv k n (ap (λ (k : Kernel). k.table) rest) h inv

pub set_pending-TableInv :
    (slot : ℕ) (p : Option Pending) (k : Kernel)
    → PendingOk slot p
    → TableInv k
    → TableInv (set_pending slot p k)
set_pending-TableInv slot p k good inv = record {
  current_in_table = inv.current_in_table;
  entries = λ j. elim (Bool-cases (slot == j)) [
    | inl same ↦ let at : slot ≡ j = ground arith in rw same (subst (λ i. PendingOk i p) at good)
    | inr other ↦ rw other (inv.entries j)
  ];
  counts = inv.counts;
  shapes = inv.shapes;
}

pub set_leases-TableInv :
    (slot : ℕ) (leases : ℕ → Lease) (count : ℕ) (k : Kernel)
    → count ≤ max_leases
    → ((i : ℕ) → i < count → LeaseShape (leases i))
    → TableInv k
    → TableInv (set_leases slot leases count k)
set_leases-TableInv slot leases count k h good inv = record {
  current_in_table = inv.current_in_table;
  entries = inv.entries;
  counts = λ j. elim (Bool-cases (slot == j)) [
    | inl same ↦ rw same h
    | inr other ↦ rw other (inv.counts j)
  ];
  shapes = λ j. elim (Bool-cases (slot == j)) [
    | inl same ↦ rw same good
    | inr other ↦ rw other (inv.shapes j)
  ];
}

pub set_outcome-TableInv :
    (slot : ℕ) (o : Outcome) (k : Kernel) → TableInv k → TableInv (set_outcome slot o k)
set_outcome-TableInv slot o k inv = record {
  current_in_table = inv.current_in_table;
  entries = inv.entries;
  counts = inv.counts;
  shapes = inv.shapes;
}

pub deliver_outcome-TableInv :
    (sender rc len : ℕ) (k : Kernel) → TableInv k → TableInv (deliver_outcome sender rc len k)
unfolding deliver_outcome
deliver_outcome-TableInv sender rc len k inv =
    let o : Outcome = record { a = rc; b = len; c = 0 } in
    set_leases-TableInv sender (λ _. no_lease) 0 (set_pending sender none (set_outcome sender o k))
      (omega arith) (λ i p. absurd (omega arith))
      (set_pending-TableInv sender none (set_outcome sender o k) tt
        (set_outcome-TableInv sender o k inv))

pub unblock_deferred-TableInv :
    (id : ℕ) (k : Kernel) → TableInv k → TableInv (unblock_deferred id k).1
unblock_deferred-TableInv id k inv =
    let rest = unblock_deferred-rest id k in
    keep-TableInv k (unblock_deferred id k).1 (ap (λ (k : Kernel). k.table) rest)
      (rw (ap (λ (k : Kernel). k.current) rest) inv.current_in_table) inv

pub mark_current_blocked-TableInv : (k : Kernel) → TableInv k → TableInv (mark_current_blocked k)
unfolding mark_current_blocked
mark_current_blocked-TableInv k inv =
    keep-TableInv k (mark_current_blocked k) (ground arith) (ground (arith, inv.current_in_table))
      inv

-- A delivery changes memory only.
deliver-rest :
    (src src_buf src_len dst dst_buf dst_cap : ℕ) (k : Kernel)
    → let n = (deliver src src_buf src_len dst dst_buf dst_cap k).1 in
      n ≡ record k { memory = n.memory }
unfolding deliver
deliver-rest src src_buf src_len dst dst_buf dst_cap k = ground arith

pub deliver-TableInv :
    (src src_buf src_len dst dst_buf dst_cap : ℕ) (k : Kernel)
    → TableInv k
    → TableInv (deliver src src_buf src_len dst dst_buf dst_cap k).1
deliver-TableInv src src_buf src_len dst dst_buf dst_cap k inv =
    let rest = deliver-rest src src_buf src_len dst dst_buf dst_cap k in
    keep-TableInv k _ (ap (λ (k : Kernel). k.table) rest)
      (rw (ap (λ (k : Kernel). k.current) rest) inv.current_in_table) inv
