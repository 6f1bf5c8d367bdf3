-- ===== src/Ipc/Borrow.antt =====
-- `borrow` of kernel/src/ipc.rs: what a borrower may reach, and when it may not.
use the_rack.Base.{
  ℕ, ◌+◌, ◌≤◌, ◌<◌, ◌≡◌, ◌≢◌, refl, inl, inr, Bool, true, false, Option, none, some, arith,
  if◌then◌else◌, ◌==◌, ltb, bit_and, Bool-cases,
}
use the_rack.Kernel.{Kernel, Pending, send_wait, reply_wait, recv_wait, Lease, max_tasks}
use the_rack.Ipc.Waiting.{deliver_outcome}
use the_rack.Ipc.Lending.{borrow, borrow_copy, usable_lease}
use the_rack.Ipc.{einval, max_borrow, lease_read, lease_write}
use the_rack.Ipc.Reply.{Awaits}

-- What a slot shows a borrower of lease `index`.
pub data Shown (k : Kernel) (peer index : ℕ) : Option Lease → Type 0 where
  shows :
      Awaits k peer
      → index < k.table.lease_count peer
      → Shown k peer index (some (k.table.leases peer index))
  hides : Shown k peer index none

usable_lease-Shown :
    (k : Kernel) (peer index : ℕ) → Shown k peer index (usable_lease k.current peer index k)
unfolding usable_lease
usable_lease-Shown k peer index = go (k.table.pending peer) refl
  where
    go :
        (p : Option Pending)
        → k.table.pending peer ≡ p
        → Shown k peer index (usable_lease k.current peer index k)
    go none e = rw (e, usable_lease) hides
    go (some (send_wait m)) e = rw (e, usable_lease) hides
    go (some (recv_wait b c)) e = rw (e, usable_lease) hides
    go (some (reply_wait m)) e =
        rw (e, usable_lease)
          (elim (Bool-cases (m.target == k.current)) [
            | inr other ↦ rw (other, usable_lease) hides
            | inl mine ↦ rw mine (elim (Bool-cases (ltb index (k.table.lease_count peer))) [
              | inr past ↦ rw past hides
              | inl inside ↦ rw inside (shows (m, e, ground arith) (ground arith))
            ])
          ])

-- What a borrow that succeeded was entitled to.
pub record Granted (k : Kernel) (peer index offset len : ℕ) (writing : Bool) : Type 0 where
  pub peer_in_table : peer < max_tasks
  pub awaited : Awaits k peer
  pub lease_given : index < k.table.lease_count peer
  pub permitted :
      bit_and (k.table.leases peer index).attrs (if writing then lease_write else lease_read) ≢ 0
  pub inside : offset + len ≤ (k.table.leases peer index).len
  pub short : len ≤ max_borrow

-- A borrow that reports success was entitled to it: the lease's owner is a task that waits for a reply
-- from the caller, the lease is one that the owner gave and permits the direction of the copy, and
-- the bytes lie inside it and are no more than a borrow may move.
pub borrow-Granted :
    (peer index offset local len : ℕ) (writing : Bool) (k : Kernel)
    → (borrow peer index offset local len writing k).1 ≡ 0
    → Granted k peer index offset len writing
unfolding borrow
borrow-Granted peer index offset local len writing k success =
    go (usable_lease k.current peer index k) refl (usable_lease-Shown k peer index)
  where
    go :
        (o : Option Lease)
        → usable_lease k.current peer index k ≡ o
        → Shown k peer index o
        → Granted k peer index offset len writing
    go none e shown = absurd (ground arith)
    go (some _) e (shows awaits given) = record {
      peer_in_table = ground arith;
      awaited = awaits;
      lease_given = given;
      permitted = ground arith;
      inside = ground arith;
      short = ground arith;
    }

-- A borrow from a slot that does not wait for the caller's answer is refused with EINVAL, and
-- changes nothing.
pub borrow_refused :
    (peer index offset local len : ℕ) (writing : Bool) (k : Kernel)
    → ¬ Awaits k peer
    → borrow peer index offset local len writing k ≡ (k, einval)
unfolding borrow
borrow_refused peer index offset local len writing k absent =
    go (usable_lease k.current peer index k) refl (usable_lease-Shown k peer index)
  where
    go :
        (o : Option Lease)
        → usable_lease k.current peer index k ≡ o
        → Shown k peer index o
        → borrow peer index offset local len writing k ≡ (k, einval)
    go none e shown = ground arith
    go (some _) e (shows awaits given) = absurd (absent awaits)

-- A borrow changes nothing of the kernel but the bytes of memory.
borrow-rest :
    (peer index offset local len : ℕ) (writing : Bool) (k : Kernel)
    → (borrow peer index offset local len writing k).0
      ≡ record k { memory = (borrow peer index offset local len writing k).0.memory }
unfolding borrow borrow_copy
borrow-rest peer index offset local len true k = ground arith
borrow-rest peer index offset local len false k = ground arith

-- A lease dies with the answer that its owner was waiting for: once the owner's outcome is delivered, by a
-- reply, a failure or the other side's death, every borrow from it is refused with EINVAL and changes
-- nothing.
pub borrow_expired :
    (owner rc answer_len index offset local len : ℕ) (writing : Bool) (k : Kernel)
    → borrow owner index offset local len writing (deliver_outcome owner rc answer_len k)
      ≡ (deliver_outcome owner rc answer_len k, einval)
unfolding deliver_outcome
borrow_expired owner rc answer_len index offset local len writing k =
    borrow_refused owner index offset local len writing (deliver_outcome owner rc answer_len k)
      (λ (message, waits, mine). absurd (ground arith))
