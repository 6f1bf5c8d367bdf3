-- ===== src/Ipc/Waiting.antt =====
-- Who waits on whom in kernel/src/ipc.rs: `best_sender`, `deliver_outcome`, `abandon`.
use the_rack.Base.{
  ℕ, zero, suc, ◌+◌, Bool, true, false, not, Option, none, some, if◌then◌else◌, ◌==◌, ltb,
}
use the_rack.Kernel.{
  Kernel, no_lease, Pending, send_wait, reply_wait, recv_wait, Outcome, no_outcome, max_tasks,
  update,
}
use the_rack.Tasks.{priority_of, outranks, unblock_deferred}
use the_rack.Ipc.{edead, set_pending, set_outcome, set_leases}

-- `core::mem::take` of an outcome.
abbrev pub take_outcome : ℕ → Kernel → Outcome × Kernel
take_outcome slot k = (k.table.outcome slot, set_outcome slot no_outcome k)

-- One slot of `best_sender` against the best so far.
abbrev pub better_sender : ℕ → Kernel → ℕ → Option (ℕ × ℕ) → Option (ℕ × ℕ)
better_sender target k slot best = elim (k.table.pending slot) [
  | none ↦ best
  | some p ↦ elim p [
    | reply_wait _ ↦ best
    | recv_wait _ _ ↦ best
    | send_wait message ↦
        if not (message.target == target) then best else elim (priority_of slot k) [
          | none ↦ best
          | some priority ↦ elim best [
            | none ↦ some (slot, priority)
            | some (held, best_priority) ↦
                if not (outranks priority best_priority)
                then some (held, best_priority)
                else some (slot, priority)
          ]
        ]
  ]
]

unfoldable pub scan_senders : ℕ → Kernel → ℕ → ℕ → Option (ℕ × ℕ) → Option (ℕ × ℕ)
scan_senders target k zero slot best = best
scan_senders target k (suc n) slot best =
    scan_senders target k n (slot + 1) (better_sender target k slot best)

unfoldable pub best_sender : ℕ → Kernel → Option ℕ
unfolding scan_senders
best_sender target k = elim (scan_senders target k max_tasks 0 none) [
  | none ↦ none
  | some (slot, p) ↦ some slot
]

unfoldable pub deliver_outcome : ℕ → ℕ → ℕ → Kernel → Kernel
deliver_outcome sender rc len k =
    set_leases sender (λ _. no_lease) 0
      (set_pending sender none (set_outcome sender (record { a = rc; b = len; c = 0 }) k))

-- Whether a slot waits on a message that it sent to `gone`.
abbrev pub waits_on : ℕ → Option Pending → Bool
waits_on gone none = false
waits_on gone (some (send_wait m)) = m.target == gone
waits_on gone (some (reply_wait m)) = m.target == gone
waits_on gone (some (recv_wait _ _)) = false

unfoldable pub abandon_slot : ℕ → ℕ → Kernel → Kernel
unfolding deliver_outcome
abandon_slot gone slot k =
    if slot == gone
    then k
    else if waits_on gone (k.table.pending slot)
    then (unblock_deferred slot (deliver_outcome slot edead 0 k)).1
    else k

unfoldable pub abandon_slots : ℕ → ℕ → ℕ → Kernel → Kernel
unfolding abandon_slot
abandon_slots gone zero slot k = k
abandon_slots gone (suc n) slot k = abandon_slots gone n (slot + 1) (abandon_slot gone slot k)

unfoldable pub abandon : ℕ → Kernel → Kernel
unfolding abandon_slots
abandon gone k =
    let k' = set_pending gone none (abandon_slots gone max_tasks 0 k) in
    record k' { table = record (k'.table) { lease_count = update k'.table.lease_count gone 0 } }

unfoldable pub is_awaiting_reply : ℕ → Kernel → Bool
is_awaiting_reply id k = if not (ltb id max_tasks) then false else elim (k.table.pending id) [
  | none ↦ false
  | some p ↦ elim p [ reply_wait _ ↦ true | send_wait _ ↦ false | recv_wait _ _ ↦ false ]
]
