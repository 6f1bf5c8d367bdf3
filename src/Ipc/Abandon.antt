-- ===== src/Ipc/Abandon.antt =====
-- `abandon` of kernel/src/ipc.rs: the slots that it strikes, and the others.
use the_rack.Base.{
  ℕ, zero, suc, ◌+◌, ◌≤◌, ◌<◌, ◌≡◌, ◌≢◌, refl, inl, inr, Bool, true, false, not, ◌&&◌, none, arith,
  if◌then◌else◌, ◌==◌, ltb, leb, Bool-cases, subst,
}
use the_rack.Kernel.{Kernel, max_tasks}
use the_rack.Tasks.Wake.{woken, unblock_deferred-tasks, unblock_deferred-rest}
use the_rack.Ipc.Waiting.{abandon, abandon_slot, abandon_slots, deliver_outcome, waits_on}
use the_rack.Ipc.{edead}

-- The slots that a departure of `gone` strikes, out of those that `visited` names.
abbrev struck : (ℕ → Bool) → ℕ → Kernel → ℕ → Bool
struck visited gone k j = visited j && not (j == gone) && waits_on gone (k.table.pending j)

-- What a round of `abandon` does to each slot.
record Struck (visited : ℕ → Bool) (gone : ℕ) (k n : Kernel) : Type 0 where
  pending :
      (j : ℕ) → n.table.pending j ≡ (if struck visited gone k j then none else k.table.pending j)
  outcome :
      (j : ℕ)
      → n.table.outcome j ≡ (
          if struck visited gone k j then record { a = edead; b = 0; c = 0 } else k.table.outcome j)
  lease_count :
      (j : ℕ)
      → n.table.lease_count j ≡ (if struck visited gone k j then 0 else k.table.lease_count j)
  tasks : (j : ℕ) → n.tasks j ≡ (if struck visited gone k j then woken (k.tasks j) else k.tasks j)

abandon_slot-Struck :
    (gone slot : ℕ) (k : Kernel)
    → slot < max_tasks
    → Struck (λ j. slot == j) gone k (abandon_slot gone slot k)
unfolding abandon_slot deliver_outcome
abandon_slot-Struck gone slot k h = record {
  pending = λ j. ground (arith, unblock_deferred-rest slot (deliver_outcome slot edead 0 k));
  outcome = λ j. ground (arith, unblock_deferred-rest slot (deliver_outcome slot edead 0 k));
  lease_count = λ j. ground (arith, unblock_deferred-rest slot (deliver_outcome slot edead 0 k));
  tasks = λ j. ground (arith, unblock_deferred-tasks slot (deliver_outcome slot edead 0 k) j);
}

abbrev between : ℕ → ℕ → ℕ → Bool
between from n j = leb from j && ltb j (from + n)

abandon_slots-Struck :
    (gone n slot : ℕ) (k : Kernel)
    → slot + n ≤ max_tasks
    → Struck (between slot n) gone k (abandon_slots gone n slot k)
unfolding abandon_slots
abandon_slots-Struck gone zero slot k h = record {
  pending = λ j. ground arith;
  outcome = λ j. ground arith;
  lease_count = λ j. ground arith;
  tasks = λ j. ground arith;
}
abandon_slots-Struck gone (suc n) slot k h =
    let k' = abandon_slot gone slot k in
    let first = abandon_slot-Struck gone slot k (omega arith) in
    let rest = abandon_slots-Struck gone n (slot + 1) k' (omega arith) in
    record {
      pending = λ j. ground (arith, first.pending j, rest.pending j);
      outcome = λ j. ground (arith, first.pending j, first.outcome j, rest.outcome j);
      lease_count = λ j. ground (arith, first.pending j, first.lease_count j, rest.lease_count j);
      tasks = λ j. ground (arith, first.pending j, first.tasks j, rest.tasks j);
    }

-- What the departure of `gone` leaves behind.
pub record Abandoned (gone : ℕ) (k n : Kernel) : Type 0 where
  pub woken_with_edead :
      (j : ℕ)
      → j < max_tasks
      → j ≢ gone
      → waits_on gone (k.table.pending j) ≡ true
      → (n.table.pending j ≡ none)
        × (n.table.outcome j ≡ record { a = edead; b = 0; c = 0 })
        × (n.table.lease_count j ≡ 0)
        × (n.tasks j ≡ woken (k.tasks j))
  pub others_left_alone :
      (j : ℕ)
      → j ≢ gone
      → waits_on gone (k.table.pending j) ≡ false
      → (n.table.pending j ≡ k.table.pending j)
        × (n.table.outcome j ≡ k.table.outcome j)
        × (n.table.lease_count j ≡ k.table.lease_count j)
        × (n.tasks j ≡ k.tasks j)
  pub cleared :
      (n.table.pending gone ≡ none) × (n.table.lease_count gone ≡ 0) × (n.tasks gone ≡ k.tasks gone)
  pub nobody_waits : (j : ℕ) → j < max_tasks → waits_on gone (n.table.pending j) ≡ false

struck-hit :
    (gone : ℕ) (k : Kernel) (j : ℕ)
    → j < max_tasks
    → j ≢ gone
    → waits_on gone (k.table.pending j) ≡ true
    → struck (between 0 max_tasks) gone k j ≡ true
struck-hit gone k j h other waits = ground arith

-- A slot that the loop has been through waits on `gone` no longer.
nobody_left :
    (gone : ℕ) (k n : Kernel)
    → Struck (between 0 max_tasks) gone k n
    → (j : ℕ) → j < max_tasks
    → j ≢ gone
    → waits_on gone (n.table.pending j) ≡ false
nobody_left gone k n loop j h other = elim (Bool-cases (waits_on gone (k.table.pending j))) [
  | inl waits ↦
      let now : n.table.pending j ≡ none =
        subst (λ b. n.table.pending j ≡ (if b then none else k.table.pending j))
          (struck-hit gone k j h other waits) (loop.pending j) in
      rw now refl
  | inr free ↦
      let missed : struck (between 0 max_tasks) gone k j ≡ false = ground arith in
      let now : n.table.pending j ≡ k.table.pending j =
        subst (λ b. n.table.pending j ≡ (if b then none else k.table.pending j)) missed
          (loop.pending j) in
      rw now free
]

-- After `abandon gone`, every other task that waited on a message to `gone`, queued or answered for, has
-- been woken with EDEAD and its leases are void; no slot waits on `gone`, whose own entry is cleared;
-- and every task that did not wait on `gone` is as it was.
pub abandon-Abandoned : (gone : ℕ) (k : Kernel) → Abandoned gone k (abandon gone k)
unfolding abandon
abandon-Abandoned gone k =
    let n = abandon_slots gone max_tasks 0 k in
    let loop = abandon_slots-Struck gone max_tasks 0 k (omega arith) in
    record {
      woken_with_edead = λ j h other waits.
          let hit = struck-hit gone k j h other waits in
          let apart : (gone == j) ≡ false = ground arith in
          rw apart (
            subst (λ b. n.table.pending j ≡ (if b then none else k.table.pending j)) hit
                (loop.pending j),
            subst
                (λ b.
                  n.table.outcome j
                  ≡ (if b then record { a = edead; b = 0; c = 0 } else k.table.outcome j))
                hit (loop.outcome j),
            subst (λ b. n.table.lease_count j ≡ (if b then 0 else k.table.lease_count j)) hit
                (loop.lease_count j),
            subst (λ b. n.tasks j ≡ (if b then woken (k.tasks j) else k.tasks j)) hit
                (loop.tasks j),
          );
      others_left_alone = λ j other waits. (
        ground (arith, loop.pending j),
        ground (arith, loop.outcome j),
        ground (arith, loop.lease_count j),
        ground (arith, loop.tasks j),
      );
      cleared = (ground arith, ground arith, ground (arith, loop.tasks gone));
      nobody_waits = λ j h. elim (Bool-cases (gone == j)) [
        | inl same ↦ rw same refl
        | inr apart ↦ rw apart (nobody_left gone k n loop j h (ground arith))
      ];
    }
