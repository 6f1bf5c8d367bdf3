-- ===== src/Lifecycle/Slots.antt =====
-- The sweeps over the task table in kernel/src/tasks.rs: releasing dead slots, waking those that wait for
-- a fault, and the end of a task.
use the_rack.Base.{
  ok, ℕ, zero, suc, ◌+◌, ◌≤◌, ◌<◌, ◌≡◌, refl, Bool, true, false, not, ◌&&◌, none, some, arith,
  if◌then◌else◌, ◌==◌, ltb, leb,
}
use the_rack.Kernel.{Kernel, Task, max_tasks, update, faulted, Fault}
use the_rack.Tasks.{state_is, is_in_dead, is_in_faulted, is_runnable, unblock_deferred}
use the_rack.Tasks.Wake.{woken, unblock_deferred-tasks, unblock_deferred-rest}
use the_rack.Ipc.Waiting.{abandon, waits_on}
use the_rack.Ipc.Abandon.{abandon-Abandoned}
use the_rack.Lifecycle.{
  release_dead, release_slots, wake_fault_waiters, wake_slots, end_with_code, end_with_fault,
}

abbrev between : ℕ → ℕ → ℕ → Bool
between from n j = leb from j && ltb j (from + n)

-- Whether a slot holds a task that is dead and not current.
abbrev pub is_released : Kernel → ℕ → Bool
is_released k j = not (j == k.current) && state_is is_in_dead (k.tasks j)

-- The number of such slots, from `slot` on.
abbrev pub released_count : Kernel → ℕ → ℕ → ℕ
released_count k zero slot = 0
released_count k (suc n) slot =
    let rest = released_count k n (slot + 1) in if is_released k slot then rest + 1 else rest

release_slots-lem :
    (n slot released : ℕ) (k : Kernel)
    → let r = release_slots n slot released k in
      ((j : ℕ) → r.1.tasks j ≡ (if between slot n j && is_released k j then none else k.tasks j))
      × (r.1 ≡ record k { tasks = r.1.tasks })
unfolding release_slots
release_slots-lem zero slot released k = (λ j. ground arith, refl)
release_slots-lem (suc n) slot released k =
    let goes = is_released k slot in
    let k' = if goes then record k { tasks = update k.tasks slot none } else k in
    let (rest, same) =
      release_slots-lem n (slot + 1) (if goes then released + 1 else released) k' in
    (λ j. ground (arith, rest j), ground (arith, same))

released_count-same :
    (k k' : Kernel) (n slot : ℕ)
    → ((j : ℕ) → slot ≤ j → is_released k' j ≡ is_released k j)
    → released_count k' n slot ≡ released_count k n slot
released_count-same k k' zero slot same = refl
released_count-same k k' (suc n) slot same = ground (
  arith,
  same slot (omega arith),
  released_count-same k k' n (slot + 1) (λ j h. same j (omega arith)),
)

release_slots-count :
    (n slot released : ℕ) (k : Kernel)
    → (release_slots n slot released k).0 ≡ released + released_count k n slot
unfolding release_slots
release_slots-count zero slot released k = omega arith
release_slots-count (suc n) slot released k =
    let goes = is_released k slot in
    let k' = if goes then record k { tasks = update k.tasks slot none } else k in
    let rest = release_slots-count n (slot + 1) (if goes then released + 1 else released) k' in
    let same = released_count-same k k' n (slot + 1) (λ j h. ground arith) in
    ground (arith, rest, same)

-- `release_dead` empties exactly the slots of the table whose task is dead and not current, answers
-- with their number, and changes nothing else.
pub release_dead_lem :
    (k : Kernel)
    → ((release_dead k).0 ≡ released_count k max_tasks 0)
      × ((j : ℕ)
          → (release_dead k).1.tasks j
            ≡ (if ltb j max_tasks && is_released k j then none else k.tasks j))
      × ((release_dead k).1 ≡ record k { tasks = (release_dead k).1.tasks })
unfolding release_dead
release_dead_lem k =
    let (each, rest) = release_slots-lem max_tasks 0 0 k in
    (ground (arith, release_slots-count max_tasks 0 0 k), λ j. ground (arith, each j), rest)

wake_slots-lem :
    (n slot : ℕ) (k : Kernel)
    → slot + n ≤ max_tasks
    → ((j : ℕ)
        → (wake_slots n slot k).tasks j
          ≡ (if between slot n j && k.fault_waiters j then woken (k.tasks j) else k.tasks j))
      × (wake_slots n slot k ≡ record k { tasks = (wake_slots n slot k).tasks })
unfolding wake_slots
wake_slots-lem zero slot k h = (λ j. ground arith, refl)
wake_slots-lem (suc n) slot k h =
    let k' = if k.fault_waiters slot then (unblock_deferred slot k).1 else k in
    let (rest, same) = wake_slots-lem n (slot + 1) k' (omega arith) in
    (
      λ j. ground (arith, rest j, unblock_deferred-tasks slot k j, unblock_deferred-rest slot k),
      ground (arith, same, unblock_deferred-rest slot k),
    )

-- `wake_fault_waiters` wakes every task of the table that waits for a fault, and changes nothing else.
pub wake_fault_waiters_lem :
    (k : Kernel)
    → ((j : ℕ)
        → (wake_fault_waiters k).tasks j
          ≡ (if ltb j max_tasks && k.fault_waiters j then woken (k.tasks j) else k.tasks j))
      × (wake_fault_waiters k ≡ record k { tasks = (wake_fault_waiters k).tasks })
unfolding wake_fault_waiters
wake_fault_waiters_lem k =
    let (each, rest) = wake_slots-lem max_tasks 0 k (omega arith) in
    (λ j. ground (arith, each j), rest)

-- A task that has ended: it cannot run, and no task waits on it.
pub record Ended (me : ℕ) (n : Kernel) : Type 0 where
  pub cannot_run : (t : Task) → n.tasks me ≡ some t → is_runnable t.state ≡ false
  pub nobody_waits : (j : ℕ) → j < max_tasks → waits_on me (n.table.pending j) ≡ false

abandon-Ended :
    (me : ℕ) (k : Kernel)
    → ((t : Task) → k.tasks me ≡ some t → is_runnable t.state ≡ false)
    → Ended me (abandon me k)
abandon-Ended me k over = record {
  cannot_run = λ t there. over t (ground (arith, (abandon-Abandoned me k).cleared));
  nobody_waits = (abandon-Abandoned me k).nobody_waits;
}

wake_fault_waiters-Ended :
    (me : ℕ) (k : Kernel)
    → state_is is_in_faulted (k.tasks me) ≡ true
    → Ended me k
    → Ended me (wake_fault_waiters k)
wake_fault_waiters-Ended me k is ended = record {
  cannot_run = λ t there. ground (arith, (wake_fault_waiters_lem k).0 me);
  nobody_waits = λ j h. ground (arith, ended.nobody_waits j h, (wake_fault_waiters_lem k).1);
}

-- The task that `end_with_fault` leaves in its slot.
abbrev pub Recorded : ℕ → Fault → Task → Kernel → Type 0
Recorded me fault t n = n.tasks me ≡ some (record t { state = faulted; fault = some fault })

-- A task that faults is recorded as faulted, with its fault, and nobody waits for it.
pub end_with_fault-Recorded :
    (fault : Fault) (k : Kernel) (t : Task)
    → k.tasks k.current ≡ some t
    → (n : Kernel) × (end_with_fault fault k ≡ ok (tt, n))
      × Ended k.current n
      × Recorded k.current fault t n
unfolding end_with_fault
end_with_fault-Recorded fault k t here =
    let n = record k {
      tasks = update k.tasks k.current (some (record t { state = faulted; fault = some fault }));
    } in
    let kept = (abandon-Abandoned k.current n).cleared in
    let over =
      wake_fault_waiters-Ended k.current (abandon k.current n) (ground (arith, kept))
        (abandon-Ended k.current n (λ u there. ground arith)) in
    (
      wake_fault_waiters (abandon k.current n),
      rw (here, end_with_fault) refl,
      over,
      ground (arith, kept, (wake_fault_waiters_lem (abandon k.current n)).0 k.current),
    )

-- When a task has ended by an exit code, or by a fault, in the state from which it gives up the CPU it
-- cannot run and no task waits on a message to it. The fault does not panic if the slot that is
-- current holds a task, and it is recorded there.
pub endings-Ended :
    (code : ℕ) (fault : Fault) (k : Kernel) (t : Task)
    → k.tasks k.current ≡ some t
    → Ended k.current (end_with_code code k)
      × ((n : Kernel) × (end_with_fault fault k ≡ ok (tt, n))
          × Ended k.current n
          × Recorded k.current fault t n)
unfolding end_with_code
endings-Ended code fault k t here =
    (abandon-Ended k.current _ (λ u there. ground arith), end_with_fault-Recorded fault k t here)
