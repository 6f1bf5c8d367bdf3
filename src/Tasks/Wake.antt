-- ===== src/Tasks/Wake.antt =====
-- `unblock_deferred` and its companions in kernel/src/tasks.rs, on every branch.
use the_rack.Base.{ℕ, ◌≡◌, Bool, false, ◌&&◌, Option, none, some, arith, if◌then◌else◌, ◌==◌, ltb}
use the_rack.Kernel.{Kernel, Task, runnable, max_tasks}
use the_rack.Tasks.{is_in_blocked, outranks, unblock_deferred}

-- A task as it stands once it has been woken: runnable if it was blocked.
abbrev pub woken : Option Task → Option Task
woken none = none
woken (some t) = some (if is_in_blocked t.state then record t { state = runnable } else t)

-- Whether the task in a slot is blocked and outranks the current one.
abbrev pub hands_over : Option Task → Option Task → Bool
hands_over none running = false
hands_over (some t) none = false
hands_over (some t) (some running) =
    if is_in_blocked t.state then outranks t.priority running.priority else false

pub unblock_deferred-tasks :
    (id : ℕ) (k : Kernel) (j : ℕ)
    → (unblock_deferred id k).1.tasks j
      ≡ (if ltb id max_tasks && id == j then woken (k.tasks j) else k.tasks j)
unfolding unblock_deferred
unblock_deferred-tasks id k j = ground arith

pub unblock_deferred-answer :
    (id : ℕ) (k : Kernel)
    → (unblock_deferred id k).0 ≡ (ltb id max_tasks && hands_over (k.tasks id) (k.tasks k.current))
unfolding unblock_deferred
unblock_deferred-answer id k = ground arith

pub unblock_deferred-rest :
    (id : ℕ) (k : Kernel)
    → (unblock_deferred id k).1 ≡ record k { tasks = (unblock_deferred id k).1.tasks }
unfolding unblock_deferred
unblock_deferred-rest id k = ground arith

-- `unblock_deferred` changes only the named slot, and that only from blocked to runnable: any other
-- task, an empty slot and a number past the table are left alone, and so is the rest of the kernel.
-- Its answer is whether it woke a task that outranks the current one.
pub unblock_deferred_lem :
    (id : ℕ) (k : Kernel)
    → ((unblock_deferred id k).0
        ≡ (ltb id max_tasks && hands_over (k.tasks id) (k.tasks k.current)))
      × ((j : ℕ)
          → (unblock_deferred id k).1.tasks j
            ≡ (if ltb id max_tasks && id == j then woken (k.tasks j) else k.tasks j))
      × ((unblock_deferred id k).1 ≡ record k { tasks = (unblock_deferred id k).1.tasks })
unblock_deferred_lem id k =
    (unblock_deferred-answer id k, unblock_deferred-tasks id k, unblock_deferred-rest id k)
