-- ===== src/Tasks.antt =====
-- The scheduler of kernel/src/tasks.rs: the task table, the picker, blocking and waking, and the
-- ends of a task. Building and destroying address spaces is an interface here.
pub mod Picker
pub mod Wake
pub mod Switch
pub mod Reap
pub mod Sample
mod Tests
use the_rack.Base.{
  ℕ, zero, suc, ◌+◌, ◌-◌, ◌*◌, ◌/◌, ◌%◌, Bool, true, false, not, ◌&&◌, ◌||◌, Option, none, some,
  Result, ok, panic, expect, if◌then◌else◌, ◌==◌, ltb,
}
use mathlib.Core.Option
use the_rack.Frames.Allocator.{Memory, Frame, free_contiguous}
use the_rack.Kernel.{
  Kernel, Task, State, runnable, blocked, zombie, dead, faulted, Reason, voluntary, preemptive,
  Fault, SwitchLog, max_tasks, update,
}
use the_rack.Kernel.Prog.{
  Prog, M, ret, yield, halt, and_then, ◌>>=◌, ◌>>◌, return, get, modify, run, attempt,
}

abbrev pub stack_frames : ℕ
stack_frames = 4

abbrev pub switch_log_len : ℕ
switch_log_len = 32

-- `Priority::outranks`: a lower number is more important.
abbrev pub outranks : ℕ → ℕ → Bool
outranks a b = ltb a b

abbrev pub is_runnable : State → Bool
is_runnable runnable = true
is_runnable _ = false

abbrev pub is_in_blocked : State → Bool
is_in_blocked blocked = true
is_in_blocked _ = false

abbrev pub is_in_zombie : State → Bool
is_in_zombie zombie = true
is_in_zombie _ = false

abbrev pub is_in_dead : State → Bool
is_in_dead dead = true
is_in_dead _ = false

abbrev pub is_in_faulted : State → Bool
is_in_faulted faulted = true
is_in_faulted _ = false

-- `tasks.get(id)`, flattened: nothing past the table's end.
abbrev pub task_at : Kernel → ℕ → Option Task
task_at k id = if ltb id max_tasks then k.tasks id else none

-- `matches!(slot, Some(task) if test(task.state))`
abbrev pub state_is : (State → Bool) → Option Task → Bool
state_is test none = false
state_is test (some t) = test t.state

-- `if let Some(task) = tasks[slot].as_mut() { task.state = state }`
abbrev pub set_state : State → ℕ → Kernel → Kernel
set_state s slot k = elim (k.tasks slot) [
  | none ↦ k
  | some t ↦ record k { tasks = update k.tasks slot (some (record t { state = s })) }
]

-- `iter().position(test)` over the slots, `n` of them left.
unfoldable pub position_from : (Option Task → Bool) → Kernel → ℕ → ℕ → Option ℕ
position_from test k zero slot = none
position_from test k (suc n) slot =
    let rest = position_from test k n (slot + 1) in if test (k.tasks slot) then some slot else rest

unfoldable pub position : (Option Task → Bool) → Kernel → Option ℕ
unfolding position_from
position test k = position_from test k max_tasks 0

unfoldable pub free_slot : Kernel → Option ℕ
unfolding position
free_slot k = position (λ t. elim t [ none ↦ true | some _ ↦ false ]) k

-- One candidate of the scan, what is in its slot, and the best so far: a slot and its priority.
abbrev pub better : ℕ → Option Task → Option (ℕ × ℕ) → Option (ℕ × ℕ)
better candidate none best = best
better candidate (some t) none =
    if not (is_runnable t.state) then none else some (candidate, t.priority)
better candidate (some t) (some (slot, p)) =
    if not (is_runnable t.state)
    then some (slot, p)
    else if not (outranks t.priority p)
    then some (slot, p)
    else some (candidate, t.priority)

-- The scan of `next_runnable`, `n` steps left.
unfoldable pub scan : Kernel → ℕ → ℕ → Option (ℕ × ℕ) → Option (ℕ × ℕ)
scan k zero step best = best
scan k (suc n) step best =
    let candidate = (k.current + step) % max_tasks in
    scan k n (step + 1) (better candidate (k.tasks candidate) best)

unfoldable pub next_runnable : Kernel → Option ℕ
unfolding scan
next_runnable k = elim (scan k max_tasks 1 none) [ none ↦ none | some (slot, p) ↦ some slot ]

abbrev pub is_preemptive : Reason → Bool
is_preemptive preemptive = true
is_preemptive voluntary = false

unfoldable pub note_switch : ℕ → ℕ → Reason → SwitchLog → SwitchLog
note_switch from to reason log = record logged {
  preemptions = if is_preemptive reason then logged.preemptions + 1 else logged.preemptions;
}
  where
    logged : SwitchLog
    logged =
        if ltb log.len switch_log_len
        then record log {
          origin = update log.origin log.len (from % 256);
          target = update log.target log.len (to % 256);
          was_preemptive = update log.was_preemptive log.len (is_preemptive reason);
          len = log.len + 1;
        }
        else record log { overflow = log.overflow + 1 }

unfoldable pub mark_current_blocked : Kernel → Kernel
mark_current_blocked k = set_state blocked k.current k

unfoldable pub is_alive : ℕ → Kernel → Bool
is_alive id k = state_is (λ s. is_runnable s || is_in_blocked s) (task_at k id)

unfoldable pub priority_of : ℕ → Kernel → Option ℕ
priority_of id k = elim (task_at k id) [ none ↦ none | some t ↦ some t.priority ]

unfoldable pub space_root_of : ℕ → Kernel → Option Frame
space_root_of id k = elim (task_at k id) [ none ↦ none | some t ↦ t.space ]

unfoldable pub is_blocked : ℕ → Kernel → Bool
is_blocked id k = state_is is_in_blocked (k.tasks id)

-- `true` if the woken task outranks the caller.
unfoldable pub unblock_deferred : ℕ → Kernel → Bool × Kernel
unblock_deferred id k = elim (task_at k id) [
  | none ↦ (false, k)
  | some t ↦
      if is_in_blocked t.state
      then (
        elim (k.tasks k.current) [
          | none ↦ false
          | some running ↦ outranks t.priority running.priority
        ],
        record k { tasks = update k.tasks id (some (record t { state = runnable })) },
      )
      else (false, k)
]

-- What the scheduler needs of address spaces.
pub record Spaces : Type 0 where
  pub destroy : Frame → Memory → Result Memory
  pub build_user_space : ℕ → ℕ → ℕ → Memory → Result (Memory × Frame)

module _ (spaces : Spaces) where
  -- One round of `reap_zombies`; `false` when there is nothing left to do.
  unfoldable pub reap_one : Kernel → Result (Bool × Kernel)
  unfolding position
  reap_one k = elim (position (state_is is_in_zombie) k) [
    | none ↦ ok (false, k)
    | some slot ↦ if slot == k.current then ok (false, k) else elim (k.tasks slot) [
      | none ↦ panic
      | some t ↦
          let buried = record k {
            tasks = update k.tasks slot (some (record t { state = dead; space = none }));
          } in
          let stack_back =
            if t.owns_stack then free_contiguous t.stack stack_frames k.memory else ok k.memory in
          elim stack_back [
            | panic ↦ panic
            | ok m ↦ elim t.space [
              | none ↦ ok (true, record buried { memory = m })
              | some root ↦ elim (spaces.destroy root m) [
                | panic ↦ panic
                | ok m' ↦ ok (true, record buried { memory = m' })
              ]
            ]
          ]
    ]
  ]

  -- Each round but the last buries a zombie, so a round for each slot and one more are enough.
  unfoldable pub reap_rounds : ℕ → Kernel → Result (Unit {0} × Kernel)
  unfolding reap_one
  reap_rounds zero k = panic
  reap_rounds (suc fuel) k = elim (reap_one k) [
    | panic ↦ panic
    | ok (more, k') ↦ let rest = reap_rounds fuel k' in if more then rest else ok (tt, k')
  ]

  unfoldable pub reap_zombies : Kernel → Result (Unit {0} × Kernel)
  unfolding reap_rounds
  reap_zombies k = reap_rounds (max_tasks + 1) k

  -- The root that the incoming task runs under.
  unfoldable pub incoming_root : Kernel → ℕ → Result Frame
  incoming_root k next = elim (k.tasks next) [
    | none ↦ panic
    | some t ↦ elim t.space [ none ↦ expect k.empty_space | some root ↦ ok root ]
  ]

  -- `switch_to_next` once the zombies are buried.
  unfoldable pub switch_from : Reason → M (Unit {0})
  unfolding incoming_root
  switch_from reason = do
    k ← get
    elim (k.tasks k.current) [
      | none ↦ return tt
      | some _ ↦ elim (next_runnable k) [
        | none ↦ λ _. halt
        | some next ↦ if next == k.current then return tt else elim (incoming_root k next) [
          | panic ↦ λ _. halt
          | ok root ↦ λ _.
              yield
                (record k {
                  current = next;
                  log = note_switch k.current next reason k.log;
                  active_root = root;
                })
                (λ k'. ret tt k')
        ]
      ]
    ]

  unfoldable pub switch_to_next : Reason → M (Unit {0})
  switch_to_next reason = do attempt reap_zombies; switch_from reason

  unfoldable pub yield_now : M (Unit {0})
  yield_now = switch_to_next voluntary

  unfoldable pub park : M (Unit {0})
  park = do k ← get; if is_blocked k.current k then switch_to_next voluntary else return tt

  unfoldable pub unblock : ℕ → M (Unit {0})
  unblock id = do
    hand_over ← run (unblock_deferred id)
    if hand_over then switch_to_next voluntary else return tt

  unfoldable pub block_current : M (Unit {0})
  block_current = do modify mark_current_blocked; park

  unfoldable pub preempt_if_needed : M (Unit {0})
  preempt_if_needed = do
    k ← get
    if not k.need_resched
        then return tt
        else do modify (λ k. record k { need_resched = false }); switch_to_next preemptive
