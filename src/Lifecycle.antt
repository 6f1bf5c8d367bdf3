-- ===== src/Lifecycle.antt =====
-- How tasks begin and end: the rest of kernel/src/tasks.rs, with supervision.
pub mod Planting
pub mod Restart
pub mod Slots
mod Tests
use Prim.Native.String.{String}
use the_rack.Base.{
  ℕ, zero, suc, ◌+◌, ◌-◌, ◌*◌, ◌%◌, Bool, true, false, not, ◌&&◌, Option, none, some, Result, ok,
  panic, expect, if◌then◌else◌, ◌==◌, ltb,
}
use the_rack.Frames.Bitmap.{frame_size}
use the_rack.Frames.Allocator.{Memory, Frame, alloc_contiguous}
use the_rack.Paging.Words.{write_u64}
use the_rack.Kernel.{
  Kernel, Task, State, runnable, blocked, zombie, dead, faulted, Fault, Image, max_tasks, update,
}
use the_rack.Kernel.Prog.{
  Prog, M, ret, yield, spent, and_then, ◌>>=◌, ◌>>◌, return, get, modify, attempt,
}
use the_rack.Tasks.{
  Spaces, stack_frames, free_slot, task_at, state_is, is_in_dead, is_in_faulted, set_state,
  position, mark_current_blocked, unblock_deferred, park, yield_now,
}
use the_rack.Ipc.Waiting.{abandon}

abbrev pub priority_idle : ℕ
priority_idle = 255

abbrev pub stack_size : ℕ
stack_size = stack_frames * frame_size

abbrev pub stack_canary : ℕ
stack_canary = 0x5441_434b_5f43_414e

abbrev pub user_text_va : ℕ
user_text_va = 0x0040_0000

pub init : Kernel → Kernel
init k = record k {
  tasks = update k.tasks 0 (
      some (record {
        name = "kernel";
        space = none;
        sp = 0;
        stack = 0x4000_0000;
        owns_stack = false;
        priority = priority_idle;
        state = runnable;
        exit_code = none;
        fault = none;
        image = none;
      }));
  current = 0;
}

-- The words that a switch frame of a task that has not run holds: the canary at the stack's base,
-- then x19, x20, x29 and x30 of the frame. Stacks are addressed physically; `trampoline` is the
-- address of `task_trampoline`.
pub plant_switch_frame : ℕ → Frame → ℕ → ℕ → Memory → ℕ × Memory
plant_switch_frame trampoline stack entry arg m =
    let sp = stack + stack_size - 12 * 8 in
    let canary = write_u64 m.bytes stack stack_canary in
    let x19 = write_u64 canary (sp + 0 * 8) entry in
    let x20 = write_u64 x19 (sp + 1 * 8) arg in
    let x29 = write_u64 x20 (sp + 10 * 8) 0 in
    (sp, record m { bytes = write_u64 x29 (sp + 11 * 8) trampoline })

pub spawn_in : ℕ → String → ℕ → ℕ → Option Frame → ℕ → Kernel → Result (ℕ × Kernel)
unfolding plant_switch_frame
spawn_in trampoline name entry arg space priority k =
    elim (alloc_contiguous stack_frames k.memory) [
      | panic ↦ panic
      | ok (m, none) ↦ panic
      | ok (m, some stack) ↦
          let planted = plant_switch_frame trampoline stack entry arg m in
          elim (free_slot k) [
            | none ↦ panic
            | some slot ↦ ok (
              slot,
              record k {
                memory = planted.1;
                tasks = update k.tasks slot (
                    some (record {
                      name = name;
                      space = space;
                      sp = planted.0;
                      stack = stack;
                      owns_stack = true;
                      priority = priority;
                      state = runnable;
                      exit_code = none;
                      fault = none;
                      image = none;
                    }));
              },
            )
          ]
    ]

-- `spawn_user_program`
pub spawn_user_program : Spaces → ℕ → ℕ → String → ℕ → ℕ → ℕ → ℕ → Kernel → Result (ℕ × Kernel)
unfolding spawn_in
spawn_user_program spaces trampoline user_entry name start stop arg priority k =
    elim (spaces.build_user_space start stop arg k.memory) [
      | panic ↦ panic
      | ok (m, root) ↦
          elim (spawn_in trampoline name user_entry user_text_va (some root) priority
            (record k { memory = m })) [
              | panic ↦ panic
              | ok (id, k') ↦ ok (
                id,
                elim (k'.tasks id) [
                  | none ↦ k'
                  | some t ↦ record k' {
                    tasks = update k'.tasks id (
                        some (record t {
                          image = some (record { start = start; stop = stop; arg = arg });
                        }));
                  }
                ],
              )
            ]
    ]

-- The slots from `slot` on, `n` of them left, with the count of those released.
pub release_slots : ℕ → ℕ → ℕ → Kernel → ℕ × Kernel
release_slots zero slot released k = (released, k)
release_slots (suc n) slot released k =
    let goes = not (slot == k.current) && state_is is_in_dead (k.tasks slot) in
    release_slots n (slot + 1) (if goes then released + 1 else released)
      (if goes then record k { tasks = update k.tasks slot none } else k)

pub release_dead : Kernel → ℕ × Kernel
release_dead k = release_slots max_tasks 0 0 k

pub exit_code : ℕ → Kernel → Option ℕ
exit_code id k = elim (k.tasks id) [ none ↦ none | some t ↦ t.exit_code ]

pub fault_of : ℕ → Kernel → Option Fault
fault_of id k = elim (k.tasks id) [ none ↦ none | some t ↦ t.fault ]

pub first_faulted : Kernel → Option ℕ
unfolding position
first_faulted k = position (state_is is_in_faulted) k

abbrev pub set_supervisor : ℕ → Kernel → Kernel
set_supervisor id k = record k { supervisor = some id }

unfoldable pub is_supervisor : ℕ → Kernel → Bool
is_supervisor id k = elim k.supervisor [ none ↦ false | some s ↦ s == id ]

pub wake_slots : ℕ → ℕ → Kernel → Kernel
wake_slots zero slot k = k
wake_slots (suc n) slot k =
    wake_slots n (slot + 1) (if k.fault_waiters slot then (unblock_deferred slot k).1 else k)

pub wake_fault_waiters : Kernel → Kernel
wake_fault_waiters k = wake_slots max_tasks 0 k

-- What an ending task does before its last switch.
pub end_with_code : ℕ → Kernel → Kernel
end_with_code code k = abandon k.current (elim (k.tasks k.current) [
  | none ↦ k
  | some t ↦ record k {
    tasks = update k.tasks k.current (some (record t { state = zombie; exit_code = some code }));
  }
])

-- The first part of `task_finished`, under the scheduler's lock.
pub mark_finished : Kernel → Kernel
mark_finished k = set_state zombie k.current k

unfoldable pub end_with_fault : Fault → Kernel → Result (Unit {0} × Kernel)
end_with_fault fault k = elim (k.tasks k.current) [
  | none ↦ panic
  | some t ↦ ok (
    tt,
    wake_fault_waiters (
        abandon k.current (record k {
          tasks =
              update k.tasks k.current (some (record t { state = faulted; fault = some fault }));
        })),
  )
]

pub kill : ℕ → Kernel → Kernel
kill id k = if state_is is_in_faulted (k.tasks id) then set_state zombie id k else k

module _ (spaces : Spaces) where
  -- `loop { yield_now() }`, of which the model runs `rounds`.
  pub yield_rounds : ℕ → M (Unit {0})
  yield_rounds zero = λ _. spent
  yield_rounds (suc rounds) = do yield_now spaces; yield_rounds rounds

  pub exit_current : ℕ → ℕ → M (Unit {0})
  unfolding end_with_code yield_rounds
  exit_current rounds code = do modify (end_with_code code); yield_rounds rounds

  -- Runs with interrupts enabled: `interrupt` is what an interrupt taken between the two parts runs,
  -- `return tt` if there is none. It may give up the CPU, and then the second part never runs.
  pub task_finished : M (Unit {0}) → ℕ → M (Unit {0})
  unfolding mark_finished yield_rounds
  task_finished interrupt rounds = do
    k ← get
    let id = k.current
    modify mark_finished
    interrupt
    modify (abandon id)
    yield_rounds rounds

  unfoldable pub fault_current : ℕ → Fault → M (Unit {0})
  unfolding end_with_fault yield_rounds
  fault_current rounds fault = do attempt (end_with_fault fault); yield_rounds rounds

  -- One turn of the loop in `wait_for_fault`.
  pub wait_turn : M (Option ℕ)
  unfolding first_faulted
  wait_turn = do
    k ← get
    elim (first_faulted k) [
      | some id ↦ return (some id)
      | none ↦ do
        let me = k.current
        modify (λ k. record k { fault_waiters = update k.fault_waiters me true })
        modify mark_current_blocked
        park spaces
        modify (λ k. record k { fault_waiters = update k.fault_waiters me false })
        return none
    ]

  -- `none` is fuel run out; each turn that does not end the loop waits to be woken.
  pub wait_for_fault : ℕ → M (Option ℕ)
  unfolding wait_turn
  wait_for_fault zero = return none
  wait_for_fault (suc fuel) = do
    found ← wait_turn
    elim found [ none ↦ wait_for_fault fuel | some id ↦ return (some id) ]

  -- `restart` after its checks: the old space destroyed, a new one built, the stack wound back.
  pub rebuild : ℕ → ℕ → ℕ → Task → Image → Kernel → Result (Bool × Kernel)
  rebuild trampoline user_entry id t image k =
      let cleared : Result Memory = elim t.space [
        | none ↦ ok k.memory
        | some root ↦ spaces.destroy root k.memory
      ] in
      elim cleared [
        | panic ↦ panic
        | ok m ↦ elim (spaces.build_user_space image.start image.stop image.arg m) [
          | panic ↦ panic
          | ok (m', root) ↦
              let planted = plant_switch_frame trampoline t.stack user_entry user_text_va m' in
              ok (
                true,
                record k {
                  memory = planted.1;
                  tasks = update k.tasks id (
                      some (record t {
                        space = some root;
                        sp = planted.0;
                        fault = none;
                        exit_code = none;
                        state = runnable;
                      }));
                },
              )
        ]
      ]

  pub restart : ℕ → ℕ → ℕ → Kernel → Result (Bool × Kernel)
  restart trampoline user_entry id k =
      let k' = abandon id k in
      elim (task_at k' id) [
        | none ↦ ok (false, k')
        | some t ↦ if not (is_in_faulted t.state) then ok (false, k') else elim t.image [
          | none ↦ ok (false, k')
          | some image ↦ rebuild trampoline user_entry id t image k'
        ]
      ]
