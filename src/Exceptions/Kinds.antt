-- ===== src/Exceptions/Kinds.antt =====
-- The traps from a task that are neither interrupts nor system calls, through `handle_exception` of
-- kernel/src/exceptions.rs.
use the_rack.Base.{
  ℕ, ◌+◌, ◌/◌, ◌%◌, ◌^◌, ◌≤◌, ◌<◌, ◌≡◌, ◌≢◌, refl, inl, inr, true, false, ◌||◌, Option, none, some,
  arith, if◌then◌else◌, ◌==◌, leb, ltb, u64_mod, Bool-cases,
}
use the_rack.Kernel.{Kernel, Task, Fault}
use the_rack.Kernel.Prog.{Prog, ret, and_then, attempt, return}
use the_rack.Syscall.{Machine}
use the_rack.Lifecycle.{fault_current, yield_rounds}
use the_rack.Lifecycle.Slots.{Ended, Recorded, end_with_fault-Recorded}
use the_rack.Exceptions.{
  Statics, TrapFrame, Handled, exception_class, step_over, user_fault, handle_exception,
}

-- The frame of a trap that resumes after the instruction that trapped.
abbrev pub resumed : TrapFrame → TrapFrame
resumed frame = record frame { elr = frame.elr + 4 }

-- The variables that belong to the kernel's own traps.
abbrev pub own : Statics → Statics
own s = record s { privileged_traps = 0 }

-- A privileged instruction that was refused: the task goes on after it.
pub record Refused (s : Statics) (frame : TrapFrame) (k : Kernel) (s' : Statics)
    (rest : Prog (Option TrapFrame)) : Type 0 where
  pub counted : s'.privileged_traps ≡ (s.privileged_traps + 1) % 2 ^ 64
  pub goes_on : rest ≡ ret (some (resumed frame)) k

-- The fault that a frame reports.
abbrev pub fault_in : TrapFrame → Fault
fault_in frame = record { esr = frame.esr; far = frame.far; elr = frame.elr }

-- The task is over. Its slot records the fault, it cannot run, and nobody waits for it; and what is left
-- of the handler is the loop in which it gives up the CPU.
pub record Over (machine : Machine) (fuel : ℕ) (frame : TrapFrame) (k : Kernel) (t : Task)
    (rest : Prog (Option TrapFrame)) : Type 0 where
  pub after : Kernel
  pub ended : Ended k.current after
  pub recorded : Recorded k.current (fault_in frame) t after
  pub goes_on : rest ≡ and_then (yield_rounds machine.spaces fuel after) (λ _. return none)

pub UserReturns :
    Machine → ℕ → Statics → TrapFrame → Kernel → Task → Handled (Option TrapFrame) → Type 0
UserReturns machine fuel s frame k t (s', rest) =
    let class = frame.esr / 2 ^ 26 % 64 in
    (own s' ≡ own s)
    × (if class == 0 || class == 0x18
        then Refused s frame k s' rest
        else Over machine fuel frame k t rest)

user_fault-Over :
    (machine : Machine) (fuel : ℕ) (frame : TrapFrame) (k : Kernel) (t : Task)
    → k.tasks k.current ≡ some t
    → Over machine fuel frame k t (user_fault machine fuel frame k)
unfolding user_fault fault_current
user_fault-Over machine fuel frame k t here =
    let (after, e, ended, recorded) = end_with_fault-Recorded (fault_in frame) k t here in
    record {
      after = after;
      ended = ended;
      recorded = recorded;
      goes_on = rw (e, user_fault, fault_current, and_then, attempt) refl;
    }

-- A trap from the current task that is neither an interrupt nor a system call, in a frame whose
-- address plus four fits 64 bits, leaves the kernel's own probe, timer and interrupts as they were.
-- An instruction that the level may not execute is counted, and the task goes on after it, in an
-- unchanged kernel. Any other trap, whatever the syndrome and even while the kernel expects a fault,
-- faults the task: its slot records what the frame reports, it cannot run, no task waits on a
-- message to it, and what is left of the handler is to give up the CPU over and over.
pub user_trap-UserReturns :
    (machine : Machine) (fuel intid : ℕ) (s : Statics) (frame : TrapFrame) (index : ℕ) (k : Kernel)
    (t : Task)
    → 8 ≤ index
    → index % 4 ≢ 1
    → frame.esr / 2 ^ 26 % 64 ≢ 0x15
    → frame.elr + 4 < 2 ^ 64
    → k.tasks k.current ≡ some t
    → UserReturns machine fuel s frame k t (handle_exception machine fuel intid s frame index k)
unfolding UserReturns handle_exception exception_class step_over
user_trap-UserReturns machine fuel intid s frame index k t user no_irq no_call fits here =
    let is_user : leb 2 (index / 4) ≡ true = ground arith in
    let no_irq' : (index % 4 == 1) ≡ false = ground arith in
    let class = frame.esr / 2 ^ 26 % 64 in
    let no_call' : (class == 0x15) ≡ false = ground arith in
    let fits' : ltb (frame.elr + 4) u64_mod ≡ true = ground arith in
    elim (Bool-cases (class == 0 || class == 0x18)) [
      | inl refused ↦
          rw (no_irq', no_call', is_user, refused, step_over, fits')
            (refl, record { counted = refl; goes_on = refl })
      | inr over ↦
          rw (no_irq', no_call', is_user, over) (refl, user_fault-Over machine fuel frame k t here)
    ]
