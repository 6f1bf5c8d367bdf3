-- ===== src/Exceptions.antt =====
-- kernel/src/exceptions.rs: what the kernel does with each trap. A handler gives the module's own
-- variables as they are when it returns or first gives up the CPU, and the program that is left.
-- What `report` prints is not modelled.
pub mod Kinds
pub mod Irq
mod Tests
use the_rack.Base.{
  ℕ, ◌+◌, ◌/◌, ◌%◌, ◌^◌, Bool, true, false, not, ◌&&◌, ◌||◌, Option, none, some, List, [], ◌∷◌,
  Result, ok, panic, ◌>>=◌, if◌then◌else◌, ◌==◌, leb, add_u64,
}
use the_rack.Kernel.{Kernel, Fault, update}
use the_rack.Kernel.Prog.{Prog, ret, halt, and_then, return}
use the_rack.Tasks.{Spaces, preempt_if_needed}
use the_rack.Notify.{on_irq}
use the_rack.Lifecycle.{fault_current}
use the_rack.Syscall.{Machine, Reply, dispatch, decode}
use the_rack.Timer.{Timer, timer_intid, on_tick}

pub record TrapFrame : Type 0 where
  pub x : ℕ → ℕ
  pub elr : ℕ
  pub spsr : ℕ
  pub esr : ℕ
  pub far : ℕ

-- The timer, the variables of this module, and the interrupts that were released, the last first.
pub record Statics : Type 0 where
  pub timer : Timer
  pub privileged_traps : ℕ
  pub expecting_fault : Bool
  pub probe_esr : ℕ
  pub ended : List ℕ

abbrev pub spurious_intid : ℕ
spurious_intid = 1023

abbrev pub ec_svc64 : ℕ
ec_svc64 = 0x15

abbrev pub ec_unknown : ℕ
ec_unknown = 0x00

abbrev pub ec_trapped_system : ℕ
ec_trapped_system = 0x18

-- `VectorIndex` is its number.
abbrev pub is_irq : ℕ → Bool
is_irq index = index % 4 == 1

abbrev pub from_lower_el : ℕ → Bool
from_lower_el index = leb 2 (index / 4)

-- `Syndrome` is the value of ESR_EL1.
pub exception_class : ℕ → ℕ
exception_class esr = esr / 2 ^ 26 % 2 ^ 6

pub is_abort : ℕ → Bool
is_abort esr =
    let class = exception_class esr in
    class == 0x20 || class == 0x21 || class == 0x24 || class == 0x25

pub is_brk : ℕ → Bool
is_brk esr = exception_class esr == 0x3c

abbrev pub Handled : Type 0 → Type 0
Handled A = Statics × Prog A

-- The end of `dispatch_irq`, once the timer has had its turn.
pub finish_irq : Spaces → ℕ → Statics → Result (Timer × Kernel) → Handled (Unit {0})
finish_irq spaces intid s panic = (s, halt)
finish_irq spaces intid s (ok (timer, k)) =
    (record s { timer = timer; ended = intid ∷ s.ended }, preempt_if_needed spaces k)

-- `intid` is what the interrupt controller answered to the acknowledgement.
pub dispatch_irq : Spaces → ℕ → Statics → Kernel → Handled (Unit {0})
unfolding finish_irq
dispatch_irq spaces intid s k =
    if intid == spurious_intid
    then (s, ret tt k)
    else let k = (on_irq intid k).1 in
      finish_irq spaces intid s
        (if intid == timer_intid then on_tick s.timer k else ok (s.timer, k))

-- The trap returns to the instruction after the one that trapped.
pub step_over : Statics → TrapFrame → Kernel → Handled (Option TrapFrame)
step_over s frame k = elim (add_u64 frame.elr 4) [
  | panic ↦ (s, halt)
  | ok elr ↦ (s, ret (some (record frame { elr = elr })) k)
]

-- An interrupt returns to what it interrupted.
abbrev pub interrupted : TrapFrame → Handled (Unit {0}) → Handled (Option TrapFrame)
interrupted frame (s, rest) = (s, and_then rest (λ _. return (some frame)))

-- The results of a system call in the frame, none for a call that does not return.
pub answer_call : TrapFrame → Option Reply → Option TrapFrame
answer_call frame none = none
answer_call frame (some (r0, r1, r2)) =
    some (record frame { x = update (update (update frame.x 0 r0) 1 r1) 2 r2 })

module _ (machine : Machine) (fuel : ℕ) where
  -- `syscall::dispatch`, on the registers of the frame.
  pub system_call : Statics → TrapFrame → Kernel → Prog (Option TrapFrame)
  unfolding answer_call
  system_call s frame k =
      and_then
        (dispatch (record machine { tick_count = s.timer.ticks }) fuel (decode (frame.x 8)) frame.x
          k)
        (λ r. return (answer_call frame r))

  pub user_fault : TrapFrame → Kernel → Prog (Option TrapFrame)
  user_fault frame k =
      let fault : Fault = record { esr = frame.esr; far = frame.far; elr = frame.elr } in
      and_then (fault_current machine.spaces fuel fault k) (λ _. return none)

  pub handle_exception : ℕ → Statics → TrapFrame → ℕ → Kernel → Handled (Option TrapFrame)
  unfolding is_abort is_brk
  handle_exception intid s frame index k =
      if is_irq index
      then interrupted frame (dispatch_irq machine.spaces intid s k)
      else if exception_class frame.esr == ec_svc64
      then (s, system_call s frame k)
      else if from_lower_el index
          && (exception_class frame.esr == ec_unknown
              || exception_class frame.esr == ec_trapped_system)
      then step_over (record s { privileged_traps = (s.privileged_traps + 1) % 2 ^ 64 }) frame k
      else if from_lower_el index
      then (s, user_fault frame k)
      else if is_abort frame.esr && s.expecting_fault
      then step_over (record s { probe_esr = frame.esr }) frame k
      else if is_brk frame.esr
      then step_over s frame k
      else (s, halt)
