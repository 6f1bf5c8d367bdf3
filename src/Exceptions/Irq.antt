-- ===== src/Exceptions/Irq.antt =====
-- The timer's interrupt, through `dispatch_irq` of kernel/src/exceptions.rs.
use the_rack.Base.{◌+◌, ◌≤◌, ◌≡◌, refl, ◌⊎◌, inl, inr, false, ◌∷◌, Result, ok, panic}
use the_rack.Kernel.{Kernel, preemptive}
use the_rack.Kernel.Prog.{Prog, halt}
use the_rack.Tasks.{Spaces, switch_to_next, preempt_if_needed}
use the_rack.Notify.{on_irq}
use the_rack.Timer.{Timer, timer_intid, on_tick}
use the_rack.Timer.Deadline.{Deadline, TickReturns, on_tick-TickReturns}
use the_rack.Exceptions.{Statics, Handled, dispatch_irq, finish_irq}

-- What the timer's interrupt leaves.
pub record Preempted (spaces : Spaces) (s : Statics) (k : Kernel) (s' : Statics)
    (rest : Prog (Unit {0})) : Type 0 where
  pub counted : s'.timer.ticks ≡ s.timer.ticks + 1
  pub armed : Deadline s.timer s'.timer.deadline
  pub released : s'.ended ≡ timer_intid ∷ s.ended
  pub switches :
      rest
      ≡ switch_to_next spaces preemptive
          (record ((on_irq timer_intid k).1) { need_resched = false })

pub TimerReturns : Spaces → Statics → Kernel → Handled (Unit {0}) → Type 0
TimerReturns spaces s k (s', rest) =
    (TickReturns s.timer k panic × (rest ≡ halt)) ⊎ Preempted spaces s k s' rest

after_tick :
    (spaces : Spaces) (s : Statics) (k : Kernel) (r : Result (Timer × Kernel))
    → TickReturns s.timer (on_irq timer_intid k).1 r
    → TimerReturns spaces s k (finish_irq spaces timer_intid s r)
unfolding TimerReturns finish_irq TickReturns preempt_if_needed
after_tick spaces s k panic why = inl (why, refl)
after_tick spaces s k (ok (t, k')) done =
    inr (record { counted = done.1; armed = done.0; released = refl; switches = rw done.2 refl })

-- The interrupt of a timer at least as fast as the tick rate is counted, leaves a deadline that has not
-- passed, is released exactly once, and then switches tasks, from the state in which whoever owns the
-- line has been told and no reschedule is owed. Otherwise the machine stops, because a deadline or
-- the count of ticks would leave 64 bits.
pub dispatch_irq-TimerReturns :
    (spaces : Spaces) (s : Statics) (k : Kernel)
    → 100 ≤ s.timer.frequency
    → TimerReturns spaces s k (dispatch_irq spaces timer_intid s k)
unfolding dispatch_irq
dispatch_irq-TimerReturns spaces s k fast =
    after_tick spaces s k (on_tick s.timer (on_irq timer_intid k).1)
      (on_tick-TickReturns s.timer (on_irq timer_intid k).1 fast)
