-- ===== src/Exceptions/Tests.antt =====
-- Traps at a small kernel.
use the_rack.Base.{ℕ, ◌*◌, ◌^◌, refl, true, [], arith}
use the_rack.Kernel.Sample.{listening, client}
use the_rack.Tasks.Sample.{free_spaces}
use the_rack.Syscall.{Machine}
use the_rack.Timer.{Timer, timer_intid}
use the_rack.Exceptions.{Statics, TrapFrame, dispatch_irq, handle_exception}
use the_rack.Exceptions.Irq.{TimerReturns, dispatch_irq-TimerReturns}
use the_rack.Exceptions.Kinds.{UserReturns, user_trap-UserReturns}

abbrev machine : Machine
machine = record {
  spaces = free_spaces;
  is_utf8 = λ bytes buf len. true;
  tick_count = 0;
  trampoline = 0x4008_0000;
  user_entry = 0x4008_1000;
}

-- A timer whose counter has just reached the deadline.
abbrev timer : Timer
timer = record { frequency = 62500000; count = 1000000; deadline = 1000000; ticks = 6 }

abbrev statics : Statics
statics = record {
  timer = timer;
  privileged_traps = 0;
  expecting_fault = true;
  probe_esr = 0;
  ended = [];
}

abbrev trapped : ℕ → TrapFrame
trapped class = record {
  x = λ i. i;
  elr = 0x4008_0000;
  spsr = 0;
  esr = class * 2 ^ 26;
  far = 0x1000;
}

dispatch_irq-TimerReturns_example :
    TimerReturns free_spaces statics listening
      (dispatch_irq free_spaces timer_intid statics listening)
dispatch_irq-TimerReturns_example =
    dispatch_irq-TimerReturns free_spaces statics listening (omega arith)

-- A data abort of the client, which is running.
user_trap-UserReturns_example :
    UserReturns machine 3 statics
      (trapped 0x24)
      listening
      client
      (handle_exception machine 3 0 statics (trapped 0x24) 8 listening)
user_trap-UserReturns_example =
    user_trap-UserReturns machine 3 0 statics (trapped 0x24) 8 listening client (omega arith)
      (λ e. ground (arith, e)) (λ e. ground (arith, e)) (omega arith) refl
