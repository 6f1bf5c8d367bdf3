-- ===== src/Timer.antt =====
-- The generic timer of kernel/src/timer.rs. Its registers are fields; `count` is what the counter
-- reads when the handler looks at it.
pub mod Deadline
use the_rack.Base.{
  ℕ, ◌+◌, ◌/◌, Bool, true, false, Result, ok, panic, ◌>>=◌, if◌then◌else◌, leb, add_u64,
}
use the_rack.Kernel.{Kernel}
use the_rack.Notify.{request_reschedule}

abbrev pub timer_intid : ℕ
timer_intid = 30

abbrev pub tick_hz : ℕ
tick_hz = 100

pub record Timer : Type 0 where
  pub frequency : ℕ
  pub count : ℕ
  pub deadline : ℕ
  pub ticks : ℕ

pub interval : Timer → ℕ
interval t = t.frequency / tick_hz

pub arm_first : Timer → Result Timer
arm_first t = do deadline ← add_u64 t.count (interval t); ok (record t { deadline = deadline })

pub arm_next : Timer → Result Timer
arm_next t = do
  next ← add_u64 t.deadline (interval t)
  next ← if leb next t.count then add_u64 t.count (interval t) else ok next
  ok (record t { deadline = next })

pub on_tick : Timer → Kernel → Result (Timer × Kernel)
unfolding arm_next
on_tick t k = do
  t ← arm_next t
  ticks ← add_u64 t.ticks 1
  ok (record t { ticks = ticks }, request_reschedule k)
