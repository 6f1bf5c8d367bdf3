-- ===== src/Timer/Deadline.antt =====
-- The deadline that a tick leaves, of `arm_next` and `on_tick` in kernel/src/timer.rs.
use the_rack.Base.{
  ℕ, ◌+◌, ◌^◌, ◌≤◌, ◌<◌, ◌≡◌, refl, ◌⊎◌, inl, inr, Result, ok, panic, arith, ◌>>=◌, ltb, leb,
  u64_mod, Bool-cases,
}
use the_rack.Kernel.{Kernel}
use the_rack.Notify.{request_reschedule}
use the_rack.Timer.{Timer, interval, arm_next, on_tick}

-- One interval is at least one count of the counter.
interval-pos : (t : Timer) → 100 ≤ t.frequency → 0 < interval t
unfolding interval
interval-pos t fast = omega arith

-- A deadline `d` that `arm_next` may leave.
pub record Deadline (t : Timer) (d : ℕ) : Type 0 where
  pub in_future : t.count < d
  pub no_earlier : t.deadline + interval t ≤ d
  pub near : (d ≡ t.deadline + interval t) ⊎ (d ≡ t.count + interval t)

pub ArmReturns : Timer → Result Timer → Type 0
ArmReturns t panic = (2 ^ 64 ≤ t.deadline + interval t) ⊎ (2 ^ 64 ≤ t.count + interval t)
ArmReturns t (ok t') = Deadline t t'.deadline × (t'.ticks ≡ t.ticks)

arm_next-ArmReturns : (t : Timer) → 100 ≤ t.frequency → ArmReturns t (arm_next t)
unfolding arm_next ArmReturns
arm_next-ArmReturns t fast =
    let next = t.deadline + interval t in
    elim (Bool-cases (ltb next u64_mod)) [
      | inr over ↦ rw (arm_next, over, ◌>>=◌) (inl (ground arith))
      | inl fits ↦ elim (Bool-cases (leb next t.count)) [
        | inr ahead ↦
            rw (arm_next, fits, ◌>>=◌, ahead)
              (
                record { in_future = ground arith; no_earlier = ground arith; near = inl refl },
                refl,
              )
        | inl missed ↦ elim (Bool-cases (ltb (t.count + interval t) u64_mod)) [
          | inr over ↦ rw (arm_next, fits, ◌>>=◌, missed, over) (inr (ground arith))
          | inl fits' ↦
              rw (arm_next, fits, ◌>>=◌, missed, fits')
                (
                  record {
                    in_future = ground (arith, interval-pos t fast);
                    no_earlier = ground arith;
                    near = inr refl;
                  },
                  refl,
                )
        ]
      ]
    ]

unfoldable pub TickReturns : Timer → Kernel → Result (Timer × Kernel) → Type 0
TickReturns t k panic = ArmReturns t panic ⊎ (2 ^ 64 ≤ t.ticks + 1)
TickReturns t k (ok (t', k')) =
    Deadline t t'.deadline × (t'.ticks ≡ t.ticks + 1) × (k' ≡ request_reschedule k)

from_armed :
    (t : Timer) (k : Kernel) (r : Result Timer)
    → arm_next t ≡ r
    → ArmReturns t r
    → TickReturns t k (on_tick t k)
unfolding on_tick TickReturns ArmReturns
from_armed t k panic e why = rw (on_tick, e, ◌>>=◌) (inl why)
from_armed t k (ok t') e armed = elim (Bool-cases (ltb (t'.ticks + 1) u64_mod)) [
  | inr over ↦ rw (on_tick, e, ◌>>=◌, over) (inr (ground (arith, armed.1)))
  | inl fits ↦ rw (on_tick, e, ◌>>=◌, fits) (armed.0, ground (arith, armed.1), refl)
]

-- For a counter at least as fast as the tick rate, a tick either panics, because a deadline or the
-- count of ticks would leave 64 bits, or it counts itself, asks for a reschedule and leaves a
-- deadline that has not passed, no earlier than an interval after the last one, and exactly an
-- interval after the last one or after now.
pub on_tick-TickReturns :
    (t : Timer) (k : Kernel) → 100 ≤ t.frequency → TickReturns t k (on_tick t k)
on_tick-TickReturns t k fast = from_armed t k (arm_next t) refl (arm_next-ArmReturns t fast)
