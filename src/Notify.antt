-- ===== src/Notify.antt =====
-- kernel/src/notify.rs: notification bits, and the interrupts routed to them.
pub mod Laws
mod Tests
use the_rack.Base.{
  ℕ, zero, suc, ◌+◌, Bool, true, false, not, Option, none, some, Result, ok, panic, if◌then◌else◌,
  ◌==◌, ltb, bit_and, bit_or,
}
use the_rack.Base.Bits.{not_bits}
use the_rack.Kernel.{Kernel, Route, Notifications, max_tasks, update}
use the_rack.Tasks.{unblock_deferred}

abbrev pub max_routes : ℕ
max_routes = 8

-- `ROUTES.iter().position(Option::is_none)`, `n` of them left.
unfoldable pub free_route : ℕ → ℕ → (ℕ → Option Route) → Option ℕ
free_route zero slot routes = none
free_route (suc n) slot routes =
    let rest = free_route n (slot + 1) routes in
    elim (routes slot) [ none ↦ some slot | some _ ↦ rest ]

unfoldable pub route : ℕ → ℕ → ℕ → Kernel → Result Kernel
route intid task bits k = elim (free_route max_routes 0 k.notify.routes) [
  | none ↦ panic
  | some slot ↦ ok (record k {
    notify = record (k.notify) {
      routes =
          update k.notify.routes slot (some (record { intid = intid; task = task; bits = bits }));
    };
  })
]

-- `iter().flatten().find(|route| route.intid == intid)`, `n` of them left.
unfoldable pub find_route : ℕ → ℕ → ℕ → (ℕ → Option Route) → Option Route
find_route intid zero slot routes = none
find_route intid (suc n) slot routes =
    let rest = find_route intid n (slot + 1) routes in
    elim (routes slot) [ none ↦ rest | some r ↦ if r.intid == intid then some r else rest ]

abbrev pub request_reschedule : Kernel → Kernel
request_reschedule k = record k { need_resched = true }

abbrev pub set_posted : ℕ → ℕ → Kernel → Kernel
set_posted task bits k = record k {
  notify = record (k.notify) { posted = update k.notify.posted task bits };
}

abbrev pub set_wanted : ℕ → ℕ → Kernel → Kernel
set_wanted task mask k = record k {
  notify = record (k.notify) { wanted = update k.notify.wanted task mask };
}

unfoldable pub post : ℕ → ℕ → Kernel → Kernel
post task bits k =
    if not (ltb task max_tasks)
    then k
    else let k' = set_posted task (bit_or (k.notify.posted task) bits) k in
      if not (bit_and (k'.notify.wanted task) bits == 0)
      then request_reschedule (unblock_deferred task k').1
      else k'

unfoldable pub on_irq : ℕ → Kernel → Bool × Kernel
on_irq intid k = elim (find_route intid max_routes 0 k.notify.routes) [
  | none ↦ (false, k)
  | some r ↦ (true, post r.task r.bits k)
]

-- `!fired` is on 32 bits.
unfoldable pub take : ℕ → ℕ → Kernel → ℕ × Kernel
take task mask k =
    let fired = bit_and (k.notify.posted task) mask in
    (fired, set_posted task (bit_and (k.notify.posted task) (not_bits 32 fired)) k)

unfoldable pub arm : ℕ → ℕ → Kernel → Kernel
arm task mask k = set_wanted task mask k

unfoldable pub disarm : ℕ → Kernel → Kernel
disarm task k = set_wanted task 0 k

unfoldable pub clear : ℕ → Kernel → Kernel
clear task k = set_wanted task 0 (set_posted task 0 k)
