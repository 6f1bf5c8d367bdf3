-- ===== src/Notify/Laws.antt =====
-- `post`, `take`, `route` and `on_irq` of kernel/src/notify.rs, bit by bit.
use the_rack.Base.{
  ℕ, ◌^◌, ◌<◌, ◌≡◌, Bool, not, ◌&&◌, ◌||◌, arith, if◌then◌else◌, ◌==◌, ltb, bit_and, bit_or,
}
use the_rack.Base.Bits.{bit, bit-bit_or, bit-bit_and, bit-not_bits, bit_and-lt, not_bits}
use the_rack.Kernel.{Kernel, max_tasks}
use the_rack.Tasks.Wake.{unblock_deferred-tasks, unblock_deferred-rest, woken}
use the_rack.Notify.{post, take, set_posted}

-- Whether notification bit `i` is posted to a task.
abbrev pub is_posted : Kernel → ℕ → ℕ → Bool
is_posted k task i = bit (k.notify.posted task) i

post-posted :
    (task bits : ℕ) (k : Kernel) (t : ℕ)
    → (post task bits k).notify.posted t ≡ (
        if ltb task max_tasks && task == t
        then bit_or (k.notify.posted t) bits
        else k.notify.posted t)
unfolding post
post-posted task bits k t =
    ground
      (arith, unblock_deferred-rest task (set_posted task (bit_or (k.notify.posted task) bits) k))

-- After `post`, a bit is posted to a task exactly if it was before, or it is one of the bits posted and
-- the task is the one named, in the table.
pub post-is_posted :
    (task bits : ℕ) (k : Kernel) (t i : ℕ)
    → is_posted (post task bits k) t i
      ≡ (is_posted k t i || (ltb task max_tasks && task == t && bit bits i))
post-is_posted task bits k t i =
    ground (arith, post-posted task bits k t, bit-bit_or (k.notify.posted t) bits i)

-- `post` wakes the task exactly if it waits for one of the bits, and then asks for a reschedule; no
-- other task changes.
pub post-wakes :
    (task bits : ℕ) (k : Kernel) (t : ℕ)
    → let wanted = ltb task max_tasks && not (bit_and (k.notify.wanted task) bits == 0) in
      ((post task bits k).tasks t ≡ (if wanted && task == t then woken (k.tasks t) else k.tasks t))
      × ((post task bits k).need_resched ≡ (wanted || k.need_resched))
unfolding post
post-wakes task bits k t =
    let k' = set_posted task (bit_or (k.notify.posted task) bits) k in
    (
      ground (arith, unblock_deferred-tasks task k' t),
      ground (arith, unblock_deferred-rest task k'),
    )

-- `take` answers with the bits of the mask that are posted.
pub take-fired :
    (task mask i : ℕ) (k : Kernel) → bit (take task mask k).0 i ≡ (is_posted k task i && bit mask i)
unfolding take
take-fired task mask i k = bit-bit_and (k.notify.posted task) mask i

-- For notifications of 32 bits, `take` clears exactly the bits that it answers with, and those of
-- no other task.
pub take-is_posted :
    (task mask t i : ℕ) (k : Kernel)
    → k.notify.posted task < 2 ^ 32
    → i < 32
    → is_posted (take task mask k).1 t i ≡ (is_posted k t i && not (task == t && bit mask i))
unfolding take
take-is_posted task mask t i k fits h =
    let posted = k.notify.posted task in
    ground (
      arith,
      bit-bit_and posted mask i,
      bit-bit_and posted (not_bits 32 (bit_and posted mask)) i,
      bit-not_bits 32 (bit_and posted mask) i (bit_and-lt 32 posted mask fits) h,
    )

-- For a task of the table, what was posted to it before or is posted just now is exactly what
-- `take` then answers with under its mask.
pub take-post :
    (task bits mask i : ℕ) (k : Kernel)
    → task < max_tasks
    → bit (take task mask (post task bits k)).0 i
      ≡ ((is_posted k task i || bit bits i) && bit mask i)
take-post task bits mask i k h =
    ground (arith, take-fired task mask i (post task bits k), post-is_posted task bits k task i)
