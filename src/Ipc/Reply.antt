-- ===== src/Ipc/Reply.antt =====
-- `reply` of kernel/src/ipc.rs, for a slot that does not wait for the caller.
use the_rack.Base.{ℕ, ◌≡◌, refl, false, Option, none, some, arith, ◌==◌}
use the_rack.Kernel.{Kernel, Message, Pending, send_wait, reply_wait, recv_wait}
use the_rack.Kernel.Prog.{ret}
use the_rack.Tasks.{Spaces}
use the_rack.Ipc.Answering.{reply}
use the_rack.Ipc.{einval}

-- The task in slot `sender` waits for the current task to answer.
abbrev pub Awaits : Kernel → ℕ → Type 0
Awaits k sender =
    (message : Message) × (k.table.pending sender ≡ some (reply_wait message))
    × (message.target ≡ k.current)

-- A reply to a slot that does not wait for the caller's answer is refused with EINVAL, and changes
-- nothing.
pub reply_forged :
    (spaces : Spaces) (k : Kernel) (sender rc buf len : ℕ)
    → ¬ Awaits k sender
    → reply spaces sender rc buf len k ≡ ret einval k
unfolding reply
reply_forged spaces k sender rc buf len absent = go (k.table.pending sender) refl
  where
    go :
        (p : Option Pending)
        → k.table.pending sender ≡ p
        → reply spaces sender rc buf len k ≡ ret einval k
    go none e = ground arith
    go (some (send_wait m)) e = ground arith
    go (some (recv_wait b c)) e = ground arith
    go (some (reply_wait m)) e =
        let other : (m.target == k.current) ≡ false =
          ground (arith, λ (t : m.target ≡ k.current). absent (m, e, t)) in
        ground arith
