-- ===== src/Ipc/Receiving.antt =====
-- `recv` of kernel/src/ipc.rs.
use the_rack.Base.{ℕ, zero, suc, ◌%◌, ◌^◌, not, Option, none, some, if◌then◌else◌, ◌==◌, ltb}
use the_rack.Paging.{user_writable}
use the_rack.Kernel.{Message, Pending, send_wait, reply_wait, recv_wait}
use the_rack.Kernel.Prog.{M, halt, ◌>>=◌, ◌>>◌, return, get, modify, run}
use the_rack.Tasks.{Spaces, mark_current_blocked, park}
use the_rack.Notify
use the_rack.Notify.{arm, disarm}
use the_rack.Ipc.{max_message, einval, efault, notification, set_pending, root_of, deliver}
use the_rack.Ipc.Waiting.{best_sender, take_outcome}
use the_rack.Ipc.Answering.{finish_sender}

module _ (spaces : Spaces) where
  -- The receiver runs again: a result, or nothing for another turn.
  unfoldable pub woken_up : ℕ → Option Pending → M (Option (ℕ × ℕ × ℕ))
  woken_up me (some _) = do modify (set_pending me none); return none
  woken_up me none = do
    outcome ← run (take_outcome me)
    return (some (outcome.a, outcome.b, outcome.c))

  -- Nobody is sending: wait for a message or a notification.
  unfoldable pub recv_wait_turn : ℕ → ℕ → ℕ → ℕ → M (Option (ℕ × ℕ × ℕ))
  recv_wait_turn me buf cap mask = do
    modify (arm me mask)
    modify (set_pending me (some (recv_wait buf cap)))
    modify mark_current_blocked
    park spaces
    modify (disarm me)
    k ← get
    woken_up me (k.table.pending me)

  -- A sender's message is copied, or the sender fails and the receiver takes another turn.
  unfoldable pub received : ℕ → Message → Option ℕ → M (Option (ℕ × ℕ × ℕ))
  received sender message (some len) = do
    modify (set_pending sender (some (reply_wait message)))
    return (some (sender, message.operation, len))
  received sender message none = do finish_sender spaces sender efault 0; return none

  -- A sender is waiting; it cannot be otherwise, or the code panics.
  unfoldable pub recv_from : ℕ → ℕ → ℕ → ℕ → Option Pending → M (Option (ℕ × ℕ × ℕ))
  recv_from me buf cap sender (some (send_wait message)) = do
    delivered ← run (deliver sender message.out message.out_len me buf cap)
    received sender message delivered
  recv_from me buf cap sender _ = λ _. halt

  -- A turn of the loop in `recv` when no notification is posted.
  unfoldable pub message_turn : ℕ → ℕ → ℕ → ℕ → Option ℕ → M (Option (ℕ × ℕ × ℕ))
  message_turn me buf cap mask none = recv_wait_turn me buf cap mask
  message_turn me buf cap mask (some sender) = do
    k ← get
    recv_from me buf cap sender (k.table.pending sender)

  -- One turn of the loop in `recv`.
  unfoldable pub recv_turn : ℕ → ℕ → ℕ → ℕ → M (Option (ℕ × ℕ × ℕ))
  recv_turn me buf cap mask = do
    fired ← run (Notify.take me mask)
    if not (fired == 0)
        then return (some (notification, fired, 0))
        else do k ← get; message_turn me buf cap mask (best_sender me k)

  -- The loop has no bound of its own: each turn either gives up the CPU or fails a sender. `none` is
  -- fuel run out.
  unfoldable pub recv_loop : ℕ → ℕ → ℕ → ℕ → ℕ → M (Option (ℕ × ℕ × ℕ))
  recv_loop zero me buf cap mask = return none
  recv_loop (suc fuel) me buf cap mask = do
    broke ← recv_turn me buf cap mask
    elim broke [ none ↦ recv_loop fuel me buf cap mask | some result ↦ return (some result) ]

  unfoldable pub recv : ℕ → ℕ → ℕ → ℕ → M (Option (ℕ × ℕ × ℕ))
  recv fuel buf cap notify_mask = do
    k ← get
    if ltb max_message cap then return (some (einval, 0, 0)) else elim (root_of k.current k) [
      | none ↦ return (some (efault, 0, 0))
      | some root ↦
          if not (user_writable root buf cap k.memory)
          then return (some (efault, 0, 0))
          else recv_loop fuel k.current buf cap (notify_mask % 2 ^ 32)
    ]
