-- ===== src/Ipc/Sending.antt =====
-- `send` of kernel/src/ipc.rs.
use the_rack.Base.{ℕ, Bool, true, false, not, ◌||◌, Option, none, some, if◌then◌else◌, ◌==◌, ltb}
use the_rack.Paging.{user_readable, user_writable}
use the_rack.Kernel.{Kernel, Lease, Message, Pending, send_wait, reply_wait, recv_wait, max_tasks}
use the_rack.Kernel.Prog.{M, ◌>>=◌, ◌>>◌, return, get, modify, run}
use the_rack.Tasks.{Spaces, is_alive, mark_current_blocked, park, unblock}
use the_rack.Ipc.{
  max_message, einval, efault, edead, set_pending, set_outcome, set_leases, root_of, deliver,
}
use the_rack.Ipc.Lending.{Collected, collect_leases, collected, rejected}
use the_rack.Ipc.Waiting.{take_outcome}

module _ (spaces : Spaces) where
  -- The checks at the head of `send`: an error code, or the leases.
  unfoldable pub send_checks : ℕ → ℕ → ℕ → ℕ → ℕ → ℕ → ℕ → Kernel → Collected
  send_checks target out out_len reply_buf reply_cap lease_table lease_count k =
      if ltb max_message out_len || ltb max_message reply_cap
      then rejected einval
      else if not (ltb target max_tasks)
      then rejected einval
      else if target == k.current
      then rejected einval
      else if not (is_alive target k)
      then rejected edead
      else elim (root_of k.current k) [
        | none ↦ rejected efault
        | some root ↦
            if not (user_readable root out out_len k.memory)
              || not (user_writable root reply_buf reply_cap k.memory)
            then rejected efault
            else collect_leases root lease_table lease_count k.memory
      ]

  -- `hand_off` once the copy is made, or not.
  unfoldable pub handed : ℕ → Message → (ℕ → Lease) → ℕ → ℕ → ℕ → Option ℕ → M Bool
  handed me message leases lease_count buf cap none = do
    modify (set_pending message.target (some (recv_wait buf cap)))
    return false
  handed me message leases lease_count buf cap (some len) = do
    modify mark_current_blocked
    modify (set_outcome message.target (record { a = me; b = message.operation; c = len }))
    modify (set_leases me leases lease_count)
    modify (set_pending me (some (reply_wait message)))
    unblock spaces message.target
    park spaces
    return true

  -- The target is in `recv` already: copy now and wake it.
  unfoldable pub hand_off : ℕ → Message → (ℕ → Lease) → ℕ → ℕ → ℕ → M Bool
  hand_off me message leases lease_count buf cap = do
    modify (set_pending message.target none)
    delivered ← run (deliver me message.out message.out_len message.target buf cap)
    handed me message leases lease_count buf cap delivered

  -- Nobody is listening yet.
  unfoldable pub queue_up : ℕ → Message → (ℕ → Lease) → ℕ → M Bool
  queue_up me message leases lease_count = do
    modify (set_leases me leases lease_count)
    modify (set_pending me (some (send_wait message)))
    modify mark_current_blocked
    park spaces
    return true

  -- A message that passed the checks, by what the target's entry holds.
  unfoldable pub pass_message : ℕ → Message → (ℕ → Lease) → ℕ → Option Pending → M Bool
  pass_message me message leases count (some (recv_wait buf cap)) =
      hand_off me message leases count buf cap
  pass_message me message leases count _ = queue_up me message leases count

  -- What the sender finds when it runs again.
  unfoldable pub sent_result : ℕ → Bool → M (ℕ × ℕ)
  sent_result me false = return (efault, 0)
  sent_result me true = do outcome ← run (take_outcome me); return (outcome.a, outcome.b)

  unfoldable pub send : ℕ → ℕ → ℕ → ℕ → ℕ → ℕ → ℕ → ℕ → M (ℕ × ℕ)
  send target operation out out_len reply_buf reply_cap lease_table lease_count = do
    k ← get
    let message : Message = record {
      target = target;
      operation = operation;
      out = out;
      out_len = out_len;
      reply_buf = reply_buf;
      reply_cap = reply_cap;
    }
    elim (send_checks target out out_len reply_buf reply_cap lease_table lease_count k) [
      | rejected error ↦ return (error, 0)
      | collected leases count ↦ do
        sent ← pass_message k.current message leases count (k.table.pending target)
        sent_result k.current sent
    ]
