-- ===== src/Ipc/Answering.antt =====
-- `finish_sender` and `reply` of kernel/src/ipc.rs.
use the_rack.Base.{ℕ, not, ◌||◌, Option, none, some, if◌then◌else◌, ◌==◌, ltb}
use the_rack.Kernel.{send_wait, reply_wait, recv_wait, max_tasks}
use the_rack.Kernel.Prog.{M, ◌>>=◌, ◌>>◌, return, get, modify, run}
use the_rack.Tasks.{Spaces, unblock}
use the_rack.Ipc.{max_message, einval, efault, deliver}
use the_rack.Ipc.Waiting.{deliver_outcome}

module _ (spaces : Spaces) where
  unfoldable pub finish_sender : ℕ → ℕ → ℕ → M (Unit {0})
  finish_sender sender rc len = do modify (deliver_outcome sender rc len); unblock spaces sender

  -- The end of `reply`, by what was delivered.
  unfoldable pub replied : ℕ → ℕ → Option ℕ → M ℕ
  replied sender rc none = return efault
  replied sender rc (some len) = do finish_sender sender rc len; return 0

  unfoldable pub reply : ℕ → ℕ → ℕ → ℕ → M ℕ
  reply sender rc buf data_len = do
    k ← get
    if ltb max_message data_len || not (ltb sender max_tasks)
        then return einval
        else elim (k.table.pending sender) [
          | none ↦ return einval
          | some p ↦ elim p [
            | send_wait _ ↦ return einval
            | recv_wait _ _ ↦ return einval
            | reply_wait message ↦ if not (message.target == k.current) then return einval else do
              delivered ←
                  run (deliver k.current buf data_len sender message.reply_buf message.reply_cap)
              replied sender rc delivered
          ]
        ]
