-- ===== src/Ipc/Inv/Receiving.antt =====
-- `recv` of kernel/src/ipc.rs and the invariant of the tables.
use the_rack.Base.{
  ℕ, zero, suc, ◌≤◌, refl, inl, inr, Option, none, some, arith, ◌==◌, ltb, ◌%◌, ◌^◌, Option-cases,
  Bool-cases,
}
use the_rack.Paging.{user_writable}
use the_rack.Kernel.{Kernel, Message, Pending, send_wait, reply_wait, recv_wait, no_outcome}
use the_rack.Kernel.Prog.{M, Safe, Safe-and_then, return}
use the_rack.Tasks.{Spaces, mark_current_blocked, park}
use the_rack.Notify.{take, arm, disarm}
use the_rack.Ipc.{max_message, set_pending, deliver, root_of, efault}
use the_rack.Ipc.Receiving.{
  recv, recv_loop, recv_turn, recv_from, message_turn, received, recv_wait_turn, woken_up,
}
use the_rack.Ipc.Waiting.{best_sender}
use the_rack.Ipc.Answering.{finish_sender}
use the_rack.Ipc.Inv.{
  TableInv, PendingOk, keep-TableInv, set_pending-TableInv, set_outcome-TableInv,
  mark_current_blocked-TableInv, deliver-TableInv,
}
use the_rack.Ipc.Inv.Sending.{park-TableInv, finish_sender-TableInv}

module _ (spaces : Spaces) (me buf cap : ℕ) where
  woken_up-TableInv :
      (p : Option Pending) (k : Kernel) → TableInv k → Safe TableInv (woken_up spaces me p k)
  unfolding woken_up
  woken_up-TableInv none k inv = set_outcome-TableInv me no_outcome k inv
  woken_up-TableInv (some p) k inv = set_pending-TableInv me none k tt inv

  recv_wait_turn-TableInv :
      (mask : ℕ) (k : Kernel)
      → cap ≤ max_message
      → TableInv k
      → Safe TableInv (recv_wait_turn spaces me buf cap mask k)
  unfolding recv_wait_turn arm disarm
  recv_wait_turn-TableInv mask k fits inv =
      let k₁ = arm me mask k in
      let k₂ = set_pending me (some (recv_wait buf cap)) k₁ in
      Safe-and_then TableInv (park spaces (mark_current_blocked k₂)) _
        (park-TableInv spaces (mark_current_blocked k₂) (
          mark_current_blocked-TableInv k₂ (
            set_pending-TableInv me (some (recv_wait buf cap)) k₁ fits
              (keep-TableInv k k₁ refl inv.current_in_table inv))))
        (λ u n inv'.
          woken_up-TableInv (n.table.pending me) (disarm me n)
            (keep-TableInv n (disarm me n) refl inv'.current_in_table inv'))

  received-TableInv :
      (sender : ℕ) (message : Message) (arrived : Option ℕ) (k : Kernel)
      → PendingOk sender (some (reply_wait message))
      → TableInv k
      → Safe TableInv (received spaces sender message arrived k)
  unfolding received
  received-TableInv sender message (some len) k good inv =
      set_pending-TableInv sender (some (reply_wait message)) k good inv
  received-TableInv sender message none k good inv =
      Safe-and_then TableInv (finish_sender spaces sender efault 0 k) _
        (finish_sender-TableInv spaces sender efault 0 k inv) (λ u n inv'. inv')

  recv_from-TableInv :
      (sender : ℕ) (p : Option Pending) (k : Kernel)
      → PendingOk sender p
      → TableInv k
      → Safe TableInv (recv_from spaces me buf cap sender p k)
  unfolding recv_from
  recv_from-TableInv sender none k good inv = tt
  recv_from-TableInv sender (some (recv_wait _ _)) k good inv = tt
  recv_from-TableInv sender (some (reply_wait _)) k good inv = tt
  recv_from-TableInv sender (some (send_wait m)) k good inv =
      let copied = deliver sender m.out m.out_len me buf cap k in
      received-TableInv sender m copied.0 copied.1 good
        (deliver-TableInv sender m.out m.out_len me buf cap k inv)

  message_turn-TableInv :
      (mask : ℕ) (best : Option ℕ) (k : Kernel)
      → cap ≤ max_message
      → TableInv k
      → Safe TableInv (message_turn spaces me buf cap mask best k)
  unfolding message_turn
  message_turn-TableInv mask none k fits inv = recv_wait_turn-TableInv mask k fits inv
  message_turn-TableInv mask (some sender) k fits inv =
      recv_from-TableInv sender (k.table.pending sender) k (inv.entries sender) inv

  recv_turn-TableInv :
      (mask : ℕ) (k : Kernel)
      → cap ≤ max_message
      → TableInv k
      → Safe TableInv (recv_turn spaces me buf cap mask k)
  unfolding recv_turn take
  recv_turn-TableInv mask k fits inv =
      let k' = (take me mask k).1 in
      let inv' = keep-TableInv k k' refl inv.current_in_table inv in
      elim (Bool-cases ((take me mask k).0 == 0)) [
        | inr fired ↦ rw fired inv'
        | inl quiet ↦ rw quiet (message_turn-TableInv mask (best_sender me k') k' fits inv')
      ]

  recv_loop-TableInv :
      (fuel mask : ℕ) (k : Kernel)
      → cap ≤ max_message
      → TableInv k
      → Safe TableInv (recv_loop spaces fuel me buf cap mask k)
  unfolding recv_loop
  recv_loop-TableInv zero mask k fits inv = inv
  recv_loop-TableInv (suc fuel) mask k fits inv =
      go (λ n inv'. recv_loop-TableInv fuel mask n fits inv')
    where
      turn :
          ((n : Kernel) → TableInv n → Safe TableInv (recv_loop spaces fuel me buf cap mask n))
          → (broke : Option (ℕ × ℕ × ℕ)) (n : Kernel) → TableInv n
          → Safe {A = Option (ℕ × ℕ × ℕ)} TableInv (
              (elim broke as (λ _. M (Option (ℕ × ℕ × ℕ))) [
                | none ↦ recv_loop spaces fuel me buf cap mask
                | some result ↦ return (some result)
              ])
                n)
      turn later none n inv' = later n inv'
      turn later (some result) n inv' = inv'

      go :
          ((n : Kernel) → TableInv n → Safe TableInv (recv_loop spaces fuel me buf cap mask n))
          → Safe TableInv (recv_loop spaces (suc fuel) me buf cap mask k)
      go later =
          Safe-and_then TableInv (recv_turn spaces me buf cap mask k) _
            (recv_turn-TableInv mask k fits inv) (turn later)

-- From tables that satisfy their invariant, `recv` keeps it through every turn of its loop,
-- however many it takes, whatever runs in between, if what runs keeps it too.
pub recv-TableInv :
    (spaces : Spaces) (fuel buf cap notify_mask : ℕ) (k : Kernel)
    → TableInv k
    → Safe TableInv (recv spaces fuel buf cap notify_mask k)
unfolding recv
recv-TableInv spaces fuel buf cap notify_mask k inv = elim (Bool-cases (ltb max_message cap)) [
  | inl long ↦ rw long inv
  | inr fits ↦ rw fits (elim (Option-cases (root_of k.current k)) [
    | inl no_space ↦ rw no_space inv
    | inr (root, space) ↦ rw space (elim (Bool-cases (user_writable root buf cap k.memory)) [
      | inr fault ↦ rw fault inv
      | inl fine ↦ rw fine (
          recv_loop-TableInv spaces k.current buf cap fuel (notify_mask % 2 ^ 32) k (ground arith)
            inv)
    ])
  ])
]
