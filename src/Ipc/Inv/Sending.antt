-- ===== src/Ipc/Inv/Sending.antt =====
-- `send` and `reply` of kernel/src/ipc.rs and the invariant of the tables.
use the_rack.Base.{
  ℕ, ◌≤◌, ◌<◌, ◌≢◌, inl, inr, Bool, true, false, not, ◌||◌, Option, none, some, arith, ◌==◌, ltb,
  Option-cases, Bool-cases,
}
use the_rack.Frames.Allocator.{Frame}
use the_rack.Paging.{user_readable, user_writable}
use the_rack.Kernel.{
  Kernel, Message, Pending, send_wait, reply_wait, recv_wait, Lease, no_outcome, max_tasks,
  max_leases,
}
use the_rack.Kernel.Prog.{M, ◌>>=◌, ◌>>◌, Safe, Safe-and_then, return}
use the_rack.Tasks.{Spaces, mark_current_blocked, unblock, park, is_alive}
use the_rack.Tasks.Switch.{park-Safe, unblock-Safe}
use the_rack.Ipc.{max_message, set_pending, set_outcome, set_leases, deliver, root_of}
use the_rack.Ipc.Waiting.{deliver_outcome}
use the_rack.Ipc.Sending.{send, send_checks, hand_off, queue_up, handed, pass_message, sent_result}
use the_rack.Ipc.Answering.{finish_sender}
use the_rack.Ipc.Lending.{Collected, collected, rejected, collect_leases}
use the_rack.Ipc.Collect.{CollectedOk, collect_leases-ok}
use the_rack.Ipc.Inv.{
  TableInv, MessageOk, PendingOk, LeaseShape, Switched-TableInv, set_pending-TableInv,
  set_leases-TableInv, set_outcome-TableInv, deliver_outcome-TableInv, unblock_deferred-TableInv,
  mark_current_blocked-TableInv, deliver-TableInv,
}

pub park-TableInv : (spaces : Spaces) (k : Kernel) → TableInv k → Safe TableInv (park spaces k)
park-TableInv = park-Safe TableInv Switched-TableInv (λ k inv. inv.current_in_table)

pub unblock-TableInv :
    (spaces : Spaces) (id : ℕ) (k : Kernel) → TableInv k → Safe TableInv (unblock spaces id k)
unblock-TableInv spaces id k inv =
    unblock-Safe TableInv Switched-TableInv (λ k inv. inv.current_in_table) spaces id k
      (unblock_deferred-TableInv id k inv)

pub finish_sender-TableInv :
    (spaces : Spaces) (sender rc len : ℕ) (k : Kernel)
    → TableInv k
    → Safe TableInv (finish_sender spaces sender rc len k)
unfolding finish_sender
finish_sender-TableInv spaces sender rc len k inv =
    unblock-TableInv spaces sender (deliver_outcome sender rc len k)
      (deliver_outcome-TableInv sender rc len k inv)

-- What the checks of `send` let through.
abbrev Checked : ℕ → ℕ → ℕ → Kernel → Collected → Type 0
Checked target out_len reply_cap k (rejected error) = Unit {0}
Checked target out_len reply_cap k (collected leases count) =
    (target < max_tasks)
    × (target ≢ k.current)
    × (out_len ≤ max_message)
    × (reply_cap ≤ max_message)
    × (count ≤ max_leases)
    × ((i : ℕ) → i < count → LeaseShape (leases i))

send_checks-Checked :
    (spaces : Spaces) (target out out_len reply_buf reply_cap lease_table lease_count : ℕ)
    (k : Kernel)
    → Checked target out_len reply_cap k
        (send_checks spaces target out out_len reply_buf reply_cap lease_table lease_count k)
unfolding send_checks
send_checks-Checked spaces target out out_len reply_buf reply_cap lease_table lease_count k =
    elim (Bool-cases (ltb max_message out_len || ltb max_message reply_cap)) [
      | inl long ↦ rw long tt
      | inr short ↦ rw short (elim (Bool-cases (ltb target max_tasks)) [
        | inr out_of_table ↦ rw out_of_table tt
        | inl inside ↦ rw inside (elim (Bool-cases (target == k.current)) [
          | inl self ↦ rw self tt
          | inr other ↦ rw other (elim (Bool-cases (is_alive target k)) [
            | inr dead ↦ rw dead tt
            | inl alive ↦ rw alive (elim (Option-cases (root_of k.current k)) [
              | inl no_space ↦ rw no_space tt
              | inr (root, space) ↦
                  rw space
                    (elim (Bool-cases (
                      not (user_readable root out out_len k.memory)
                      || not (user_writable root reply_buf reply_cap k.memory))) [
                        | inl fault ↦ rw fault tt
                        | inr fine ↦ rw fine (
                            with_leases root (ground arith) (ground arith) (ground arith)
                              (ground arith) (collect_leases root lease_table lease_count k.memory)
                              (collect_leases-ok root lease_table lease_count k.memory))
                      ])
            ])
          ])
        ])
      ])
    ]
  where
    with_leases :
        (root : Frame)
        → target < max_tasks
        → target ≢ k.current
        → out_len ≤ max_message
        → reply_cap ≤ max_message
        → (c : Collected) → CollectedOk root k.memory c
        → Checked target out_len reply_cap k c
    with_leases root p q r s (rejected error) good = tt
    with_leases root p q r s (collected leases count) (few, each) = (
      p,
      q,
      r,
      s,
      few,
      λ i h. record { permits_something = (each i h).permits_something; known = (each i h).known },
    )

queue_up-TableInv :
    (spaces : Spaces) (me : ℕ) (message : Message) (leases : ℕ → Lease) (count : ℕ) (k : Kernel)
    → MessageOk me message
    → count ≤ max_leases
    → ((i : ℕ) → i < count → LeaseShape (leases i))
    → TableInv k
    → Safe TableInv (queue_up spaces me message leases count k)
unfolding queue_up
queue_up-TableInv spaces me message leases count k good few shapes inv =
    Safe-and_then TableInv (park spaces k') (λ _. return true)
      (park-TableInv spaces k' (
        mark_current_blocked-TableInv
          (set_pending me (some (send_wait message)) (set_leases me leases count k))
          (set_pending-TableInv me (some (send_wait message)) (set_leases me leases count k) good
            (set_leases-TableInv me leases count k few shapes inv))))
      (λ u n inv'. inv')
  where
    k' : Kernel
    k' =
        mark_current_blocked
          (set_pending me (some (send_wait message)) (set_leases me leases count k))

handed-TableInv :
    (spaces : Spaces) (me : ℕ) (message : Message) (leases : ℕ → Lease) (count buf cap : ℕ)
    (arrived : Option ℕ) (k : Kernel)
    → MessageOk me message
    → count ≤ max_leases
    → ((i : ℕ) → i < count → LeaseShape (leases i))
    → cap ≤ max_message
    → TableInv k
    → Safe TableInv (handed spaces me message leases count buf cap arrived k)
unfolding handed
handed-TableInv spaces me message leases count buf cap none k good few shapes fits inv =
    set_pending-TableInv message.target (some (recv_wait buf cap)) k fits inv
handed-TableInv spaces me message leases count buf cap (some len) k good few shapes fits inv =
    let k₁ = mark_current_blocked k in
    let k₂ = set_outcome message.target (record { a = me; b = message.operation; c = len }) k₁ in
    let k₃ = set_leases me leases count k₂ in
    let k₄ = set_pending me (some (reply_wait message)) k₃ in
    Safe-and_then TableInv (unblock spaces message.target k₄) (λ _. park spaces >> return true)
      (unblock-TableInv spaces message.target k₄ (
        set_pending-TableInv me (some (reply_wait message)) k₃ good (
          set_leases-TableInv me leases count k₂ few shapes
            (set_outcome-TableInv message.target _ k₁ (mark_current_blocked-TableInv k inv)))))
      (λ u n inv'.
        Safe-and_then TableInv (park spaces n) (λ _. return true) (park-TableInv spaces n inv')
          (λ u n' inv''. inv''))

hand_off-TableInv :
    (spaces : Spaces) (me : ℕ) (message : Message) (leases : ℕ → Lease) (count buf cap : ℕ)
    (k : Kernel)
    → MessageOk me message
    → count ≤ max_leases
    → ((i : ℕ) → i < count → LeaseShape (leases i))
    → cap ≤ max_message
    → TableInv k
    → Safe TableInv (hand_off spaces me message leases count buf cap k)
unfolding hand_off
hand_off-TableInv spaces me message leases count buf cap k good few shapes fits inv =
    let k₀ = set_pending message.target none k in
    let copied = deliver me message.out message.out_len message.target buf cap k₀ in
    handed-TableInv spaces me message leases count buf cap copied.0 copied.1 good few shapes fits (
      deliver-TableInv me message.out message.out_len message.target buf cap k₀
        (set_pending-TableInv message.target none k tt inv))

pass_message-TableInv :
    (spaces : Spaces) (me : ℕ) (message : Message) (leases : ℕ → Lease) (count : ℕ)
    (p : Option Pending) (k : Kernel)
    → MessageOk me message
    → count ≤ max_leases
    → ((i : ℕ) → i < count → LeaseShape (leases i))
    → PendingOk message.target p
    → TableInv k
    → Safe TableInv (pass_message spaces me message leases count p k)
unfolding pass_message
pass_message-TableInv spaces me message leases count none k good few shapes fits inv =
    queue_up-TableInv spaces me message leases count k good few shapes inv
pass_message-TableInv spaces me message leases count (some (send_wait m)) k good few shapes fits
      inv =
    queue_up-TableInv spaces me message leases count k good few shapes inv
pass_message-TableInv spaces me message leases count (some (reply_wait m)) k good few shapes fits
      inv =
    queue_up-TableInv spaces me message leases count k good few shapes inv
pass_message-TableInv spaces me message leases count (some (recv_wait buf cap)) k good few shapes
      fits inv =
    hand_off-TableInv spaces me message leases count buf cap k good few shapes fits inv

sent_result-TableInv :
    (spaces : Spaces) (me : ℕ) (sent : Bool) (k : Kernel)
    → TableInv k
    → Safe TableInv (sent_result spaces me sent k)
unfolding sent_result
sent_result-TableInv spaces me false k inv = inv
sent_result-TableInv spaces me true k inv = set_outcome-TableInv me no_outcome k inv

-- From tables that satisfy their invariant, `send` keeps it at every point where it gives up the CPU and
-- when it returns, whatever runs while it is parked, if what runs keeps it too: each message in the
-- tables names another task of the table and is no longer than a message may be, each receiver's
-- buffer likewise, and each slot has at most as many leases as fit, each permitting something and
-- nothing unknown.
pub send-TableInv :
    (spaces : Spaces) (target operation out out_len reply_buf reply_cap lease_table lease_count : ℕ)
    (k : Kernel)
    → TableInv k
    → Safe TableInv
        (send spaces target operation out out_len reply_buf reply_cap lease_table lease_count k)
unfolding send
send-TableInv spaces target operation out out_len reply_buf reply_cap lease_table lease_count k
      inv =
    go (send_checks spaces target out out_len reply_buf reply_cap lease_table lease_count k)
      (send_checks-Checked spaces target out out_len reply_buf reply_cap lease_table lease_count k)
  where
    message : Message
    message = record {
      target = target;
      operation = operation;
      out = out;
      out_len = out_len;
      reply_buf = reply_buf;
      reply_cap = reply_cap;
    }

    go :
        (c : Collected)
        → Checked target out_len reply_cap k c
        → Safe {A = ℕ × ℕ} TableInv (
            (elim c as (λ _. M (ℕ × ℕ)) [
              | collected leases count ↦
                  pass_message spaces k.current message leases count (k.table.pending target)
                  >>= sent_result spaces k.current
              | rejected error ↦ return (error, 0)
            ])
              k)
    go (rejected error) checked = inv
    go (collected leases count) (inside, other, short, short_reply, few, shapes) =
        Safe-and_then TableInv _ (sent_result spaces k.current)
          (pass_message-TableInv spaces k.current message leases count (k.table.pending target) k
            (record {
              target_in_table = inside;
              not_itself = other;
              short = short;
              short_reply = short_reply;
            })
            few shapes (inv.entries target) inv)
          (λ sent. sent_result-TableInv spaces k.current sent)
