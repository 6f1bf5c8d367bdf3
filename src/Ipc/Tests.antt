-- ===== src/Ipc/Tests.antt =====
-- The theorems on messages and leases at a small kernel.
use the_rack.Base.{ℕ, ◌≡◌, refl, true, false, Bool, arith, ◌==◌}
use the_rack.Kernel.Prog.{ret, Safe}
use the_rack.Base.Bits.{bit}
use the_rack.Kernel.Sample.{listening, asking, sample_root, sample_memory}
use the_rack.Paging.{
  user_range, user_readable, user_writable, allowed_pages, lookup, lookup_from, translate,
  translate_from, table_index, read_entry, copy_across, copy_from, copy_bytes,
}
use the_rack.Paging.Words.{read_u64}
use the_rack.Tasks.{space_root_of}
use the_rack.Tasks.Sample.{free_spaces}
use the_rack.Ipc.Lending.{borrow, borrow_copy, usable_lease, collect_leases}
use the_rack.Ipc.{root_of, einval, deliver}
use the_rack.Ipc.Waiting.{abandon, best_sender}
use the_rack.Ipc.Sending.{send}
use the_rack.Ipc.Receiving.{recv}
use the_rack.Ipc.Answering.{reply}
use the_rack.Ipc.Reply.{Awaits, reply_forged}
use the_rack.Ipc.Collect.{CollectedOk, collect_leases-ok}
use the_rack.Ipc.Borrow.{Granted, borrow-Granted}
use the_rack.Ipc.Abandon.{Abandoned, abandon-Abandoned}
use the_rack.Ipc.Queue.{BestSender, best_sender-BestSender}
use the_rack.Ipc.Delivery.{Delivered, deliver-Delivered}
use the_rack.Ipc.Inv.{TableInv, PendingOk}
use the_rack.Ipc.Inv.Sending.{send-TableInv}
use the_rack.Ipc.Inv.Receiving.{recv-TableInv}

-- The server of `listening` waits for a message, not for an answer.
unasked : ¬ Awaits listening 1
unasked (message, waits, mine) = absurd cc

reply_forged_example : reply free_spaces 1 0 0 8 listening ≡ ret einval listening
reply_forged_example = reply_forged free_spaces listening 1 0 0 8 unasked

collect_leases-ok_example :
    CollectedOk sample_root sample_memory (collect_leases sample_root 0 2 sample_memory)
collect_leases-ok_example = collect_leases-ok sample_root 0 2 sample_memory

borrows : (borrow 1 0 4 128 8 false asking).1 ≡ 0
unfolding borrow borrow_copy root_of space_root_of usable_lease user_range user_readable
    user_writable allowed_pages lookup lookup_from translate translate_from table_index read_entry
    read_u64 copy_across copy_from copy_bytes bit
borrows = refl

borrow-Granted_example : Granted asking 1 0 4 8 false
borrow-Granted_example = borrow-Granted 1 0 4 128 8 false asking borrows

deliver-Delivered_example : Delivered 2 0 16 1 64 32 listening (deliver 2 0 16 1 64 32 listening)
deliver-Delivered_example = deliver-Delivered 2 0 16 1 64 32 listening

abandon-Abandoned_example : Abandoned 2 asking (abandon 2 asking)
abandon-Abandoned_example = abandon-Abandoned 2 asking

best_sender-BestSender_example : BestSender 2 asking (best_sender 2 asking)
best_sender-BestSender_example = best_sender-BestSender 2 asking

listening-TableInv : TableInv listening
listening-TableInv = record {
  current_in_table = omega arith;
  entries = λ j. entry j (j == 1) refl;
  counts = λ j. omega arith;
  shapes = λ j i h. record { permits_something = omega arith; known = refl };
}
  where
    entry : (j : ℕ) (b : Bool) → (j == 1) ≡ b → PendingOk j (listening.table.pending j)
    entry j true e = rw e (omega arith)
    entry j false e = rw e tt

send-TableInv_example : Safe TableInv (send free_spaces 1 3 0 8 16 8 0 0 listening)
send-TableInv_example = send-TableInv free_spaces 1 3 0 8 16 8 0 0 listening listening-TableInv

recv-TableInv_example : Safe TableInv (recv free_spaces 3 0 64 5 listening)
recv-TableInv_example = recv-TableInv free_spaces 3 0 64 5 listening listening-TableInv
