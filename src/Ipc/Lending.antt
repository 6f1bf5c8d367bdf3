-- ===== src/Ipc/Lending.antt =====
-- Leases of kernel/src/ipc.rs: `collect_leases` and `borrow`.
use the_rack.Base.{
  ℕ, zero, suc, ◌+◌, ◌*◌, ◌%◌, Bool, true, false, not, ◌&&◌, ◌||◌, Option, none, some,
  if◌then◌else◌, ◌==◌, ltb, u64_mod, bit_and, bit_or,
}
use the_rack.Base.Bits.{not_bits}
use the_rack.Frames.Allocator.{Memory, Frame}
use the_rack.Paging.{user_readable, user_writable, translate, copy_across}
use the_rack.Paging.Words.{read_u64}
use the_rack.Kernel.{
  Kernel, Lease, no_lease, send_wait, reply_wait, recv_wait, max_tasks, max_leases, update,
}
use the_rack.Ipc.{
  max_borrow, lease_read, lease_write, lease_stride, einval, efault, eperm, set_memory, root_of,
}

unfoldable pub read_user_u64 : Frame → ℕ → Memory → Option ℕ
read_user_u64 root va m = elim (translate root va m) [
  | none ↦ none
  | some pa ↦ some (read_u64 m.bytes pa)
]

-- `Result<_, u64>` of the lease table's reader.
pub data Collected : Type 0 where
  collected : (ℕ → Lease) → ℕ → Collected
  rejected : ℕ → Collected

-- The checks on one descriptor: an error code, or none.
unfoldable pub lease_error : Frame → ℕ → ℕ → ℕ → Memory → Option ℕ
lease_error root base len attrs m =
    if attrs == 0 || not (bit_and attrs (not_bits 64 (bit_or lease_read lease_write)) == 0)
    then some einval
    else if not (bit_and attrs lease_read == 0) && not (user_readable root base len m)
    then some efault
    else if not (bit_and attrs lease_write == 0) && not (user_writable root base len m)
    then some efault
    else none

-- The descriptors from `index` on, `n` of them left, with those before in `leases`.
unfoldable pub collect_from : Frame → ℕ → ℕ → ℕ → ℕ → (ℕ → Lease) → Memory → Collected
collect_from root table_va count zero index leases m = collected leases count
collect_from root table_va count (suc n) index leases m =
    let entry = table_va + index * lease_stride in
    let rest = λ (base len attrs : ℕ).
      collect_from root table_va count n (index + 1)
        (update leases index (record { base = base; len = len; attrs = attrs })) m in
    elim (read_user_u64 root entry m) [
      | none ↦ rejected efault
      | some base ↦ elim (read_user_u64 root (entry + 8) m) [
        | none ↦ rejected efault
        | some len ↦ elim (read_user_u64 root (entry + 16) m) [
          | none ↦ rejected efault
          | some attrs ↦ elim (lease_error root base len attrs m) [
            | some error ↦ rejected error
            | none ↦ rest base len attrs
          ]
        ]
      ]
    ]

unfoldable pub collect_leases : Frame → ℕ → ℕ → Memory → Collected
unfolding collect_from
collect_leases root table_va count m =
    if count == 0
    then collected (λ _. no_lease) 0
    else if ltb max_leases count
    then rejected einval
    else if not (table_va % 8 == 0)
    then rejected einval
    else if not (user_readable root table_va (count * lease_stride) m)
    then rejected efault
    else collect_from root table_va count count 0 (λ _. no_lease) m

-- The lease that `me` may use: its owner waits for a reply from `me`.
unfoldable pub usable_lease : ℕ → ℕ → ℕ → Kernel → Option Lease
usable_lease me peer index k = elim (k.table.pending peer) [
  | none ↦ none
  | some p ↦ elim p [
    | send_wait _ ↦ none
    | recv_wait _ _ ↦ none
    | reply_wait message ↦
        if message.target == me && ltb index (k.table.lease_count peer)
        then some (k.table.leases peer index)
        else none
  ]
]

abbrev copy_result : Kernel → Memory × Bool → Kernel × ℕ
copy_result k copied = (set_memory copied.0 k, if copied.1 then 0 else efault)

-- The copy of `borrow`, with the addresses resolved.
unfoldable pub borrow_copy : ℕ → Frame → Frame → ℕ → ℕ → Bool → Kernel → Kernel × ℕ
borrow_copy remote peer_root my_root local len true k =
    if not (user_readable my_root local len k.memory)
    then (k, efault)
    else copy_result k (copy_across my_root local peer_root remote len k.memory)
borrow_copy remote peer_root my_root local len false k =
    if not (user_writable my_root local len k.memory)
    then (k, efault)
    else copy_result k (copy_across peer_root remote my_root local len k.memory)

unfoldable pub borrow : ℕ → ℕ → ℕ → ℕ → ℕ → Bool → Kernel → Kernel × ℕ
unfolding usable_lease borrow_copy root_of
borrow peer index offset local len writing k =
    if not (ltb peer max_tasks) || ltb max_borrow len
    then (k, einval)
    else elim (usable_lease k.current peer index k) [
      | none ↦ (k, einval)
      | some lease ↦
          if bit_and lease.attrs (if writing then lease_write else lease_read) == 0
          then (k, eperm)
          else if not (ltb (offset + len) u64_mod)
          then (k, einval)
          else if ltb lease.len (offset + len)
          then (k, einval)
          else elim (root_of peer k) [
            | none ↦ (k, efault)
            | some peer_root ↦ elim (root_of k.current k) [
              | none ↦ (k, efault)
              | some my_root ↦
                  borrow_copy (lease.base + offset) peer_root my_root local len writing k
            ]
          ]
    ]

unfoldable pub borrow_read : ℕ → ℕ → ℕ → ℕ → ℕ → Kernel → Kernel × ℕ
unfolding borrow
borrow_read peer index offset dst len k = borrow peer index offset dst len false k

unfoldable pub borrow_write : ℕ → ℕ → ℕ → ℕ → ℕ → Kernel → Kernel × ℕ
unfolding borrow
borrow_write peer index offset src len k = borrow peer index offset src len true k
