-- ===== src/Ipc/Collect.antt =====
-- `collect_leases` of kernel/src/ipc.rs: the checks on each descriptor.
use the_rack.Base.{
  ℕ, zero, suc, ◌+◌, ◌*◌, ◌%◌, ◌≤◌, ◌<◌, ◌≡◌, ◌≢◌, inl, inr, true, none, arith, ◌==◌, ltb, bit_and,
  bit_or, Bool-cases, Option-cases,
}
use the_rack.Base.Bits.{not_bits}
use the_rack.Frames.Allocator.{Memory, Frame}
use the_rack.Paging.{user_readable, user_writable}
use the_rack.Kernel.{Lease, no_lease, max_leases, update}
use the_rack.Ipc.Lending.{
  Collected, collected, rejected, collect_leases, collect_from, lease_error, read_user_u64,
}
use the_rack.Ipc.{lease_read, lease_write, lease_stride}

-- A lease permits reading or writing and nothing unknown, and its owner has what it permits.
pub record LeaseOk (root : Frame) (m : Memory) (lease : Lease) : Type 0 where
  pub permits_something : lease.attrs ≢ 0
  pub known : bit_and lease.attrs (not_bits 64 (bit_or lease_read lease_write)) ≡ 0
  pub readable :
      bit_and lease.attrs lease_read ≢ 0 → user_readable root lease.base lease.len m ≡ true
  pub writable :
      bit_and lease.attrs lease_write ≢ 0 → user_writable root lease.base lease.len m ≡ true

lease_error-none :
    (root : Frame) (base len attrs : ℕ) (m : Memory)
    → lease_error root base len attrs m ≡ none
    → LeaseOk root m (record { base = base; len = len; attrs = attrs })
unfolding lease_error
lease_error-none root base len attrs m h = record {
  permits_something = ground arith;
  known = ground arith;
  readable = λ r. ground arith;
  writable = λ r. ground arith;
}

-- What the reader of the table may answer.
abbrev pub CollectedOk : Frame → Memory → Collected → Type 0
CollectedOk root m (rejected error) = Unit {0}
CollectedOk root m (collected leases count) =
    (count ≤ max_leases) × ((i : ℕ) → i < count → LeaseOk root m (leases i))

module _ (root : Frame) (m : Memory) where
  -- One more descriptor that passed its checks.
  keep-LeaseOk :
      (index base len attrs : ℕ) (leases : ℕ → Lease)
      → lease_error root base len attrs m ≡ none
      → ((i : ℕ) → i < index → LeaseOk root m (leases i))
      → (i : ℕ) → i < index + 1
      → LeaseOk root m (update leases index (record { base = base; len = len; attrs = attrs }) i)
  keep-LeaseOk index base len attrs leases missing so_far i p = elim (Bool-cases (index == i)) [
    | inl same ↦ rw same (lease_error-none root base len attrs m missing)
    | inr other ↦ rw other (so_far i (ground arith))
  ]

  collect_from-ok :
      (table_va count n index : ℕ) (leases : ℕ → Lease)
      → index + n ≡ count
      → count ≤ max_leases
      → ((i : ℕ) → i < index → LeaseOk root m (leases i))
      → CollectedOk root m (collect_from root table_va count n index leases m)
  unfolding collect_from
  collect_from-ok table_va count zero index leases e h so_far = (h, λ i p. so_far i (omega arith))
  collect_from-ok table_va count (suc n) index leases e h so_far =
      let entry = table_va + index * lease_stride in
      elim (Option-cases (read_user_u64 root entry m)) [
        | inl missing ↦ rw (missing, collect_from) tt
        | inr (base, found) ↦
            rw (found, collect_from)
              (elim (Option-cases (read_user_u64 root (entry + 8) m)) [
                | inl missing ↦ rw (missing, collect_from) tt
                | inr (len, found) ↦
                    rw (found, collect_from)
                      (elim (Option-cases (read_user_u64 root (entry + 16) m)) [
                        | inl missing ↦ rw (missing, collect_from) tt
                        | inr (attrs, found) ↦
                            rw (found, collect_from)
                              (elim (Option-cases (lease_error root base len attrs m)) [
                                | inr (error, found) ↦ rw (found, collect_from) tt
                                | inl missing ↦
                                    rw (missing, collect_from)
                                      (collect_from-ok table_va count n (index + 1)
                                        (update leases index
                                          (record { base = base; len = len; attrs = attrs }))
                                        (omega arith) h
                                        (keep-LeaseOk index base len attrs leases missing so_far))
                              ])
                      ])
              ])
      ]

-- Where `collect_leases` does not reject the table, it hands over no more leases than a slot has
-- room for, and each permits reading or writing and nothing unknown, over memory of the sender
-- that the sender itself may read or write so.
pub collect_leases-ok :
    (root : Frame) (table_va count : ℕ) (m : Memory)
    → CollectedOk root m (collect_leases root table_va count m)
unfolding collect_leases
collect_leases-ok root table_va count m = elim (Bool-cases (count == 0)) [
  | inl empty ↦ rw empty (omega arith, λ i p. absurd (omega arith))
  | inr some_lease ↦ rw some_lease (elim (Bool-cases (ltb max_leases count)) [
    | inl over ↦ rw over tt
    | inr fits ↦ rw fits (elim (Bool-cases (table_va % 8 == 0)) [
      | inr odd ↦ rw odd tt
      | inl aligned ↦
          rw aligned (elim (Bool-cases (user_readable root table_va (count * lease_stride) m)) [
            | inr out ↦ rw out tt
            | inl readable ↦ rw readable (
                collect_from-ok root m table_va count count 0 (λ _. no_lease) (omega arith)
                  (ground arith) (λ i p. absurd (omega arith)))
          ])
    ])
  ])
]
