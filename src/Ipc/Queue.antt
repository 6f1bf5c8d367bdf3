-- ===== src/Ipc/Queue.antt =====
-- `best_sender` of kernel/src/ipc.rs: whose message is received first.
use the_rack.Base.{
  ℕ, zero, suc, ◌+◌, ◌≤◌, ◌<◌, ◌≡◌, refl, inl, inr, not, Option, none, some, arith, if◌then◌else◌,
  ◌==◌, ltb, Bool-cases, subst, sym,
}
use the_rack.Kernel.{Kernel, send_wait, reply_wait, recv_wait, max_tasks}
use the_rack.Tasks.{priority_of, outranks}
use the_rack.Ipc.Waiting.{best_sender, scan_senders, better_sender}

-- The priority of the task in a slot, if it waits to send to `target`.
abbrev pub queued : ℕ → Kernel → ℕ → Option ℕ
queued target k slot = elim (k.table.pending slot) [
  | none ↦ none
  | some p ↦ elim p [
    | reply_wait _ ↦ none
    | recv_wait _ _ ↦ none
    | send_wait message ↦ if message.target == target then priority_of slot k else none
  ]
]

-- The first of the most important senders in the slots below `stop`.
pub record IsFirst (target : ℕ) (k : Kernel) (stop slot priority : ℕ) : Type 0 where
  pub within : slot < stop
  pub waits : queued target k slot ≡ some priority
  pub before : (j p : ℕ) → j < slot → queued target k j ≡ some p → priority < p
  pub after : (j p : ℕ) → slot < j → j < stop → queued target k j ≡ some p → priority ≤ p

abbrev pub FirstSoFar : ℕ → Kernel → ℕ → Option (ℕ × ℕ) → Type 0
FirstSoFar target k stop none = (j : ℕ) → j < stop → queued target k j ≡ none
FirstSoFar target k stop (some (slot, priority)) = IsFirst target k stop slot priority

better_sender-queued :
    (target : ℕ) (k : Kernel) (slot : ℕ) (best : Option (ℕ × ℕ))
    → better_sender target k slot best ≡ elim (queued target k slot) [
      | none ↦ best
      | some priority ↦ elim best [
        | none ↦ some (slot, priority)
        | some (held, best_priority) ↦
            if not (outranks priority best_priority)
            then some (held, best_priority)
            else some (slot, priority)
      ]
    ]
better_sender-queued target k slot best = ground arith

better_sender-FirstSoFar :
    (target : ℕ) (k : Kernel) (slot : ℕ) (best : Option (ℕ × ℕ))
    → FirstSoFar target k slot best
    → FirstSoFar target k (slot + 1) (better_sender target k slot best)
better_sender-FirstSoFar target k slot best so_far =
    subst (FirstSoFar target k (slot + 1)) (sym (better_sender-queued target k slot best))
      (go (queued target k slot) refl best so_far)
  where
    go :
        (q : Option ℕ)
        → queued target k slot ≡ q
        → (best : Option (ℕ × ℕ)) → FirstSoFar target k slot best
        → FirstSoFar target k (slot + 1) (elim q as (λ _. Option (ℕ × ℕ)) [
          | none ↦ best
          | some priority ↦ elim best [
            | none ↦ some (slot, priority)
            | some (held, best_priority) ↦
                if not (outranks priority best_priority)
                then some (held, best_priority)
                else some (slot, priority)
          ]
        ])
    go none e none idle = λ j h. elim (Bool-cases (j == slot)) [
      | inl last ↦ let same : j ≡ slot = ground arith in rw same e
      | inr earlier ↦ idle j (ground arith)
    ]
    go none e (some (held, p)) first = record {
      within = omega (arith, first.within);
      waits = first.waits;
      before = first.before;
      after = λ j p' h h' w. elim (Bool-cases (j == slot)) [
        | inl last ↦ let same : j ≡ slot = ground arith in absurd (ground arith)
        | inr earlier ↦ first.after j p' h (ground arith) w
      ];
    }
    go (some q) e none idle = record {
      within = omega arith;
      waits = e;
      before = λ j p h w. absurd (ground (arith, idle j h));
      after = λ j p h h'. absurd (omega arith);
    }
    go (some q) e (some (held, p)) first = elim (Bool-cases (outranks q p)) [
      | inl wins ↦ rw wins (record {
        within = omega arith;
        waits = e;
        before = λ j p' h w. elim (Bool-cases (ltb j held)) [
          | inl earlier ↦ ground (arith, first.before j p' (ground arith) w)
          | inr later ↦ elim (Bool-cases (j == held)) [
            | inl same ↦ let at : j ≡ held = ground arith in ground (arith, first.waits)
            | inr beyond ↦ ground (arith, first.after j p' (ground arith) h w)
          ]
        ];
        after = λ j p' h h'. absurd (omega arith);
      })
      | inr loses ↦ rw loses (record {
        within = omega (arith, first.within);
        waits = first.waits;
        before = first.before;
        after = λ j p' h h' w. elim (Bool-cases (j == slot)) [
          | inl last ↦ let same : j ≡ slot = ground arith in ground arith
          | inr earlier ↦ first.after j p' h (ground arith) w
        ];
      })
    ]

scan_senders-FirstSoFar :
    (target : ℕ) (k : Kernel) (n slot : ℕ) (best : Option (ℕ × ℕ))
    → FirstSoFar target k slot best
    → FirstSoFar target k (slot + n) (scan_senders target k n slot best)
unfolding scan_senders
scan_senders-FirstSoFar target k zero slot best so_far =
    let same : slot + 0 ≡ slot = omega arith in rw same so_far
scan_senders-FirstSoFar target k (suc n) slot best so_far =
    let same : slot + suc n ≡ slot + 1 + n = omega arith in
    rw same (
      scan_senders-FirstSoFar target k n (slot + 1) (better_sender target k slot best)
        (better_sender-FirstSoFar target k slot best so_far))

-- What `best_sender` may answer.
abbrev pub BestSender : ℕ → Kernel → Option ℕ → Type 0
BestSender target k none = (j : ℕ) → j < max_tasks → queued target k j ≡ none
BestSender target k (some slot) = (priority : ℕ) × IsFirst target k max_tasks slot priority

-- `best_sender` finds a sender exactly if some task waits to send to the target. It is the first, in
-- slot order, of those with the best priority: strictly more important than each sender in a lower
-- slot, and no less important than each in a higher one.
pub best_sender-BestSender : (target : ℕ) (k : Kernel) → BestSender target k (best_sender target k)
unfolding best_sender
best_sender-BestSender target k =
    go (scan_senders target k max_tasks 0 none)
      (scan_senders-FirstSoFar target k max_tasks 0 none (λ j h. absurd (omega arith)))
  where
    go :
        (b : Option (ℕ × ℕ))
        → FirstSoFar target k max_tasks b
        → BestSender target k
            (elim b as (λ _. Option ℕ) [ none ↦ none | some (slot, p) ↦ some slot ])
    go none idle = idle
    go (some (slot, p)) first = (p, first)
