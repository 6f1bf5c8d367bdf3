-- ===== src/Tasks/Switch.antt =====
-- `reap_zombies` and `switch_to_next` of kernel/src/tasks.rs: what a switch leaves alone, and where it
-- ends.
use the_rack.Base.{
  ℕ, zero, suc, ◌+◌, ◌<◌, ◌≡◌, ◌≢◌, refl, sym, ◌∙◌, subst, inl, inr, Bool, true, false, some, arith,
  Result, ok, panic, if◌then◌else◌, ◌==◌, Option-cases, Bool-cases, ap, Yields, Result-cases, ◌≤◌,
}
use the_rack.Frames.Allocator.{free_contiguous}
use the_rack.Kernel.{Kernel, Task, max_tasks, Reason, voluntary}
use the_rack.Kernel.Prog.{Prog, ret, yield, halt, and_then, Safe}
use the_rack.Tasks.{
  Spaces, reap_one, reap_rounds, reap_zombies, switch_to_next, switch_from, incoming_root,
  next_runnable, position, stack_frames, state_is, is_in_zombie, is_runnable, unblock, park,
  unblock_deferred, is_blocked,
}
use the_rack.Tasks.Picker.{Picked, next_runnable-Picked, next_runnable_highest}

-- Everything of the kernel but the tasks and the memory that they hold.
abbrev pub OnlyTasks : Kernel → Kernel → Type 0
OnlyTasks k n = n ≡ record k { tasks = n.tasks; memory = n.memory }

module _ (spaces : Spaces) where
  reap_one-OnlyTasks : (k : Kernel) → Yields (λ r. OnlyTasks k r.1) (reap_one spaces k)
  unfolding reap_one
  reap_one-OnlyTasks k = elim (Option-cases (position (state_is is_in_zombie) k)) [
    | inl none_left ↦ rw (none_left, reap_one) refl
    | inr (slot, found) ↦
        rw (found, reap_one)
          (elim (Bool-cases (slot == k.current)) [
            | inl running ↦ rw running refl
            | inr away ↦ rw away (elim (Option-cases (k.tasks slot)) [
              | inl empty ↦ rw empty tt
              | inr (t, there) ↦
                  rw there
                    (elim (Result-cases (
                      if t.owns_stack
                      then free_contiguous t.stack stack_frames k.memory
                      else ok k.memory)) [
                        | inl broken ↦ rw broken tt
                        | inr (m, stack_back) ↦ rw stack_back (elim (Option-cases t.space) [
                          | inl kernel_task ↦ rw kernel_task refl
                          | inr (root, has_space) ↦
                              rw has_space (elim (Result-cases (spaces.destroy root m)) [
                                | inl broken ↦ rw broken tt
                                | inr (m', destroyed) ↦ rw destroyed refl
                              ])
                        ])
                      ])
            ])
          ])
  ]

  reap_rounds-OnlyTasks :
      (n : ℕ) (k : Kernel) → Yields (λ r. OnlyTasks k r.1) (reap_rounds spaces n k)
  unfolding reap_rounds
  reap_rounds-OnlyTasks zero k = tt
  reap_rounds-OnlyTasks (suc n) k =
      go (reap_one spaces k) (reap_one-OnlyTasks k) (λ k'. reap_rounds-OnlyTasks n k')
    where
      further :
          (k' : Kernel) (r : Result (Unit {0} × Kernel))
          → OnlyTasks k k'
          → Yields (λ r. OnlyTasks k' r.1) r
          → Yields (λ r. OnlyTasks k r.1) r
      further k' panic e rest = tt
      further k' (ok (u, k'')) e rest = ground arith

      go :
          (r : Result (Bool × Kernel))
          → Yields (λ r. OnlyTasks k r.1) r
          → ((k' : Kernel) → Yields (λ r. OnlyTasks k' r.1) (reap_rounds spaces n k'))
          → Yields
              (λ r. OnlyTasks k r.1)
              (elim r as (λ _. Result (Unit {0} × Kernel)) [
                | panic ↦ panic
                | ok (more, k') ↦
                    let rest = reap_rounds spaces n k' in if more then rest else ok (tt, k')
              ])
      go panic first rest = tt
      go (ok (false, k')) first rest = first
      go (ok (true, k')) first rest = further k' (reap_rounds spaces n k') first (rest k')

-- The task that has the CPU can run, and no task that can run outranks it.
abbrev pub Settled : Kernel → Type 0
Settled n =
    (t : Task)
    → n.tasks n.current ≡ some t
    → (is_runnable t.state ≡ true)
      × ((other : ℕ) (u : Task)
          → other < max_tasks
          → n.tasks other ≡ some u
          → is_runnable u.state ≡ true
          → t.priority ≤ u.priority)

-- Where a switch may leave the kernel: it has buried tasks, noted the switch and made another task in
-- the table current.
abbrev pub Switched : Kernel → Kernel → Type 0
Switched k n =
    (n ≡ record k {
      tasks = n.tasks;
      memory = n.memory;
      current = n.current;
      log = n.log;
      active_root = n.active_root;
    })
    × (n.current < max_tasks)

-- The ways that a switch ends: a panic, a return to the caller, or a switch that returns as soon as
-- the caller is current again.
pub data Switches (k : Kernel) : Prog (Unit {0}) → Type 0 where
  halts : Switches k halt
  stays : (n : Kernel) → OnlyTasks k n → Settled n → Switches k (ret tt n)
  switches :
      (n : Kernel)
      → Switched k n
      → n.current ≢ k.current
      → Settled n
      → Switches k (yield n (λ k'. ret tt k'))

picked_in_table : (k : Kernel) (slot : ℕ) → next_runnable k ≡ some slot → slot < max_tasks
picked_in_table k slot picked =
    let (d, p, at_d, best) = subst (Picked k) picked (next_runnable-Picked k) in omega (arith, at_d)

picked_runs :
    (k : Kernel) (slot : ℕ) (t : Task)
    → next_runnable k ≡ some slot
    → k.tasks slot ≡ some t
    → is_runnable t.state ≡ true
picked_runs k slot t picked there =
    let (d, p, at_d, best) = subst (Picked k) picked (next_runnable-Picked k) in
    let mine : some best.task ≡ some t = sym best.there ∙ ap k.tasks (sym at_d) ∙ there in
    let task_same : best.task ≡ t = cc in rw (← task_same) best.can_run

picked_settles :
    (k : Kernel) (slot : ℕ) (t : Task)
    → next_runnable k ≡ some slot
    → k.tasks slot ≡ some t
    → (is_runnable t.state ≡ true)
      × ((other : ℕ) (u : Task)
          → other < max_tasks
          → k.tasks other ≡ some u
          → is_runnable u.state ≡ true
          → t.priority ≤ u.priority)
picked_settles k slot t picked there = (
  picked_runs k slot t picked there,
  λ other u h there' can. (next_runnable_highest k slot other t u picked there h there' can).1,
)

reap_zombies-OnlyTasks :
    (spaces : Spaces) (k : Kernel) → Yields (λ r. OnlyTasks k r.1) (reap_zombies spaces k)
unfolding reap_zombies
reap_zombies-OnlyTasks spaces k = reap_rounds-OnlyTasks spaces (max_tasks + 1) k

switch_from-Switches :
    (spaces : Spaces) (reason : Reason) (k n : Kernel)
    → OnlyTasks k n
    → Switches k (switch_from spaces reason n)
unfolding switch_from
switch_from-Switches spaces reason k n same = elim (Option-cases (n.tasks n.current)) [
  | inl gone ↦ rw gone (stays n same (λ t there. absurd cc))
  | inr (t, here) ↦ rw here (elim (Option-cases (next_runnable n)) [
    | inl none_left ↦ rw none_left halts
    | inr (next, picked) ↦ rw picked (elim (Bool-cases (next == n.current)) [
      | inl own ↦ rw own (
          stays n same (λ t there.
            picked_settles n next t picked
              (let own' : next ≡ n.current = ground arith in rw own' there)))
      | inr other ↦ rw other (elim (Result-cases (incoming_root spaces n next)) [
        | inl broken ↦ rw broken halts
        | inr (root, found) ↦ rw found (
            switches _ (ground arith, picked_in_table n next picked) (λ e. ground (arith, e))
              (λ t there. picked_settles n next t picked there))
      ])
    ])
  ])
]

-- `switch_to_next` ends in one of three ways: a panic, a return to its caller, or a switch to another
-- task in the table. Where it does not panic, the task that then has the CPU, if any, can run and no
-- task that can run outranks it; and nothing of the kernel has changed but the tasks, the memory
-- and, by a switch, the current task, the log and the active root.
pub switch_to_next-Switches :
    (spaces : Spaces) (reason : Reason) (k : Kernel) → Switches k (switch_to_next spaces reason k)
unfolding switch_to_next
switch_to_next-Switches spaces reason k =
    go (reap_zombies spaces k) (reap_zombies-OnlyTasks spaces k)
  where
    go :
        (r : Result (Unit {0} × Kernel))
        → Yields (λ r. OnlyTasks k r.1) r
        → Switches k (
            and_then
              (elim r as (λ _. Prog (Unit {0})) [ panic ↦ halt | ok (a, n) ↦ ret a n ])
              (λ _. switch_from spaces reason))
    go panic same = halts
    go (ok (u, n)) same = switch_from-Switches spaces reason k n same

module _ (P : Kernel → Type 0) (stable : (k n : Kernel) → Switched k n → P k → P n)
    (in_table : (k : Kernel) → P k → k.current < max_tasks) where
  Switches-Safe : (k : Kernel) (m : Prog (Unit {0})) → Switches k m → P k → Safe P m
  Switches-Safe k _ halts p = tt
  Switches-Safe k _ (stays n same settled) p =
      stable k n (ground arith, ground (arith, in_table k p)) p
  Switches-Safe k _ (switches n far other settled) p = (stable k n far p, λ k' p'. p')

  -- What a switch keeps, the whole of a blocking operation keeps.
  pub switch_to_next-Safe :
      (spaces : Spaces) (reason : Reason) (k : Kernel)
      → P k
      → Safe P (switch_to_next spaces reason k)
  switch_to_next-Safe spaces reason k p =
      Switches-Safe k (switch_to_next spaces reason k) (switch_to_next-Switches spaces reason k) p

  pub park-Safe : (spaces : Spaces) (k : Kernel) → P k → Safe P (park spaces k)
  unfolding park
  park-Safe spaces k p = elim (Bool-cases (is_blocked k.current k)) [
    | inl is ↦ rw is (switch_to_next-Safe spaces voluntary k p)
    | inr isnt ↦ rw isnt p
  ]

  pub unblock-Safe :
      (spaces : Spaces) (id : ℕ) (k : Kernel)
      → P (unblock_deferred id k).1
      → Safe P (unblock spaces id k)
  unfolding unblock
  unblock-Safe spaces id k p = elim (Bool-cases (unblock_deferred id k).0) [
    | inl is ↦ rw is (switch_to_next-Safe spaces voluntary (unblock_deferred id k).1 p)
    | inr isnt ↦ rw isnt p
  ]
