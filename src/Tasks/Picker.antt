-- ===== src/Tasks/Picker.antt =====
-- `next_runnable` of kernel/src/tasks.rs: the round that it looks at, and the best of it.
use the_rack.Base.{
  ℕ, zero, suc, ◌+◌, ◌-◌, ◌%◌, ◌≤◌, ◌<◌, ◌≡◌, refl, sym, ap, subst, ◌∙◌, inl, inr, true, false,
  Option, none, some, arith, ltb, Bool-cases, ◌==◌,
}
use the_rack.Kernel.{Kernel, Task, max_tasks}
use the_rack.Tasks.{is_runnable, outranks, better, scan, next_runnable}

-- The slot `d` places past the current one, round the table.
abbrev pub slot_after : Kernel → ℕ → ℕ
slot_after k d = (k.current + d) % max_tasks

-- The best of the tasks up to `d` places past the current one, with `stop` exclusive: runnable,
-- strictly more important than every runnable task before it, and no less than those after it.
pub record IsBest (k : Kernel) (stop d priority : ℕ) : Type 0 where
  pub started : 1 ≤ d
  pub within : d < stop
  pub task : Task
  pub there : k.tasks (slot_after k d) ≡ some task
  pub can_run : is_runnable task.state ≡ true
  pub ranked : task.priority ≡ priority
  pub beats_earlier :
      (e : ℕ) (t : Task)
      → 1 ≤ e
      → e < d
      → k.tasks (slot_after k e) ≡ some t
      → is_runnable t.state ≡ true
      → priority < t.priority
  pub no_worse_than_later :
      (e : ℕ) (t : Task)
      → d < e
      → e < stop
      → k.tasks (slot_after k e) ≡ some t
      → is_runnable t.state ≡ true
      → priority ≤ t.priority

-- What the scan may hold before `stop`.
abbrev pub BestSoFar : Kernel → ℕ → Option (ℕ × ℕ) → Type 0
BestSoFar k stop none =
    (e : ℕ) (t : Task)
    → 1 ≤ e
    → e < stop
    → k.tasks (slot_after k e) ≡ some t
    → is_runnable t.state ≡ false
BestSoFar k stop (some (slot, priority)) =
    (d : ℕ) × (slot ≡ slot_after k d) × IsBest k stop d priority

module _ (k : Kernel) (stop : ℕ) (h : 1 ≤ stop) where
  -- A place where nothing can run changes nothing.
  pass :
      (b : Option (ℕ × ℕ))
      → ((t : Task) → k.tasks (slot_after k stop) ≡ some t → is_runnable t.state ≡ false)
      → BestSoFar k stop b
      → BestSoFar k (stop + 1) b
  pass none idle best = λ e t p q there. elim (Bool-cases (e == stop)) [
    | inl last ↦ let same : stop ≡ e = ground arith in idle t (rw same there)
    | inr earlier ↦ best e t p (ground arith) there
  ]
  pass (some (slot, priority)) idle (d, at_d, best) = (
    d,
    at_d,
    record {
      started = best.started;
      within = omega (arith, best.within);
      task = best.task;
      there = best.there;
      can_run = best.can_run;
      ranked = best.ranked;
      beats_earlier = best.beats_earlier;
      no_worse_than_later = λ e t p q there can. elim (Bool-cases (e == stop)) [
        | inl last ↦
            let same : stop ≡ e = ground arith in absurd (ground (arith, idle t (rw same there)))
        | inr earlier ↦ best.no_worse_than_later e t p (ground arith) there can
      ];
    },
  )

  module _ (t : Task) (there : k.tasks (slot_after k stop) ≡ some t)
      (can : is_runnable t.state ≡ true) where
    keep :
        (d priority : ℕ)
        → priority ≤ t.priority
        → IsBest k stop d priority
        → IsBest k (stop + 1) d priority
    keep d priority worse best = record {
      started = best.started;
      within = omega (arith, best.within);
      task = best.task;
      there = best.there;
      can_run = best.can_run;
      ranked = best.ranked;
      beats_earlier = best.beats_earlier;
      no_worse_than_later = λ e u p q there' can'. elim (Bool-cases (e == stop)) [
        | inl last ↦
            let same : stop ≡ e = ground arith in
            let at : k.tasks (slot_after k e) ≡ some t = rw same at there in ground arith
        | inr earlier ↦ best.no_worse_than_later e u p (ground arith) there' can'
      ];
    }

    replace :
        (b : Option (ℕ × ℕ))
        → BestSoFar k stop b
        → ((slot priority : ℕ) → b ≡ some (slot, priority) → t.priority < priority)
        → IsBest k (stop + 1) stop t.priority
    replace b best better_than = record {
      started = h;
      within = omega arith;
      task = t;
      there = there;
      can_run = can;
      ranked = refl;
      beats_earlier = beaten b best better_than;
      no_worse_than_later = λ e u p q. absurd (omega arith);
    }
      where
        beaten :
            (b : Option (ℕ × ℕ))
            → BestSoFar k stop b
            → ((slot priority : ℕ) → b ≡ some (slot, priority) → t.priority < priority)
            → (e : ℕ) (u : Task) → 1 ≤ e
            → e < stop
            → k.tasks (slot_after k e) ≡ some u
            → is_runnable u.state ≡ true
            → t.priority < u.priority
        beaten none none_yet wins e u p q there' can' =
            absurd (ground (arith, none_yet e u p q there'))
        beaten (some (slot, priority)) (d, at_d, best) wins e u p q there' can' =
            elim (Bool-cases (ltb e d)) [
              | inl before ↦ omega (
                arith,
                wins slot priority refl,
                best.beats_earlier e u p (ground arith) there' can',
              )
              | inr after ↦ elim (Bool-cases (e == d)) [
                | inl same ↦
                    let e' : e ≡ d = ground arith in
                    let both : k.tasks (slot_after k d) ≡ some u = rw e' at there' in
                    ground (arith, wins slot priority refl, best.there, best.ranked)
                | inr later ↦ omega (
                  arith,
                  wins slot priority refl,
                  best.no_worse_than_later e u (ground arith) q there' can',
                )
              ]
            ]

  better-BestSoFar :
      (b : Option (ℕ × ℕ))
      → BestSoFar k stop b
      → BestSoFar k (stop + 1) (better (slot_after k stop) (k.tasks (slot_after k stop)) b)
  better-BestSoFar b best = go (k.tasks (slot_after k stop)) refl b best
    where
      ranked :
          (t : Task)
          → k.tasks (slot_after k stop) ≡ some t
          → is_runnable t.state ≡ true
          → (b : Option (ℕ × ℕ)) → BestSoFar k stop b
          → BestSoFar k (stop + 1) (better (slot_after k stop) (some t) b)
      ranked t there can none best =
          rw can (stop, refl, replace t there can none best (λ slot priority e. cc))
      ranked t there can (some (slot, p)) (d, at_d, best) =
          elim (Bool-cases (outranks t.priority p)) [
            | inl wins ↦
                let low : t.priority < p = ground arith in
                rw (can, wins)
                  (
                    stop,
                    refl,
                    replace t there can (some (slot, p)) (d, at_d, best)
                        (λ slot' p' e. let same : p ≡ p' = ground arith in rw (← same) low),
                  )
            | inr loses ↦ rw (can, loses) (d, at_d, keep t there can d p (ground arith) best)
          ]

      idle :
          (t : Task)
          → k.tasks (slot_after k stop) ≡ some t
          → is_runnable t.state ≡ false
          → (b : Option (ℕ × ℕ)) → BestSoFar k stop b
          → BestSoFar k (stop + 1) (better (slot_after k stop) (some t) b)
      idle t there cannot none best = rw cannot (pass none (λ u e. ground arith) best)
      idle t there cannot (some (slot, p)) best =
          rw cannot (pass (some (slot, p)) (λ u e. ground arith) best)

      go :
          (o : Option Task)
          → k.tasks (slot_after k stop) ≡ o
          → (b : Option (ℕ × ℕ)) → BestSoFar k stop b
          → BestSoFar k (stop + 1) (better (slot_after k stop) (k.tasks (slot_after k stop)) b)
      go none there b best =
          subst (λ o. BestSoFar k (stop + 1) (better (slot_after k stop) o b)) (sym there)
            (pass b (λ t e. cc) best)
      go (some t) there b best =
          subst (λ o. BestSoFar k (stop + 1) (better (slot_after k stop) o b)) (sym there)
            (elim (Bool-cases (is_runnable t.state)) [
              | inl can ↦ ranked t there can b best
              | inr cannot ↦ idle t there cannot b best
            ])

scan-BestSoFar :
    (k : Kernel) (n step : ℕ) (b : Option (ℕ × ℕ))
    → 1 ≤ step
    → BestSoFar k step b
    → BestSoFar k (step + n) (scan k n step b)
unfolding scan
scan-BestSoFar k zero step b h best = let same : step + 0 ≡ step = omega arith in rw same best
scan-BestSoFar k (suc n) step b h best =
    let same : step + suc n ≡ step + 1 + n = omega arith in
    rw same (
      scan-BestSoFar k n (step + 1) (better (slot_after k step) (k.tasks (slot_after k step)) b)
        (omega arith) (better-BestSoFar k step h b best))

-- What `next_runnable` may answer: nothing only when no slot of the table holds a runnable task, and
-- otherwise the best of the whole round.
abbrev pub Picked : Kernel → Option ℕ → Type 0
Picked k none =
    (slot : ℕ) (t : Task) → slot < max_tasks → k.tasks slot ≡ some t → is_runnable t.state ≡ false
Picked k (some slot) =
    (d : ℕ) × (priority : ℕ) × (slot ≡ slot_after k d) × IsBest k (max_tasks + 1) d priority

-- `next_runnable` answers nothing only when no slot holds a runnable task. Otherwise it names a
-- runnable task that, counting places round the table from just past the current task, is strictly
-- more important than every runnable task before it and no less important than any after it. The
-- current task comes last in the round.
pub next_runnable-Picked : (k : Kernel) → Picked k (next_runnable k)
unfolding next_runnable
next_runnable-Picked k =
    go (scan k max_tasks 1 none)
      (scan-BestSoFar k max_tasks 1 none (omega arith) (λ e t p q. absurd (omega arith)))
  where
    go :
        (b : Option (ℕ × ℕ))
        → BestSoFar k (1 + max_tasks) b
        → Picked k (elim b as (λ _. Option ℕ) [ none ↦ none | some (slot, p) ↦ some slot ])
    go none idle = λ slot t h there.
        let d = (slot + max_tasks - k.current % max_tasks + (max_tasks - 1)) % max_tasks + 1 in
        let at : slot_after k d ≡ slot = omega arith in
        idle d t (omega arith) (omega arith) (rw at there)
    go (some (slot, p)) (d, at_d, best) = (d, p, at_d, best)

-- The task that `next_runnable` picks can run, and no runnable task of the table outranks it.
pub next_runnable_highest :
    (k : Kernel) (slot other : ℕ) (t u : Task)
    → next_runnable k ≡ some slot
    → k.tasks slot ≡ some t
    → other < max_tasks
    → k.tasks other ≡ some u
    → is_runnable u.state ≡ true
    → (is_runnable t.state ≡ true) × (t.priority ≤ u.priority)
next_runnable_highest k slot other t u picked there h there' can =
    let (d, p, at_d, best) = subst (Picked k) picked (next_runnable-Picked k) in
    let e = (other + max_tasks - k.current % max_tasks + (max_tasks - 1)) % max_tasks + 1 in
    let at : slot_after k e ≡ other = omega arith in
    let here : k.tasks (slot_after k e) ≡ some u = rw at there' in
    let mine : some best.task ≡ some t = sym best.there ∙ ap k.tasks (sym at_d) ∙ there in
    let task_same : best.task ≡ t = cc in
    (
      rw (← task_same) best.can_run,
      rw (← task_same) (elim (Bool-cases (ltb e d)) [
        | inl before ↦
            omega (arith, best.ranked, best.beats_earlier e u (omega arith) (ground arith) here can)
        | inr after ↦ elim (Bool-cases (e == d)) [
          | inl same ↦
              let e' : e ≡ d = ground arith in
              let both : k.tasks (slot_after k d) ≡ some u = rw e' at here in
              let one : some best.task ≡ some u = sym best.there ∙ both in
              let u_same : best.task ≡ u = cc in
              omega (arith, best.ranked, ap (λ (x : Task). x.priority) u_same)
          | inr later ↦ omega (
            arith,
            best.ranked,
            best.no_worse_than_later e u (ground arith) (omega arith) here can,
          )
        ]
      ]),
    )
