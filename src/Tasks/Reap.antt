-- ===== src/Tasks/Reap.antt =====
-- The rounds of `reap_zombies` in kernel/src/tasks.rs, counted by the zombies left.
use the_rack.Base.{
  ℕ, zero, suc, ◌+◌, ◌≤◌, ◌<◌, ◌≡◌, refl, inl, inr, Bool, true, false, Option, none, some, arith,
  Result, ok, panic, if◌then◌else◌, ◌==◌, Option-cases, Bool-cases, Yields, Result-cases,
}
use the_rack.Frames.Allocator.{Memory, free_contiguous}
use the_rack.Kernel.{Kernel, Task, dead, update, max_tasks}
use the_rack.Tasks.{
  Spaces, reap_one, reap_rounds, reap_zombies, position, position_from, stack_frames, state_is,
  is_in_zombie,
}

-- Whether a slot holds a zombie.
abbrev is_zombie : Kernel → ℕ → Bool
is_zombie k slot = state_is is_in_zombie (k.tasks slot)

-- The zombies in the `n` slots from `slot` on.
abbrev zombies : Kernel → ℕ → ℕ → ℕ
zombies k zero slot = 0
zombies k (suc n) slot =
    let rest = zombies k n (slot + 1) in if is_zombie k slot then rest + 1 else rest

zombies_few : (k : Kernel) (n slot : ℕ) → zombies k n slot ≤ n
zombies_few k zero slot = omega arith
zombies_few k (suc n) slot = ground (arith, zombies_few k n (slot + 1))

zombies_outside :
    (k k' : Kernel) (s n slot : ℕ)
    → ((j : ℕ) → slot ≤ j → is_zombie k' j ≡ is_zombie k j)
    → zombies k' n slot ≡ zombies k n slot
zombies_outside k k' s zero slot same = refl
zombies_outside k k' s (suc n) slot same = ground (
  arith,
  same slot (omega arith),
  zombies_outside k k' s n (slot + 1) (λ j h. same j (omega arith)),
)

-- One zombie fewer.
zombies-buried :
    (k k' : Kernel) (s n slot : ℕ)
    → slot ≤ s
    → s < slot + n
    → is_zombie k s ≡ true
    → is_zombie k' s ≡ false
    → ((j : ℕ) → (s == j) ≡ false → is_zombie k' j ≡ is_zombie k j)
    → zombies k' n slot + 1 ≡ zombies k n slot
zombies-buried k k' s zero slot h h' was now rest = absurd (omega arith)
zombies-buried k k' s (suc n) slot h h' was now rest = elim (Bool-cases (s == slot)) [
  | inl here ↦
      let at : s ≡ slot = ground arith in
      let after = zombies_outside k k' s n (slot + 1) (λ j p. rest j (ground arith)) in
      let was' : is_zombie k slot ≡ true = rw (← at) was in
      let now' : is_zombie k' slot ≡ false = rw (← at) now in rw (was', now') (omega (arith, after))
  | inr beyond ↦
      let after = zombies-buried k k' s n (slot + 1) (ground arith) (omega arith) was now rest in
      let same = rest slot beyond in
      rw same (elim (Bool-cases (is_zombie k slot)) [
        | inl is ↦ rw is (omega (arith, after))
        | inr isnt ↦ rw isnt after
      ])
]

position_from-found :
    (test : Option Task → Bool) (k : Kernel) (n slot s : ℕ)
    → position_from test k n slot ≡ some s
    → (slot ≤ s) × (s < slot + n) × (test (k.tasks s) ≡ true)
unfolding position_from
position_from-found test k zero slot s e = absurd cc
position_from-found test k (suc n) slot s e = elim (Bool-cases (test (k.tasks slot))) [
  | inl hit ↦ let at : slot ≡ s = ground arith in (omega arith, omega arith, rw (← at) hit)
  | inr miss ↦
      let later : position_from test k n (slot + 1) ≡ some s = ground arith in
      let (p, q, found) = position_from-found test k n (slot + 1) s later in
      (omega (arith, p), omega (arith, q), found)
]

-- A round that buries the zombie of a slot leaves one fewer.
bury_lem :
    (k : Kernel) (slot : ℕ) (t : Task) (m : Memory)
    → slot < max_tasks
    → is_zombie k slot ≡ true
    → zombies
          (record k {
            memory = m;
            tasks = update k.tasks slot (some (record t { space = none; state = dead }));
          })
          max_tasks
          0
        + 1
      ≡ zombies k max_tasks 0
bury_lem k slot t m below is =
    let k' = record k {
      memory = m;
      tasks = update k.tasks slot (some (record t { space = none; state = dead }));
    } in
    zombies-buried k k' slot max_tasks 0 (omega arith) below is (ground arith)
      (λ j other. ground arith)

module _ (spaces : Spaces) where
  reap_one_lem :
      (k : Kernel)
      → Yields
          (λ r. r.0 ≡ true → zombies r.1 max_tasks 0 + 1 ≡ zombies k max_tasks 0)
          (reap_one spaces k)
  unfolding reap_one position
  reap_one_lem k = elim (Option-cases (position_from (state_is is_in_zombie) k max_tasks 0)) [
    | inl none_left ↦ rw (none_left, reap_one) (λ e. absurd cc)
    | inr (slot, found) ↦
        rw (found, reap_one)
          (elim (Bool-cases (slot == k.current)) [
            | inl running ↦ rw running (λ e. absurd cc)
            | inr away ↦ rw away (elim (Option-cases (k.tasks slot)) [
              | inl empty ↦ rw empty tt
              | inr (t, there) ↦
                  let (above, below, is) =
                    position_from-found (state_is is_in_zombie) k max_tasks 0 slot found in
                  rw there
                    (elim (Result-cases (
                      if t.owns_stack
                      then free_contiguous t.stack stack_frames k.memory
                      else ok k.memory)) [
                        | inl broken ↦ rw broken tt
                        | inr (m, stack_back) ↦ rw stack_back (elim (Option-cases t.space) [
                          | inl kernel_task ↦ rw kernel_task (λ e. bury_lem k slot t m below is)
                          | inr (root, has_space) ↦
                              rw has_space (elim (Result-cases (spaces.destroy root m)) [
                                | inl broken ↦ rw broken tt
                                | inr (m', destroyed) ↦
                                    rw destroyed (λ e. bury_lem k slot t m' below is)
                              ])
                        ])
                      ])
            ])
          ])
  ]

  -- Enough rounds are one more than there are zombies.
  reap_rounds-enough :
      (f g : ℕ) (k : Kernel)
      → zombies k max_tasks 0 < f
      → zombies k max_tasks 0 < g
      → reap_rounds spaces f k ≡ reap_rounds spaces g k
  unfolding reap_rounds
  reap_rounds-enough zero g k p q = absurd (omega arith)
  reap_rounds-enough (suc f) zero k p q = absurd (omega arith)
  reap_rounds-enough (suc f) (suc g) k p q =
      go (reap_one spaces k) (reap_one_lem k) (λ k' p q. reap_rounds-enough f g k' p q)
    where
      go :
          (r : Result (Bool × Kernel))
          → Yields (λ r. r.0 ≡ true → zombies r.1 max_tasks 0 + 1 ≡ zombies k max_tasks 0) r
          → ((k' : Kernel)
              → zombies k' max_tasks 0 < f
              → zombies k' max_tasks 0 < g
              → reap_rounds spaces f k' ≡ reap_rounds spaces g k')
          → (elim r as (λ _. Result (Unit {0} × Kernel)) [
            | panic ↦ panic
            | ok (more, k') ↦
                let rest = reap_rounds spaces f k' in if more then rest else ok (tt, k')
          ])
            ≡ (elim r as (λ _. Result (Unit {0} × Kernel)) [
              | panic ↦ panic
              | ok (more, k') ↦
                  let rest = reap_rounds spaces g k' in if more then rest else ok (tt, k')
            ])
      go panic fewer later = refl
      go (ok (false, k')) fewer later = refl
      go (ok (true, k')) fewer later =
          later k' (omega (arith, fewer refl)) (omega (arith, fewer refl))

-- The loop of `reap_zombies` ends within a round for each slot and one more: any bound on its
-- rounds that is no smaller gives the same result.
pub reap_zombies_ends :
    (spaces : Spaces) (rounds : ℕ) (k : Kernel)
    → max_tasks < rounds
    → reap_rounds spaces rounds k ≡ reap_zombies spaces k
unfolding reap_zombies
reap_zombies_ends spaces rounds k h =
    reap_rounds-enough spaces rounds (max_tasks + 1) k (omega (arith, zombies_few k max_tasks 0))
      (omega (arith, zombies_few k max_tasks 0))
