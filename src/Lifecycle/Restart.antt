-- ===== src/Lifecycle/Restart.antt =====
-- `restart` of kernel/src/tasks.rs, on every branch.
use the_rack.Base.{
  ℕ, ◌^◌, ◌<◌, ◌≡◌, ◌≢◌, refl, inl, inr, Bool, true, false, Option, none, some, arith, Bool-cases,
  Option-cases, Result-cases, Yields, Result, ok, panic,
}
use the_rack.Frames.Allocator.{Memory, Frame}
use the_rack.Kernel.{Kernel, Task, Image, runnable}
use the_rack.Tasks.{Spaces, task_at, is_in_faulted}
use the_rack.Ipc.Waiting.{abandon}
use the_rack.Lifecycle.{restart, rebuild, plant_switch_frame, user_text_va}
use the_rack.Lifecycle.Planting.{Planted, plant_switch_frame-Planted}

-- The old address space, if there was one, destroyed.
abbrev pub Cleared : Spaces → Option Frame → Memory → Memory → Type 0
Cleared spaces none m n = n ≡ m
Cleared spaces (some root) m n = spaces.destroy root m ≡ ok n

module _ (spaces : Spaces) (trampoline user_entry : ℕ) where
  -- A restarted task: runnable in its own slot, in a space built for its image from the memory that the
  -- old one left, with a fresh frame on its own stack, and no fault or exit code; no other slot
  -- differs, and nothing else but memory.
  pub record Restarted (id : ℕ) (t : Task) (image : Image) (k n : Kernel) : Type 0 where
    pub cleared : Memory
    pub built : Memory
    pub root : Frame
    pub sp : ℕ
    pub old_gone : Cleared spaces t.space k.memory cleared
    pub new_space :
        spaces.build_user_space image.start image.stop image.arg cleared ≡ ok (built, root)
    pub planted : Planted trampoline t.stack user_entry user_text_va built sp n.memory
    pub now :
        n.tasks id
        ≡ some (record t {
          space = some root;
          sp = sp;
          fault = none;
          exit_code = none;
          state = runnable;
        })
    pub others : (j : ℕ) → j ≢ id → n.tasks j ≡ k.tasks j
    pub rest : n ≡ record k { tasks = n.tasks; memory = n.memory }

  -- What `restart` may answer, where it does not panic.
  abbrev pub RestartReturns : ℕ → Kernel → Bool × Kernel → Type 0
  RestartReturns id k (false, n) =
      (n ≡ abandon id k)
      × ((t : Task)
          → task_at (abandon id k) id ≡ some t
          → is_in_faulted t.state ≡ true
          → t.image ≡ none)
  RestartReturns id k (true, n) =
      (t : Task) × (image : Image) × (task_at (abandon id k) id ≡ some t)
      × (is_in_faulted t.state ≡ true)
      × (t.image ≡ some image)
      × Restarted id t image (abandon id k) n

module _ (spaces : Spaces) (trampoline user_entry id : ℕ) (k : Kernel) (low : trampoline < 2 ^ 64)
    (entry_low : user_entry < 2 ^ 64) where
  rebuild_over :
      (t : Task) (image : Image) (r : Result Memory)
      → (elim t.space as (λ _. Result Memory) [
        | none ↦ ok k.memory
        | some root ↦ spaces.destroy root k.memory
      ])
        ≡ r
      → Yields (Cleared spaces t.space k.memory) r
      → Yields
          (λ r. (r.0 ≡ true) × Restarted spaces trampoline user_entry id t image k r.1)
          (rebuild spaces trampoline user_entry id t image k)
  unfolding rebuild
  rebuild_over t image panic e gone = rw (e, rebuild) tt
  rebuild_over t image (ok m) e gone =
      rw (e, rebuild)
        (elim (Result-cases (spaces.build_user_space image.start image.stop image.arg m)) [
          | inl broken ↦ rw broken tt
          | inr ((m', root), built) ↦ rw built (
            refl,
            record {
              cleared = m;
              built = m';
              root = root;
              sp = (plant_switch_frame trampoline t.stack user_entry user_text_va m').0;
              old_gone = gone;
              new_space = built;
              planted =
                  plant_switch_frame-Planted trampoline t.stack user_entry user_text_va m' low
                    entry_low (omega arith);
              now = ground arith;
              others = λ j other. ground arith;
              rest = refl;
            },
          )
        ])

  clearing :
      (space : Option Frame)
      → Yields (Cleared spaces space k.memory) (elim space as (λ _. Result Memory) [
        | none ↦ ok k.memory
        | some root ↦ spaces.destroy root k.memory
      ])
  clearing none = refl
  clearing (some root) = elim (Result-cases (spaces.destroy root k.memory)) [
    | inl broken ↦ rw broken tt
    | inr (m, destroyed) ↦ rw destroyed destroyed
  ]

  rebuild-Restarted :
      (t : Task) (image : Image)
      → Yields
          (λ r. (r.0 ≡ true) × Restarted spaces trampoline user_entry id t image k r.1)
          (rebuild spaces trampoline user_entry id t image k)
  rebuild-Restarted t image = rebuild_over t image _ refl (clearing t.space)

same_task : {o : Option Task} {t u : Task} → o ≡ some t → o ≡ some u → t ≡ u
same_task at at' = cc

-- `restart` first abandons the task, whatever the outcome. Where it does not panic, it answers
-- true exactly when the slot is in the table and holds a faulted task that has an image to run
-- again. Then its old space, if any, was destroyed and the task is runnable in the space built from
-- its image, on its own stack, whose top holds a fresh frame that enters the trampoline, for a
-- trampoline and an entry below 2^64; no fault or exit code is left, and nothing else but memory has
-- changed since it was abandoned. Where it answers false, abandoning is all that it did.
pub restart-RestartReturns :
    (spaces : Spaces) (trampoline user_entry id : ℕ) (k : Kernel)
    → trampoline < 2 ^ 64
    → user_entry < 2 ^ 64
    → Yields
        (RestartReturns spaces trampoline user_entry id k)
        (restart spaces trampoline user_entry id k)
unfolding restart
restart-RestartReturns spaces trampoline user_entry id k low entry_low =
    elim (Option-cases (task_at (abandon id k) id)) [
      | inl empty ↦ rw (empty, restart) (refl, λ t there. absurd cc)
      | inr (t, there) ↦
          rw (there, restart)
            (elim (Bool-cases (is_in_faulted t.state)) [
              | inr sound ↦ rw sound (
                refl,
                λ u there' f. let same : t ≡ u = same_task there there' in absurd (ground arith),
              )
              | inl has_faulted ↦ rw has_faulted (elim (Option-cases t.image) [
                | inl no_image ↦
                    rw no_image (refl, λ u there' f. rw (← same_task there there') no_image)
                | inr (image, has_image) ↦ rw has_image (
                    succeed t image (rebuild spaces trampoline user_entry id t image (abandon id k))
                      there has_faulted has_image
                      (rebuild-Restarted spaces trampoline user_entry id (abandon id k) low
                        entry_low t image))
              ])
            ])
    ]
  where
    succeed :
        (t : Task) (image : Image) (r : Result (Bool × Kernel))
        → task_at (abandon id k) id ≡ some t
        → is_in_faulted t.state ≡ true
        → t.image ≡ some image
        → Yields
            (λ r.
              (r.0 ≡ true) × Restarted spaces trampoline user_entry id t image (abandon id k) r.1)
            r
        → Yields (RestartReturns spaces trampoline user_entry id k) r
    succeed t image panic there f i done = tt
    succeed t image (ok (true, n)) there f i (answer, done) = (t, image, there, f, i, done)
    succeed t image (ok (false, n)) there f i (answer, done) = absurd cc
