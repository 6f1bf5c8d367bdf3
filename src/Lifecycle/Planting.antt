-- ===== src/Lifecycle/Planting.antt =====
-- The switch frame that `plant_switch_frame` of kernel/src/tasks.rs writes at the top of a stack.
use the_rack.Base.{ℕ, ◌+◌, ◌-◌, ◌*◌, ◌^◌, ◌≤◌, ◌<◌, ◌≡◌, refl, sym, subst, ◌∙◌, ◌⊎◌, inl, arith}
use the_rack.Base.Words.{read_word-write_word, read_word-write_word_apart, write_word}
use the_rack.Paging.Words.{read_u64, write_u64}
use the_rack.Frames.Allocator.{Memory, Frame}
use the_rack.Lifecycle.{plant_switch_frame, stack_size, stack_canary}

-- What a task that has not run finds: the canary at the base of its stack, and, at the top, the frame
-- that the switch restores, which enters the trampoline with the entry and its argument.
pub record Planted (trampoline : ℕ) (stack : Frame) (entry arg : ℕ) (m : Memory) (sp : ℕ)
    (n : Memory) : Type 0 where
  pub top : sp + 96 ≡ stack + stack_size
  pub canary : read_u64 n.bytes stack ≡ stack_canary
  pub x19 : read_u64 n.bytes sp ≡ entry
  pub x20 : read_u64 n.bytes (sp + 8) ≡ arg
  pub x29 : read_u64 n.bytes (sp + 80) ≡ 0
  pub x30 : read_u64 n.bytes (sp + 88) ≡ trampoline
  pub apart : (a : ℕ) → (a < stack) ⊎ (stack + stack_size ≤ a) → n.bytes a ≡ m.bytes a
  pub rest : n ≡ record m { bytes = n.bytes }

own_word : (bytes : ℕ → ℕ) (a b v : ℕ) → a ≡ b → v < 2 ^ 64 → read_u64 (write_u64 bytes b v) a ≡ v
unfolding read_u64 write_u64
own_word bytes a b v same h =
    subst (λ a. read_u64 (write_u64 bytes b v) a ≡ v) (sym same)
      (read_word-write_word 8 bytes b v h)

other_word :
    (bytes : ℕ → ℕ) (a b v : ℕ)
    → (a + 8 ≤ b) ⊎ (b + 8 ≤ a)
    → read_u64 (write_u64 bytes b v) a ≡ read_u64 bytes a
unfolding read_u64 write_u64
other_word bytes a b v h = read_word-write_word_apart 8 8 bytes a b v h

other_byte : (bytes : ℕ → ℕ) (x a v : ℕ) → (x < a) ⊎ (a + 8 ≤ x) → write_u64 bytes a v x ≡ bytes x
unfolding write_u64 write_word
other_byte bytes x a v h = ground arith

pub plant_switch_frame-Planted :
    (trampoline : ℕ) (stack : Frame) (entry arg : ℕ) (m : Memory)
    → trampoline < 2 ^ 64
    → entry < 2 ^ 64
    → arg < 2 ^ 64
    → let p = plant_switch_frame trampoline stack entry arg m in
      Planted trampoline stack entry arg m p.0 p.1
unfolding plant_switch_frame
plant_switch_frame-Planted trampoline stack entry arg m ht he ha =
    let sp = stack + stack_size - 12 * 8 in
    let canary = write_u64 m.bytes stack stack_canary in
    let x19 = write_u64 canary (sp + 0 * 8) entry in
    let x20 = write_u64 x19 (sp + 1 * 8) arg in
    let x29 = write_u64 x20 (sp + 10 * 8) 0 in
    record {
      top = omega arith;
      canary =
          other_word x29 stack (sp + 11 * 8) trampoline (inl (omega arith))
          ∙ other_word x20 stack (sp + 10 * 8) 0 (inl (omega arith))
          ∙ other_word x19 stack (sp + 1 * 8) arg (inl (omega arith))
          ∙ other_word canary stack (sp + 0 * 8) entry (inl (omega arith))
          ∙ own_word m.bytes stack stack stack_canary refl (omega arith);
      x19 =
          other_word x29 sp (sp + 11 * 8) trampoline (inl (omega arith))
          ∙ other_word x20 sp (sp + 10 * 8) 0 (inl (omega arith))
          ∙ other_word x19 sp (sp + 1 * 8) arg (inl (omega arith))
          ∙ own_word canary sp (sp + 0 * 8) entry (omega arith) he;
      x20 =
          other_word x29 (sp + 8) (sp + 11 * 8) trampoline (inl (omega arith))
          ∙ other_word x20 (sp + 8) (sp + 10 * 8) 0 (inl (omega arith))
          ∙ own_word x19 (sp + 8) (sp + 1 * 8) arg (omega arith) ha;
      x29 =
          other_word x29 (sp + 80) (sp + 11 * 8) trampoline (inl (omega arith))
          ∙ own_word x20 (sp + 80) (sp + 10 * 8) 0 (omega arith) (omega arith);
      x30 = own_word x29 (sp + 88) (sp + 11 * 8) trampoline (omega arith) ht;
      apart = λ a far.
          other_byte x29 a (sp + 11 * 8) trampoline (omega (arith, far))
          ∙ other_byte x20 a (sp + 10 * 8) 0 (omega (arith, far))
          ∙ other_byte x19 a (sp + 1 * 8) arg (omega (arith, far))
          ∙ other_byte canary a (sp + 0 * 8) entry (omega (arith, far))
          ∙ other_byte m.bytes a stack stack_canary (omega (arith, far));
      rest = refl;
    }
