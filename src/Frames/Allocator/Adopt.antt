-- ===== src/Frames/Allocator/Adopt.antt =====
-- `adopt` of kernel/src/frames.rs: the map corrected once the machine has described its memory.
use the_rack.Base.{
  ℕ, ◌+◌, ◌-◌, ◌*◌, ◌/◌, ◌%◌, ◌≤◌, ◌<◌, ◌≡◌, ◌≢◌, refl, sym, subst, ◌∙◌, inl, inr, true, false,
  Option, none, some, Result, ok, panic, arith, ltb, ◌==◌, u64_mod, Bool-cases,
}
use the_rack.Base.Int.{ℤ, sub_ℕ}
use the_rack.Frames.Count.{vacant, vacant-Takes, vacant_grow, vacant-le, Takes}
use the_rack.Frames.Bitmap.{Bitmap, frame_size, max_ram, max_frames}
use the_rack.Frames.Bitmap.Bit.{taken, Marks}
use the_rack.Frames.Bitmap.Range.{set_range-Marks, clear_range-Marks}
use the_rack.Frames.Allocator.{
  Memory, Reply, done, refused, outside_ram, already_taken, frame_count, find_taken, grow, shrink,
  adopt,
}
use the_rack.Frames.Allocator.Inv.{Inv, recount-IsWf}
use the_rack.Frames.Allocator.Init.{whole_frames}
use the_rack.Frames.Allocator.Alloc.{from_index-ok}
use the_rack.Frames.Allocator.Scan.{FirstTaken, find_taken-FirstTaken}

-- RAM has `size` bytes now: frames that stayed are as they were, and new ones are free.
pub record Adopted (size : ℕ) (m n : Memory) : Type 0 where
  pub base_same : n.ram_base ≡ m.ram_base
  pub length_set : n.ram_length ≡ size
  pub kept : (j : ℕ) → j < frame_count m → j < frame_count n → taken n.bitmap j ≡ taken m.bitmap j
  pub added : (j : ℕ) → frame_count m ≤ j → j < frame_count n → taken n.bitmap j ≡ false
  pub dropped : (j : ℕ) → frame_count n ≤ j → j < frame_count m → taken m.bitmap j ≡ false
  pub bytes_same : n.bytes ≡ m.bytes
  pub inv : Inv n

-- What `adopt` may return.
abbrev pub AdoptReturns : ℕ → ℕ → Memory → Result (Memory × Reply ℤ) → Type 0
AdoptReturns base size m panic = ⊥
AdoptReturns base size m (ok (n, refused (outside_ram a))) =
    (n ≡ m) × (a ≡ base) × (base ≢ m.ram_base)
AdoptReturns base size m (ok (n, refused (already_taken a))) =
    (n ≡ m)
    × (j : ℕ) × (a ≡ m.ram_base + j * frame_size)
    × (size / frame_size ≤ j)
    × (j < frame_count m)
    × (taken m.bitmap j ≡ true)
AdoptReturns base size m (ok (n, done d)) =
    (base ≡ m.ram_base) × (d ≡ sub_ℕ (frame_count n) (frame_count m)) × Adopted size m n

module _ (size : ℕ) (m : Memory) (inv : Inv m) (aligned : size % frame_size ≡ 0)
    (fits : size ≤ max_ram) (no_wrap : m.ram_base + max_ram < u64_mod) where
  resized : Bitmap → ℕ → Memory
  resized c free = record m { bitmap = record c { free = free }; ram_length = size }

  module _ (c : Bitmap) where
    module _ (h : frame_count m < size / frame_size)
        (marks : Marks false (frame_count m) (size / frame_size) m.bitmap c) where
      grown-Takes :
          Takes (size / frame_size) (frame_count m) (size / frame_size) (taken c) (taken m.bitmap)
      grown-Takes = record {
        was_free = λ i p q. ground (arith, marks.reads i);
        now_taken = λ i p q. inv.beyond i p (omega arith);
        before = λ i p. ground (arith, marks.reads i);
        after = λ i p q. ground (arith, marks.reads i);
      }

      old_count : vacant (size / frame_size) (taken m.bitmap) ≡ m.bitmap.free
      old_count =
          let whole : frame_count m + (size / frame_size - frame_count m) ≡ size / frame_size =
            omega arith in
          let grown =
            vacant_grow (size / frame_size - frame_count m) (frame_count m) (taken m.bitmap)
              (λ i p q. inv.beyond i p (omega arith)) in
          rw whole at grown ∙ sym inv.counted

      grown_count :
          vacant (size / frame_size) (taken c) ≡ m.bitmap.free + (size / frame_size - frame_count m)
      grown_count = omega (
        arith,
        old_count,
        vacant-Takes (size / frame_size) (frame_count m) (size / frame_size) _ _ (omega arith)
            (omega arith) grown-Takes,
      )

      grown-Adopted :
          Adopted size m (resized c (m.bitmap.free + (size / frame_size - frame_count m)))
      unfolding resized taken
      grown-Adopted = record {
        base_same = refl;
        length_set = refl;
        kept = λ j p q. ground (arith, marks.reads j);
        added = λ j p q. ground (arith, marks.reads j);
        dropped = λ j p q. absurd (omega arith);
        bytes_same = refl;
        inv = record {
          wf = recount-IsWf c _ c.reserved marks.wf;
          base_aligned = inv.base_aligned;
          length_aligned = aligned;
          fits = fits;
          no_wrap = omega arith;
          beyond = λ i p q. ground (arith, marks.reads i, inv.beyond i);
          counted = omega (arith, grown_count);
        };
      }

      grown_room : m.bitmap.free + (size / frame_size - frame_count m) ≤ max_frames
      grown_room = omega (arith, grown_count, vacant-le (size / frame_size) (taken c))

    module _ (h : size / frame_size ≤ frame_count m)
        (unused : FirstTaken m.bitmap (size / frame_size) (frame_count m) none)
        (marks : Marks true (size / frame_size) (frame_count m) m.bitmap c) where
      shrunk-Takes :
          Takes (frame_count m) (size / frame_size) (frame_count m) (taken m.bitmap) (taken c)
      shrunk-Takes = record {
        was_free = unused;
        now_taken = λ i p q. ground (arith, marks.reads i);
        before = λ i p. ground (arith, marks.reads i);
        after = λ i p q. ground (arith, marks.reads i);
      }

      new_count : vacant (frame_count m) (taken c) ≡ vacant (size / frame_size) (taken c)
      new_count =
          let whole : size / frame_size + (frame_count m - size / frame_size) ≡ frame_count m =
            omega arith in
          rw whole at (
            vacant_grow (frame_count m - size / frame_size) (size / frame_size) (taken c)
              (λ i p q. shrunk-Takes.now_taken i p (omega arith)))

      shrunk_count :
          m.bitmap.free ≡ vacant (size / frame_size) (taken c) + (frame_count m - size / frame_size)
      shrunk_count = omega (
        arith,
        inv.counted,
        new_count,
        vacant-Takes (frame_count m) (size / frame_size) (frame_count m) _ _ h (omega arith)
            shrunk-Takes,
      )

      shrunk-Adopted :
          Adopted size m (resized c (m.bitmap.free - (frame_count m - size / frame_size)))
      unfolding resized taken
      shrunk-Adopted = record {
        base_same = refl;
        length_set = refl;
        kept = λ j p q. ground (arith, marks.reads j);
        added = λ j p q. absurd (omega arith);
        dropped = unused;
        bytes_same = refl;
        inv = record {
          wf = recount-IsWf c _ c.reserved marks.wf;
          base_aligned = inv.base_aligned;
          length_aligned = aligned;
          fits = fits;
          no_wrap = omega arith;
          beyond = λ i p q. ground (arith, marks.reads i, inv.beyond i);
          counted = omega (arith, shrunk_count);
        };
      }

  grow-AdoptReturns :
      frame_count m < size / frame_size
      → AdoptReturns m.ram_base size m (grow size (frame_count m) (size / frame_size) m)
  unfolding grow resized
  grow-AdoptReturns h =
      let (c, ran, marks) =
        clear_range-Marks (frame_count m) (size / frame_size) m.bitmap (omega arith) (omega arith)
          inv.wf in
      let free = m.bitmap.free + (size / frame_size - frame_count m) in
      let returns : grow size (frame_count m) (size / frame_size) m
          ≡ ok (resized c free, done (sub_ℕ (size / frame_size) (frame_count m))) =
        ground (arith, grown_room c h marks, marks.free_same) in
      rw returns (refl, refl, grown-Adopted c h marks)

  shrink-AdoptReturns :
      size / frame_size ≤ frame_count m
      → AdoptReturns m.ram_base size m (shrink size (frame_count m) (size / frame_size) m)
  unfolding shrink resized
  shrink-AdoptReturns h =
      let (o, ran, first) =
        find_taken-FirstTaken (frame_count m - size / frame_size) (size / frame_size)
          (frame_count m) m.bitmap (omega arith) (omega (arith, inv.fits)) inv.wf in
      go o ran first
    where
      go :
          (o : Option ℕ)
          → find_taken (frame_count m - size / frame_size) (size / frame_size) m.bitmap ≡ ok o
          → FirstTaken m.bitmap (size / frame_size) (frame_count m) o
          → AdoptReturns m.ram_base size m (shrink size (frame_count m) (size / frame_size) m)
      go (some j) found first =
          rw (found, shrink, from_index-ok m j inv first.1)
            (refl, j, refl, first.0, first.1, first.2)
      go none found unused =
          let (c, ran, marks) =
            set_range-Marks (size / frame_size) (frame_count m) m.bitmap h (omega (arith, inv.fits))
              inv.wf in
          let free = m.bitmap.free - (frame_count m - size / frame_size) in
          let returns : shrink size (frame_count m) (size / frame_size) m
              ≡ ok (resized c free, done (sub_ℕ (size / frame_size) (frame_count m))) =
            ground (arith, shrunk_count c h unused marks, marks.free_same) in
          rw returns (refl, refl, shrunk-Adopted c h unused marks)

-- In a valid state `adopt` returns, if RAM at its largest does not reach the top of the address
-- space. It refuses another base, and a smaller size that would cut off a taken frame, and then
-- changes nothing. Otherwise RAM has the new size in whole frames, frames that stay keep their
-- state, new ones are free, the frames cut off were free, the result is the change in their number
-- and the state is valid.
pub adopt-AdoptReturns :
    (base requested : ℕ) (m : Memory)
    → Inv m
    → m.ram_base + max_ram < u64_mod
    → AdoptReturns base (whole_frames requested) m (adopt base requested m)
unfolding adopt
adopt-AdoptReturns base requested m inv no_wrap = elim (Bool-cases (base == m.ram_base)) [
  | inr other ↦ rw other (refl, refl, ground arith)
  | inl same ↦
      let e : base ≡ m.ram_base = ground arith in
      let size = whole_frames requested in
      let aligned : size % frame_size ≡ 0 = omega arith in
      let fits : size ≤ max_ram = omega arith in
      elim (Bool-cases (ltb (frame_count m) (size / frame_size))) [
        | inl grows ↦
            rw (same, grows)
              (subst (λ b. AdoptReturns b size m (grow size (frame_count m) (size / frame_size) m))
                (sym e) (grow-AdoptReturns size m inv aligned fits no_wrap (ground arith)))
        | inr shrinks ↦
            rw (same, shrinks)
              (subst
                (λ b. AdoptReturns b size m (shrink size (frame_count m) (size / frame_size) m))
                (sym e) (shrink-AdoptReturns size m inv aligned fits no_wrap (ground arith)))
      ]
]
