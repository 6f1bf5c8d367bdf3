-- ===== src/Frames/Allocator/Release.antt =====
-- `free` and `free_contiguous` of kernel/src/frames.rs.
use the_rack.Base.{
  ℕ, zero, suc, ◌+◌, ◌-◌, ◌*◌, ◌/◌, ◌%◌, ◌≤◌, ◌<◌, ◌≡◌, refl, ◌∙◌, subst, mul_u64, add_u64, inl,
  inr, Bool, true, false, ◌&&◌, Result, ok, panic, arith, Bool-cases, ltb, leb, ◌==◌,
}
use the_rack.Frames.Bitmap.{frame_size}
use the_rack.Frames.Bitmap.Bit.{taken, is_set_lem, clear-Marking}
use the_rack.Frames.Allocator.{Memory, Frame, frame_count, index, free, free_each, free_contiguous}
use the_rack.Frames.Allocator.Inv.{Inv, Remarks, with_bitmap, release-Inv, release_bound}

-- The frame at index `i` is in RAM and taken.
pub record IsHeld (m : Memory) (frame i : ℕ) : Type 0 where
  pub placed : frame ≡ m.ram_base + i * frame_size
  pub inside : i < frame_count m
  pub held : taken m.bitmap i ≡ true

-- `n` is `m` after the `count` frames from index `i` on went back.
pub record Released (count : ℕ) (m n : Memory) (i : ℕ) : Type 0 where
  pub marks : Remarks false i (i + count) m n
  pub bytes_same : n.bytes ≡ m.bytes
  pub counted : n.bitmap.free ≡ m.bitmap.free + count
  pub reserved_same : n.bitmap.reserved ≡ m.bitmap.reserved
  pub inv : Inv n

module _ (m : Memory) (frame i : ℕ) (inv : Inv m) (h : IsHeld m frame i) where
  free_held : (n : Memory) × (free frame m ≡ ok n) × Released 1 m n i
  unfolding free index taken
  free_held =
      let (c, ran, marks) = clear-Marking m.bitmap i inv.wf (omega (arith, inv.fits, h.inside)) in
      let was_taken : (j : ℕ) → i ≤ j → j < i + 1 → taken m.bitmap j ≡ true =
        λ j p q. let same : j ≡ i = omega arith in rw same h.held in
      let end_inside : i + 1 ≤ frame_count m = omega (arith, h.inside) in
      let one : i + 1 - i ≡ 1 = omega arith in
      let bound = release_bound m c i (i + 1) inv (omega arith) end_inside was_taken marks in
      let kept =
        release-Inv m c i (i + 1) inv (omega arith) end_inside was_taken marks m.bitmap.reserved
          m.bytes in
      let here : (frame - m.ram_base) / frame_size ≡ i = omega (arith, h.placed) in
      (
        with_bitmap m c (m.bitmap.free + 1) m.bitmap.reserved m.bytes,
        ground
            (arith, is_set_lem m.bitmap i inv.wf, inv.no_wrap, inv.fits, inv.base_aligned, bound),
        record {
          marks = record {
            reads = marks.reads;
            base_same = refl;
            length_same = refl;
            image_same = refl;
          };
          bytes_same = refl;
          counted = refl;
          reserved_same = refl;
          inv = rw one at kept;
        },
      )

-- What `free` may return: a state without the frame, if it is a frame of RAM that is taken, and a
-- panic if it is not (outside RAM, misaligned, or free already).
abbrev pub FreeReturns : Memory → Frame → Result Memory → Type 0
FreeReturns m frame panic = (i : ℕ) → ¬ IsHeld m frame i
FreeReturns m frame (ok n) = (i : ℕ) × IsHeld m frame i × Released 1 m n i

-- The test that `free` amounts to.
holds : Memory → Frame → Bool
holds m frame =
    let i = (frame - m.ram_base) / frame_size in
    leb m.ram_base frame && frame % frame_size == 0 && ltb i (frame_count m) && taken m.bitmap i

holds→IsHeld :
    (m : Memory) (frame : ℕ)
    → Inv m
    → holds m frame ≡ true
    → IsHeld m frame ((frame - m.ram_base) / frame_size)
unfolding holds
holds→IsHeld m frame inv h = record {
  placed = ground (arith, inv.base_aligned);
  inside = ground arith;
  held = ground arith;
}

IsHeld→holds : (m : Memory) (frame i : ℕ) → Inv m → IsHeld m frame i → holds m frame ≡ true
unfolding holds
IsHeld→holds m frame i inv h =
    let here : (frame - m.ram_base) / frame_size ≡ i = omega (arith, h.placed) in
    rw here (ground (arith, inv.base_aligned, h.placed, h.inside, h.held))

not_holds_panics : (m : Memory) (frame : ℕ) → Inv m → holds m frame ≡ false → free frame m ≡ panic
unfolding free index holds
not_holds_panics m frame inv h = ground (
  arith,
  is_set_lem m.bitmap ((frame - m.ram_base) / frame_size) inv.wf,
  inv.no_wrap,
  inv.fits,
  inv.length_aligned,
)

-- In a valid state `free` panics exactly on what is not a taken frame of RAM: an address outside
-- RAM, a misaligned one, and a frame that is free already. Otherwise that frame alone becomes free,
-- no byte changes, the free count grows by one and the state is valid again.
pub free-FreeReturns : (m : Memory) (frame : ℕ) → Inv m → FreeReturns m frame (free frame m)
free-FreeReturns m frame inv = elim (Bool-cases (holds m frame)) [
  | inl held ↦
      let at = holds→IsHeld m frame inv held in
      let (n, ran, released) = free_held m frame _ inv at in rw ran (_, at, released)
  | inr lost ↦
      rw (not_holds_panics m frame inv lost) (λ i h. ground (arith, IsHeld→holds m frame i inv h))
]

Released-trans :
    (m n o : Memory) (i j : ℕ) → Released j m n i → Released 1 n o (i + j) → Released (j + 1) m o i
Released-trans m n o i j p q = record {
  marks = record {
    reads = λ k. ground (arith, p.marks.reads k, q.marks.reads k);
    base_same = q.marks.base_same ∙ p.marks.base_same;
    length_same = q.marks.length_same ∙ p.marks.length_same;
    image_same = q.marks.image_same ∙ p.marks.image_same;
  };
  bytes_same = q.bytes_same ∙ p.bytes_same;
  counted = omega (arith, p.counted, q.counted);
  reserved_same = q.reserved_same ∙ p.reserved_same;
  inv = q.inv;
}

module _ (m : Memory) (first i count : ℕ) (inv : Inv m)
    (placed : first ≡ m.ram_base + i * frame_size) (inside : i + count ≤ frame_count m)
    (held : (j : ℕ) → i ≤ j → j < i + count → taken m.bitmap j ≡ true) where
  free_each-Released :
      (rest gone : ℕ) (n : Memory)
      → gone + rest ≡ count
      → Released gone m n i
      → (o : Memory) × (free_each first rest gone n ≡ ok o) × Released count m o i
  unfolding free_each
  free_each-Released zero gone n e r =
      let all : gone ≡ count = omega arith in (n, refl, subst (λ k. Released k m n i) all r)
  free_each-Released (suc rest) gone n e r =
      let frame = first + gone * frame_size in
      let next : IsHeld n frame (i + gone) = record {
        placed = omega (arith, placed, r.marks.base_same);
        inside = omega (arith, inside, r.marks.length_same);
        held = ground (arith, r.marks.reads (i + gone), held (i + gone));
      } in
      let (o, ran, released) = free_held n frame (i + gone) r.inv next in
      let (q, ran', all) =
        free_each-Released rest (gone + 1) o (omega arith)
          (Released-trans m n o i gone r released) in
      let offset : mul_u64 gone frame_size ≡ ok (gone * frame_size) =
        ground (arith, inside, inv.fits) in
      let addr : add_u64 first (gone * frame_size) ≡ ok frame =
        ground (arith, inside, inv.fits, inv.no_wrap, placed) in
      (q, rw (offset, addr, ran) ran', all)

-- `free_contiguous` returns on any run of taken frames of RAM; they alone become free, and the free
-- count grows by their number.
pub free_contiguous-Released :
    (m : Memory) (first i count : ℕ)
    → Inv m
    → first ≡ m.ram_base + i * frame_size
    → i + count ≤ frame_count m
    → ((j : ℕ) → i ≤ j → j < i + count → taken m.bitmap j ≡ true)
    → (n : Memory) × (free_contiguous first count m ≡ ok n) × Released count m n i
unfolding free_contiguous
free_contiguous-Released m first i count inv placed inside held =
    free_each-Released m first i count inv placed inside held count 0 m (omega arith) (record {
      marks = record {
        reads = λ j. ground arith;
        base_same = refl;
        length_same = refl;
        image_same = refl;
      };
      bytes_same = refl;
      counted = omega arith;
      reserved_same = refl;
      inv = inv;
    })
