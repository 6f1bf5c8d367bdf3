-- ===== src/Virtqueue/Building.antt =====
-- `new` of kernel/src/virtqueue.rs: a queue on a fresh frame, and what the device is told of it.
use the_rack.Base.{
  ℕ, ◌+◌, ◌*◌, ◌%◌, ◌^◌, ◌≤◌, ◌<◌, ◌≡◌, refl, ◌∙◌, ◌⊎◌, inl, inr, true, false, Option, none, some,
  [], ◌∷◌, arith, ltb, Bool-cases, Result, ok, panic, add_u64,
}
use the_rack.Frames.Bitmap.{frame_size}
use the_rack.Frames.Bitmap.Bit.{taken}
use the_rack.Frames.Allocator.{Memory, Frame, alloc, frame_count}
use the_rack.Frames.Allocator.Inv.{Inv, Remarks}
use the_rack.Frames.Allocator.Alloc.{Allocated, AllocReturns, alloc-AllocReturns}
use the_rack.Base.Words.{read_word, read_word-same}
use the_rack.Virtio.{Trace, Device, wrote, read_from}
use the_rack.Virtqueue.{
  Queue, too_small, no_memory, Outcome, success, failure, new, thread_free, queue_size,
  available_index, used_index, read_field, desc_offset, avail_offset, used_offset, queue_sel,
  queue_num_max,
}
use the_rack.Virtqueue.Announce.{Announced, trace_of, trace_of-Announced}
use the_rack.Virtqueue.Ring.{AreBytes}
use the_rack.Virtqueue.Threading.{
  range, length-range, occurrences-range_whole, Threaded, thread_free-Threaded,
}
use the_rack.Virtqueue.Represents.{Represents, AllInFlight}

-- `n` has the map of `m` with the frame at `place` taken.
pub record TookFrame (m : Memory) (place : ℕ) (n : Memory) : Type 0 where
  pub was_free : taken m.bitmap place ≡ false
  pub marks : Remarks true place (place + 1) m n
  pub counted : m.bitmap.free ≡ n.bitmap.free + 1
  pub reserved_same : n.bitmap.reserved ≡ m.bitmap.reserved

-- The queue `q` stands on a frame that was free, with every descriptor free and both rings empty.
pub record Built (m : Memory) (index : ℕ) (q : Queue) (t : Trace) (n : Memory) : Type 0 where
  pub place : ℕ
  pub placed : q.frame ≡ m.ram_base + place * frame_size
  pub inside : place < frame_count m
  pub took : TookFrame m place n
  pub inv : Inv n
  pub represents : Represents q n (range 0 queue_size) []
  pub none_available : available_index q.frame n ≡ 0
  pub none_used : used_index q.frame n ≡ q.last_used
  pub apart : (a : ℕ) → (a < q.frame) ⊎ (q.frame + frame_size ≤ a) → n.bytes a ≡ m.bytes a
  pub announced : Announced q.frame index t

-- The queue size that the device allows, once the queue is selected.
abbrev pub limit_of : Device → ℕ → Trace → ℕ
limit_of device index t = device (wrote queue_sel index ∷ t) queue_num_max % 2 ^ 32

-- What `new` may return.
abbrev pub NewReturns :
    Device → ℕ → Trace → Memory → Result (Outcome Queue × Trace × Memory) → Type 0
NewReturns device index t m panic = ⊥
NewReturns device index t m (ok (failure e, t', n)) =
    (n ≡ m)
    × (((limit_of device index t < queue_size) × (e ≡ too_small (limit_of device index t)))
        ⊎ ((queue_size ≤ limit_of device index t)
            × (e ≡ no_memory)
            × ((i : ℕ) → i < frame_count m → taken m.bitmap i ≡ true)))
NewReturns device index t m (ok (success q, t', n)) =
    (queue_size ≤ limit_of device index t) × Built m index q t' n

-- A queue whose descriptors are all threaded has them all free.
pub fresh-Represents :
    (frame : Frame) (m n : Memory)
    → AreBytes m
    → Threaded frame m n queue_size 0
    → Represents
        (record {
          frame = frame;
          size = queue_size;
          free_head = 0;
          free_count = queue_size;
          last_used = 0;
        })
        n
        (range 0 queue_size)
        []
unfolding AllInFlight
fresh-Represents frame m n bytes threaded = record {
  sized = refl;
  counted = omega (arith, length-range 0 queue_size);
  head_fits = omega arith;
  last_fits = omega arith;
  bytes_fit = threaded.bytes_fit bytes;
  free_list = threaded.free_list;
  chains = tt;
  partition = λ x. occurrences-range_whole x queue_size;
  total = omega (arith, length-range 0 queue_size);
}

module _ (m n : Memory) (frame i : ℕ) (inv : Inv m) (bytes : AreBytes m)
    (at : frame ≡ m.ram_base + i * frame_size) (a : Allocated 1 m n i) where
  after : Memory
  after = thread_free queue_size 0 frame n

  built_queue : Queue
  built_queue = record {
    frame = frame;
    size = queue_size;
    free_head = 0;
    free_count = queue_size;
    last_used = 0;
  }

  threaded : Threaded frame n after queue_size 0
  unfolding after
  threaded = thread_free-Threaded frame queue_size 0 n (omega arith)

  zero_bytes : (x : ℕ) → frame + 256 ≤ x → x < frame + frame_size → after.bytes x ≡ 0
  zero_bytes x p q = threaded.apart x (inr (omega arith)) ∙ a.zeroed x (omega arith) (omega arith)

  allocated_bytes : AreBytes n
  unfolding AreBytes
  allocated_bytes x = elim (Bool-cases (ltb x frame)) [
    | inl low ↦ omega (arith, a.untouched x (inl (ground arith)), bytes x)
    | inr high ↦ elim (Bool-cases (ltb x (frame + frame_size))) [
      | inl within ↦ omega (arith, a.zeroed x (ground arith) (ground arith))
      | inr beyond ↦ omega (arith, a.untouched x (inr (ground arith)), bytes x)
    ]
  ]

  built-Represents : Represents built_queue after (range 0 queue_size) []
  unfolding built_queue
  built-Represents = fresh-Represents frame n after allocated_bytes threaded

  zero_available : available_index frame after ≡ 0
  unfolding available_index read_field read_word
  zero_available =
      read_word-same 2 (λ x. 0) after.bytes _ (λ x p q. zero_bytes x (omega arith) (omega arith))

  zero_used : used_index frame after ≡ 0
  unfolding used_index read_field read_word
  zero_used =
      read_word-same 2 (λ x. 0) after.bytes _ (λ x p q. zero_bytes x (omega arith) (omega arith))

  took : TookFrame m i after
  unfolding taken
  took = record {
    was_free = a.was_free i (omega arith) (omega arith);
    marks = record {
      reads = λ j. rw threaded.bitmap_same (a.marks.reads j);
      base_same = threaded.base_same ∙ a.marks.base_same;
      length_same = threaded.length_same ∙ a.marks.length_same;
      image_same = threaded.image_same ∙ a.marks.image_same;
    };
    counted = rw threaded.bitmap_same a.counted;
    reserved_same = rw threaded.bitmap_same a.reserved_same;
  }

  Built-fresh :
      (index : ℕ) (t : Trace)
      → Built m index built_queue
          (trace_of frame (read_from queue_num_max ∷ wrote queue_sel index ∷ t))
          after
  unfolding built_queue
  Built-fresh index t = record {
    place = i;
    placed = at;
    inside = omega (arith, a.within);
    took = took;
    inv = threaded.inv a.inv;
    represents = built-Represents;
    none_available = zero_available;
    none_used = zero_used;
    apart = λ x p. threaded.apart x (omega arith) ∙ a.untouched x (omega arith);
    announced = trace_of-Announced frame index t (omega (arith, a.within, at, inv.no_wrap));
  }

module _ (device : Device) (index : ℕ) (t : Trace) (m : Memory) where
  pub told : Trace
  told = read_from queue_num_max ∷ wrote queue_sel index ∷ t

  new_small :
      ltb (device (wrote queue_sel index ∷ t) queue_num_max % 2 ^ 32) queue_size ≡ true
      → new device index t m
        ≡ ok (
          failure (too_small (device (wrote queue_sel index ∷ t) queue_num_max % 2 ^ 32)),
          told,
          m,
        )
  unfolding new told
  new_small small = rw small refl

  module _
      (enough : ltb (device (wrote queue_sel index ∷ t) queue_num_max % 2 ^ 32) queue_size
        ≡ false) where
    new-none :
        (n : Memory)
        → alloc m ≡ ok (n, none)
        → new device index t m ≡ ok (failure no_memory, told, n)
    unfolding new told
    new-none n ran = rw (enough, ran) refl

    pub new-some :
        (n : Memory) (frame : Frame)
        → frame + frame_size < 2 ^ 64
        → alloc m ≡ ok (n, some frame)
        → new device index t m
          ≡ ok (
            success (record {
              frame = frame;
              size = queue_size;
              free_head = 0;
              free_count = queue_size;
              last_used = 0;
            }),
            trace_of frame told,
            thread_free queue_size 0 frame n,
          )
    unfolding new told trace_of
    new-some n frame h ran =
        let desc : add_u64 frame desc_offset ≡ ok (frame + desc_offset) = ground arith in
        let avail : add_u64 frame avail_offset ≡ ok (frame + avail_offset) = ground arith in
        let used : add_u64 frame used_offset ≡ ok (frame + used_offset) = ground arith in
        rw (enough, ran, desc, avail, used) refl

-- `new` does not panic on a valid state. It fails first exactly when the limit that the device
-- reports is below the queue's size, with that limit, and then when no frame is free; neither
-- changes memory. Otherwise the queue stands on one
-- frame, which was free and is now taken in a valid state; it represents all sixteen descriptors
-- free and no request in flight; both rings are empty; no byte outside the frame changes; and the
-- device was told its number, its size and the addresses of its three parts before, as the last
-- thing, that it is ready.
pub new-NewReturns :
    (device : Device) (index : ℕ) (t : Trace) (m : Memory)
    → Inv m
    → AreBytes m
    → NewReturns device index t m (new device index t m)
unfolding built_queue told thread_free after
new-NewReturns device index t m inv bytes =
    elim (Bool-cases (ltb (device (wrote queue_sel index ∷ t) queue_num_max % 2 ^ 32) queue_size)) [
      | inl small ↦ too_few small
      | inr enough ↦ go enough (alloc m) refl (alloc-AllocReturns m inv)
    ]
  where
    too_few :
        ltb (device (wrote queue_sel index ∷ t) queue_num_max % 2 ^ 32) queue_size ≡ true
        → NewReturns device index t m (new device index t m)
    too_few small = rw (new_small device index t m small) (refl, inl (ground arith, refl))

    go :
        ltb (device (wrote queue_sel index ∷ t) queue_num_max % 2 ^ 32) queue_size ≡ false
        → (r : Result (Memory × Option Frame)) → alloc m ≡ r
        → AllocReturns m r
        → NewReturns device index t m (new device index t m)
    go enough panic e never = absurd never
    go enough (ok (n, none)) e (same, all_taken) =
        rw (new-none device index t m enough n e) (same, inr (ground arith, refl, all_taken))
    go enough (ok (n, some frame)) e (i, at, lowest, a) =
        rw (new-some device index t m enough n frame (omega (arith, a.within, at, inv.no_wrap)) e)
          (ground arith, Built-fresh m n frame i inv bytes at a index t)
